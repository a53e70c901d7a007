-- ===== src/Audit/Detail.antt =====
-- SafeDetail drops the sensitive keys and nothing else.
use vaulty.Prelude.{
  Text, text, none, ◌≡◌, ◌≢◌, ◌⊎◌, true, false, inl, inr, Bool-cases, text_eq, refl, text_eq_iff,
  text_eq_ne, if◌then◌else◌, arith,
}
use vaulty.Json.{Fields, end, field, lookup}
use vaulty.Audit.{to_lower, is_sensitive, safe_detail}

lookup-filtered :
    (key : Text) (pairs : Fields)
    → lookup key (safe_detail pairs) ≡ (if is_sensitive key then none else lookup key pairs)
unfolding safe_detail lookup
lookup-filtered key end = ground arith
lookup-filtered key (field k v pairs) = ground (arith, text_eq_iff k key, lookup-filtered key pairs)

-- The three words of the comment on SafeDetail.
abbrev pub IsSecret : Text → Type 0
IsSecret word = (word ≡ text "cvv") ⊎ (word ≡ text "pan") ⊎ (word ≡ text "dek")

text_cases : (a b : Text) → (a ≡ b) ⊎ (a ≢ b)
text_cases a b = elim (Bool-cases (text_eq a b)) [
  | inl same ↦ inl ((text_eq_iff a b).0 same)
  | inr other ↦ inr (λ e. ground (arith, text_eq_iff a b, other, e))
]

secret-is_sensitive : (key : Text) → IsSecret (to_lower key) → is_sensitive key ≡ true
secret-is_sensitive key h = ground (
  arith,
  h,
  text_eq_iff (to_lower key) (text "cvv"),
  text_eq_iff (to_lower key) (text "pan"),
  text_eq_iff (to_lower key) (text "dek"),
)

other-is_sensitive :
    (key : Text)
    → to_lower key ≢ text "cvv"
    → to_lower key ≢ text "pan"
    → to_lower key ≢ text "dek"
    → is_sensitive key ≡ false
other-is_sensitive key a b c = rw (text_eq_ne _ _ a, text_eq_ne _ _ b, text_eq_ne _ _ c) refl

-- A key whose lower case is "cvv", "pan" or "dek" is gone from the result of SafeDetail, and every other
-- key reads in it as it did.
pub lookup-safe_detail :
    (key : Text) (pairs : Fields)
    → IsSecret (to_lower key) × (lookup key (safe_detail pairs) ≡ none)
      ⊎ (to_lower key ≢ text "cvv")
        × (to_lower key ≢ text "pan")
        × (to_lower key ≢ text "dek")
        × (lookup key (safe_detail pairs) ≡ lookup key pairs)
lookup-safe_detail key pairs = elim (text_cases (to_lower key) (text "cvv")) [
  | inl cvv ↦ dropped (inl cvv)
  | inr not_cvv ↦ elim (text_cases (to_lower key) (text "pan")) [
    | inl pan ↦ dropped (inr (inl pan))
    | inr not_pan ↦ elim (text_cases (to_lower key) (text "dek")) [
      | inl dek ↦ dropped (inr (inr dek))
      | inr not_dek ↦ inr (
        not_cvv,
        not_pan,
        not_dek,
        ground (arith, lookup-filtered key pairs, other-is_sensitive key not_cvv not_pan not_dek),
      )
    ]
  ]
]
  where
    dropped :
        IsSecret (to_lower key)
        → IsSecret (to_lower key) × (lookup key (safe_detail pairs) ≡ none)
          ⊎ (to_lower key ≢ text "cvv")
            × (to_lower key ≢ text "pan")
            × (to_lower key ≢ text "dek")
            × (lookup key (safe_detail pairs) ≡ lookup key pairs)
    dropped h = inl (h, ground (arith, lookup-filtered key pairs, secret-is_sensitive key h))
