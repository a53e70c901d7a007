-- ===== src/Tests/Texts.antt =====
-- Card numbers, masks, details and cache keys of concrete texts.
use vaulty.Prelude.{
  ◌<◌, ◌∷◌, ◌++◌, ◌≡◌, ◌≢◌, ◌⊎◌, ◌↔◌, refl, true, false, none, text, length, take, arith,
}
use vaulty.Json.{Fields, field, end, str, lookup}
use vaulty.Pattern.{tenant_id_pattern}
use vaulty.Card.{validate_pan}
use vaulty.Card.Luhn.{validate_pan_iff, IsCardNumber}
use vaulty.Card.Typos.{validate_pan_wrong_digit, validate_pan_swapped}
use vaulty.Audit.{mask_token_id, safe_detail, to_lower}
use vaulty.Audit.Mask.{mask_token_id-eq_iff}
use vaulty.Audit.Detail.{IsSecret, lookup-safe_detail}
use vaulty.Cvv.{cvv_key, cvv_token_key, cvv_token_owner_key}
use vaulty.Cvv.Keys.{keys_injective, keys_apart}

validate_pan_iff_example :
    (validate_pan (text "4111111111111111") ≡ true) ↔ IsCardNumber (text "4111111111111111")
validate_pan_iff_example = validate_pan_iff (text "4111111111111111")

validate_pan_wrong_digit_example : validate_pan (text "4111111111111" ++ b'7' ∷ text "11") ≡ false
unfolding validate_pan
validate_pan_wrong_digit_example =
    validate_pan_wrong_digit (text "4111111111111") (text "11") b'1' b'7' (λ h. omega (arith, h))
      refl

validate_pan_swapped_example : validate_pan (text "" ++ b'1' ∷ b'4' ∷ text "11111111111111") ≡ false
unfolding validate_pan
validate_pan_swapped_example =
    validate_pan_swapped (text "") (text "11111111111111") b'4' b'1' (λ h. omega (arith, h))
      (λ h. omega (arith, h)) refl

mask_token_id-eq_iff_example :
    (mask_token_id (text "tok_0123456789ab") ≡ mask_token_id (text "tok_01234567cdef")) ↔ (
      (text "tok_0123456789ab" ≡ text "tok_01234567cdef")
      ⊎ (12 < length (text "tok_0123456789ab"))
        × (length (text "tok_0123456789ab") ≡ length (text "tok_01234567cdef"))
        × (take 12 (text "tok_0123456789ab") ≡ take 12 (text "tok_01234567cdef")))
mask_token_id-eq_iff_example =
    mask_token_id-eq_iff (text "tok_0123456789ab") (text "tok_01234567cdef")

abbrev detail : Fields
detail = field (text "Pan") (str (text "4111")) (field (text "count") (str (text "2")) end)

lookup-safe_detail_example :
    IsSecret (to_lower (text "Pan")) × (lookup (text "Pan") (safe_detail detail) ≡ none)
    ⊎ (to_lower (text "Pan") ≢ text "cvv")
      × (to_lower (text "Pan") ≢ text "pan")
      × (to_lower (text "Pan") ≢ text "dek")
      × (lookup (text "Pan") (safe_detail detail) ≡ lookup (text "Pan") detail)
lookup-safe_detail_example = lookup-safe_detail (text "Pan") detail

keys_injective_example :
    (cvv_key (text "a") (text "t") ≡ cvv_key (text "b") (text "t")
      → (text "a" ≡ text "b") × (text "t" ≡ text "t"))
    × (cvv_token_key (text "a") (text "t") ≡ cvv_token_key (text "b") (text "t")
        → (text "a" ≡ text "b") × (text "t" ≡ text "t"))
    × (cvv_token_owner_key (text "a") (text "t") ≡ cvv_token_owner_key (text "b") (text "t")
        → (text "a" ≡ text "b") × (text "t" ≡ text "t"))
unfolding tenant_id_pattern
keys_injective_example = keys_injective (text "a") (text "b") (text "t") (text "t") refl refl

keys_apart_example :
    (cvv_key (text "a") (text "t") ≢ cvv_token_key (text "a") (text "t"))
    × (cvv_key (text "a") (text "t") ≢ cvv_token_owner_key (text "a") (text "t"))
    × (cvv_token_key (text "a") (text "t") ≢ cvv_token_owner_key (text "a") (text "t"))
keys_apart_example = keys_apart (text "a") (text "a") (text "t") (text "t")
