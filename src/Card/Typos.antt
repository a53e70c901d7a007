-- ===== src/Card/Typos.antt =====
-- The typing errors that validatePAN catches: one wrong digit, and two neighbours swapped.
use vaulty.Prelude.{
  ℕ, ◌+◌, ◌-◌, ◌%◌, Bool, true, false, not, [], ◌∷◌, ◌++◌, ◌≡◌, ◌≢◌, ◌⊎◌, inl, inr, Text, length,
  length-append, all, arith, Bool-cases,
}
use vaulty.Card.{is_digit, validate_pan}
use vaulty.Card.Luhn.{parity, weight, checksum, IsCardNumber, validate_pan_iff}

-- The part of the sum that stands in front of `n` more bytes.
abbrev checksum_before : ℕ → Text → ℕ
checksum_before n [] = 0
checksum_before n (b ∷ bs) = weight (parity (length bs + n)) (b - b'0') + checksum_before n bs

checksum-append :
    (xs ys : Text) → checksum (xs ++ ys) ≡ checksum_before (length ys) xs + checksum ys
checksum-append [] ys = omega arith
checksum-append (x ∷ xs) ys = rw (length-append xs ys) (omega (arith, checksum-append xs ys))

all-append_middle : (xs ys : Text) (a : ℕ) → all is_digit (xs ++ a ∷ ys) ≡ true → is_digit a ≡ true
all-append_middle [] ys a h = ground arith
all-append_middle (x ∷ xs) ys a h = ground (arith, all-append_middle xs ys a)

weight_injective :
    (flag : Bool) (a b front back : ℕ)
    → is_digit a ≡ true
    → is_digit b ≡ true
    → (front + (weight flag (a - b'0') + back)) % 10 ≡ 0
    → (front + (weight flag (b - b'0') + back)) % 10 ≡ 0
    → a ≡ b
weight_injective true a b front back da db ea eb = ground arith
weight_injective false a b front back da db ea eb = ground arith

agree : (xs ys : Text) (a b : ℕ) → IsCardNumber (xs ++ a ∷ ys) → IsCardNumber (xs ++ b ∷ ys) → a ≡ b
agree xs ys a b (_, _, da, ea) (_, _, db, eb) =
    weight_injective (parity (length ys)) a b (checksum_before (length (a ∷ ys)) xs) (checksum ys)
      (all-append_middle xs ys a da) (all-append_middle xs ys b db)
      (rw (checksum-append xs (a ∷ ys)) at ea) (rw (checksum-append xs (b ∷ ys)) at eb)

-- If validatePAN accepts a number, it refuses every text that differs from it in one byte.
pub validate_pan_wrong_digit :
    (xs ys : Text) (a b : ℕ)
    → a ≢ b
    → validate_pan (xs ++ a ∷ ys) ≡ true
    → validate_pan (xs ++ b ∷ ys) ≡ false
validate_pan_wrong_digit xs ys a b ne h = elim (Bool-cases (validate_pan (xs ++ b ∷ ys))) [
  | inl both ↦
      absurd (ne (agree xs ys a b ((validate_pan_iff _).0 h) ((validate_pan_iff _).0 both)))
  | inr refused ↦ refused
]

abbrev pub ZeroNine : ℕ → ℕ → Type 0
ZeroNine a b = (a ≡ b'0') × (b ≡ b'9') ⊎ (a ≡ b'9') × (b ≡ b'0')

swap_injective :
    (flag : Bool) (a b front back : ℕ)
    → is_digit a ≡ true
    → is_digit b ≡ true
    → (front + (weight (not flag) (a - b'0') + (weight flag (b - b'0') + back))) % 10 ≡ 0
    → (front + (weight (not flag) (b - b'0') + (weight flag (a - b'0') + back))) % 10 ≡ 0
    → (a ≡ b) ⊎ ZeroNine a b
swap_injective true a b front back da db ea eb = ground arith
swap_injective false a b front back da db ea eb = ground arith

swap_agree :
    (xs ys : Text) (a b : ℕ)
    → IsCardNumber (xs ++ a ∷ b ∷ ys)
    → IsCardNumber (xs ++ b ∷ a ∷ ys)
    → (a ≡ b) ⊎ ZeroNine a b
swap_agree xs ys a b (_, _, da, ea) (_, _, db, eb) =
    swap_injective (parity (length ys)) a b (checksum_before (length (a ∷ b ∷ ys)) xs) (checksum ys)
      (all-append_middle xs (b ∷ ys) a da) (all-append_middle xs (a ∷ ys) b db)
      (rw (checksum-append xs (a ∷ b ∷ ys)) at ea) (rw (checksum-append xs (b ∷ a ∷ ys)) at eb)

-- If validatePAN accepts a number, it refuses the number with two unequal neighbouring digits
-- swapped, unless the two are 0 and 9.
pub validate_pan_swapped :
    (xs ys : Text) (a b : ℕ)
    → a ≢ b
    → ¬ ZeroNine a b
    → validate_pan (xs ++ a ∷ b ∷ ys) ≡ true
    → validate_pan (xs ++ b ∷ a ∷ ys) ≡ false
validate_pan_swapped xs ys a b ne not_zero_nine h =
    elim (Bool-cases (validate_pan (xs ++ b ∷ a ∷ ys))) [
      | inl both ↦
          elim (swap_agree xs ys a b ((validate_pan_iff _).0 h) ((validate_pan_iff _).0 both)) [
            | inl same ↦ absurd (ne same)
            | inr zero_nine ↦ absurd (not_zero_nine zero_nine)
          ]
      | inr refused ↦ refused
    ]
