-- ===== src/Card/Luhn.antt =====
-- validatePAN against the Luhn rule as it is stated for a number read from left to right.
use mathlib.Core.List.{reverse-cons}
use vaulty.Prelude.{
  ℕ, suc, zero, ◌+◌, ◌-◌, ◌*◌, ◌/◌, ◌%◌, ◌≤◌, Bool, true, false, not, Option, none, some, List, [],
  ◌∷◌, ◌++◌, reverse, ◌≡◌, refl, ◌∙◌, ◌↔◌, Text, if◌then◌else◌, length, length-append, all, arith,
}
use vaulty.Card.{is_digit, share, luhn_loop, validate_pan}

abbrev pub parity : ℕ → Bool
parity zero = false
parity (suc n) = not (parity n)

-- A digit at an even distance from the end counts as it is, one at an odd distance counts as the
-- digit sum of its double.
abbrev pub weight : Bool → ℕ → ℕ
weight false d = d
weight true d = (2 * d) / 10 + (2 * d) % 10

abbrev pub checksum : Text → ℕ
checksum [] = 0
checksum (b ∷ bs) = weight (parity (length bs)) (b - b'0') + checksum bs

-- 13 to 19 decimal digits whose weights add up to a multiple of ten.
abbrev pub IsCardNumber : Text → Type 0
IsCardNumber pan =
    (13 ≤ length pan) × (length pan ≤ 19) × (all is_digit pan ≡ true) × (checksum pan % 10 ≡ 0)

abbrev turned : ℕ → Bool → Bool
turned n alt = if parity n then not alt else alt

turned-suc : (n : ℕ) (alt : Bool) → turned n (not alt) ≡ turned (suc n) alt
turned-suc n alt = ground arith

-- What the loop makes of the last byte that it meets.
abbrev then_last : ℕ → Bool → Option ℕ → Option ℕ
then_last b flag none = none
then_last b flag (some sum) = if is_digit b then some (sum + share flag (b - b'0')) else none

luhn_loop-append :
    (bs : List ℕ) (b sum : ℕ) (alt : Bool)
    → luhn_loop (bs ++ b ∷ []) sum alt ≡ then_last b (turned (length bs) alt) (luhn_loop bs sum alt)
unfolding luhn_loop
luhn_loop-append [] b sum alt = ground arith
luhn_loop-append (c ∷ bs) b sum alt = ground (
  arith,
  luhn_loop-append bs b (sum + share alt (c - b'0')) (not alt),
  turned-suc (length bs) alt,
)

length-reverse : (bs : List ℕ) → length (reverse bs) ≡ length bs
length-reverse [] = refl
length-reverse (b ∷ bs) =
    rw (reverse-cons) (length-append (reverse bs) (b ∷ []) ∙ omega (arith, length-reverse bs))

share-eq-weight :
    (flag : Bool) (b : ℕ) → is_digit b ≡ true → share flag (b - b'0') ≡ weight flag (b - b'0')
share-eq-weight true b h = ground arith
share-eq-weight false b h = refl

turned-false : (n : ℕ) → turned n false ≡ parity n
turned-false n = ground arith

luhn_loop-reverse :
    (bs : List ℕ)
    → luhn_loop (reverse bs) 0 false ≡ (if all is_digit bs then some (checksum bs) else none)
unfolding luhn_loop
luhn_loop-reverse [] = refl
luhn_loop-reverse (b ∷ bs) = rw reverse-cons (
    rw (luhn_loop-append (reverse bs) b 0 false, luhn_loop-reverse bs, length-reverse bs)
      (last_byte))
  where
    last_byte :
        then_last b
          (turned (length bs) false)
          (if all is_digit bs then some (checksum bs) else none)
        ≡ (if all is_digit (b ∷ bs) then some (checksum (b ∷ bs)) else none)
    last_byte =
        ground (arith, share-eq-weight (turned (length bs) false) b, turned-false (length bs))

-- validatePAN accepts exactly the card numbers: 13 to 19 digits with a checksum divisible by ten.
pub validate_pan_iff : (pan : Text) → (validate_pan pan ≡ true) ↔ IsCardNumber pan
unfolding validate_pan
validate_pan_iff pan = ground (arith, luhn_loop-reverse pan)
