-- ===== src/Card.antt =====
-- The card checks of internal/handler/tokenize.go: validatePAN and validateCVV.
pub mod Luhn
pub mod Typos
use vaulty.Prelude.{
  ℕ, ◌+◌, ◌-◌, ◌*◌, ◌%◌, Bool, true, false, not, ◌&&◌, ◌||◌, Option, none, some, List, [], ◌∷◌,
  reverse, Text, ltb, leb, ◌==◌, if◌then◌else◌, length, all,
}

abbrev pub is_digit : ℕ → Bool
is_digit b = leb b'0' b && leb b b'9'

-- `strconv.Atoi(string(b))` of one byte: only a digit is a number, a sign alone is not.
abbrev atoi : ℕ → Option ℕ
atoi b = if is_digit b then some (b - b'0') else none

-- One digit's share of the sum, `alt` at every second place.
abbrev share : Bool → ℕ → ℕ
share alt d = if alt then (if ltb 9 (d * 2) then d * 2 - 9 else d * 2) else d

-- The loop over the bytes, which starts at the last one; `none` is the early `return false`.
luhn_loop : List ℕ → ℕ → Bool → Option ℕ
luhn_loop [] sum alt = some sum
luhn_loop (b ∷ bs) sum alt = elim (atoi b) [
  | none ↦ none
  | some d ↦ luhn_loop bs (sum + share alt d) (not alt)
]

unfoldable pub validate_pan : Text → Bool
unfolding luhn_loop
validate_pan pan =
    if ltb (length pan) 13 || ltb 19 (length pan)
    then false
    else elim (luhn_loop (reverse pan) 0 false) [ none ↦ false | some sum ↦ sum % 10 == 0 ]

-- The loop reads runes; a byte that is no ASCII digit begins or continues a rune above '9' or is an
-- ASCII byte outside the range, so the test may be made byte by byte.
unfoldable pub validate_cvv : Text → Bool
validate_cvv cvv = if ltb (length cvv) 3 || ltb 4 (length cvv) then false else all is_digit cvv
