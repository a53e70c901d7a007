-- ===== src/Handler/Paging.antt =====
-- The query parameters `limit` and `offset` of the listing handlers.
use vaulty.Prelude.{
  ℕ, ◌+◌, ◌-◌, ◌*◌, ◌&&◌, Option, none, some, [], ◌∷◌, Text, leb, ltb, ◌==◌, if◌then◌else◌,
}
use vaulty.Card.{is_digit}

digits_from : ℕ → Text → Option ℕ
digits_from n [] = some n
digits_from n (b ∷ bs) =
    let more = digits_from (n * 10 + (b - b'0')) bs in if is_digit b then more else none

abbrev in_int64 : Option ℕ → Option ℕ
in_int64 none = none
in_int64 (some n) = if leb n 9223372036854775807 then some n else none

abbrev zero_only : Option ℕ → Option ℕ
zero_only none = none
zero_only (some n) = if n == 0 then some 0 else none

digits : Text → Option ℕ
unfolding digits_from
digits [] = none
digits (b ∷ bs) = in_int64 (digits_from 0 (b ∷ bs))

-- `strconv.Atoi`, `none` for an error and for a negative number, which the callers refuse alike.
unfoldable pub atoi_nonneg : Text → Option ℕ
unfolding digits
atoi_nonneg [] = none
atoi_nonneg (b ∷ bs) =
    if b == b'+' then digits bs else if b == b'-' then zero_only (digits bs) else digits (b ∷ bs)

-- A parameter that is missing is "", which Atoi refuses too.
unfoldable pub limit_of : Text → ℕ
limit_of l = elim (atoi_nonneg l) [ none ↦ 50 | some v ↦ if ltb 0 v && leb v 200 then v else 50 ]

unfoldable pub offset_of : Text → ℕ
offset_of o = elim (atoi_nonneg o) [ none ↦ 0 | some v ↦ v ]
