-- ===== src/Prelude/Results.antt =====
-- Go's pair of a value and an error: one of the two.
use mathlib.Core.List.{◌++◌}
use vaulty.Prelude.Texts.{Text}

-- A value, or an error's text.
pub data Result (A : Type 0) : Type 0 where
  ok : A → Result A
  err : Text → Result A

abbrev pub map_result : {A B : Type 0} → (A → B) → Result A → Result B
map_result f (ok a) = ok (f a)
map_result f (err e) = err e

-- The rest runs on the value; an error ends it.
infixl 5 ◌>>=◌
abbrev pub ◌>>=◌ : {A B : Type 0} → Result A → (A → Result B) → Result B
ok a >>= f = f a
err e >>= f = err e

-- `fmt.Errorf("prefix: %w", err)`
abbrev pub wrapped : {A : Type 0} → Text → Result A → Result A
wrapped prefix (ok a) = ok a
wrapped prefix (err e) = err (prefix ++ e)
