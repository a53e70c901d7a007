-- ===== src/Isolation/Selected.antt =====
-- A tenant's rows of a table, and what is done to the table.
use vaulty.Prelude.{Bool, true, List, [], ◌∷◌, ◌++◌, ◌≡◌, refl, select, update, find, arith}

module _ {A : Type 0} where
  pub find-select :
      (p q : A → Bool) (xs : List A)
      → ((a : A) → p a ≡ true → q a ≡ true)
      → find p (select q xs) ≡ find p xs
  find-select p q [] weaker = refl
  find-select p q (x ∷ xs) weaker = ground (arith, weaker x, find-select p q xs weaker)

  pub select-select :
      (p q : A → Bool) (xs : List A)
      → ((a : A) → p a ≡ true → q a ≡ true)
      → select p (select q xs) ≡ select p xs
  select-select p q [] weaker = refl
  select-select p q (x ∷ xs) weaker = ground (arith, weaker x, select-select p q xs weaker)

  pub select-append :
      (q : A → Bool) (xs ys : List A) → select q (xs ++ ys) ≡ select q xs ++ select q ys
  select-append q [] ys = refl
  select-append q (x ∷ xs) ys = ground (arith, select-append q xs ys)

  pub select-update :
      (q p : A → Bool) (f : A → A) (xs : List A)
      → ((a : A) → q (f a) ≡ q a)
      → select q (update p f xs) ≡ update p f (select q xs)
  select-update q p f [] same = refl
  select-update q p f (x ∷ xs) same = ground (arith, same x, select-update q p f xs same)
