-- ===== src/Invariants/Distinct.antt =====
-- Lists whose elements do not clash, and tests that a change of other columns leaves alone.
use vaulty.Prelude.{
  Bool, true, false, List, [], ◌∷◌, ◌++◌, ◌≡◌, refl, ◌∙◌, any, all, update, if◌then◌else◌, arith,
  Text, text_eq, text_eq_iff, ◌||◌, ◌&&◌,
}

module _ {A : Type 0} where
  -- No element clashes with one behind it.
  abbrev pub Distinct : (A → A → Bool) → List A → Type 0
  Distinct clash [] = Unit
  Distinct clash (x ∷ xs) = (any (clash x) xs ≡ false) × Distinct clash xs

  pub any-append_one :
      (p : A → Bool) (xs : List A) (x : A) → any p (xs ++ x ∷ []) ≡ (any p xs || p x)
  any-append_one p [] x = ground arith
  any-append_one p (y ∷ xs) x = ground (arith, any-append_one p xs x)

  pub all-append_one :
      (p : A → Bool) (xs : List A) (x : A) → all p (xs ++ x ∷ []) ≡ (all p xs && p x)
  all-append_one p [] x = ground arith
  all-append_one p (y ∷ xs) x = ground (arith, all-append_one p xs x)

  pub Distinct-append_one :
      (clash : A → A → Bool) (xs : List A) (x : A)
      → ((a b : A) → clash a b ≡ clash b a)
      → Distinct clash xs
      → any (clash x) xs ≡ false
      → Distinct clash (xs ++ x ∷ [])
  Distinct-append_one clash [] x symmetric h free = (refl, tt)
  Distinct-append_one clash (y ∷ xs) x symmetric (h, hs) free = (
    ground (arith, any-append_one (clash y) xs x, symmetric x y),
    Distinct-append_one clash xs x symmetric hs (ground arith),
  )

  pub any-update :
      (p q : A → Bool) (f : A → A) (xs : List A)
      → ((a : A) → p (f a) ≡ p a)
      → any p (update q f xs) ≡ any p xs
  any-update p q f [] same = refl
  any-update p q f (x ∷ xs) same = ground (arith, same x, any-update p q f xs same)

  pub all-update :
      (p q : A → Bool) (f : A → A) (xs : List A)
      → ((a : A) → p (f a) ≡ p a)
      → all p (update q f xs) ≡ all p xs
  all-update p q f [] same = refl
  all-update p q f (x ∷ xs) same = ground (arith, same x, all-update p q f xs same)

  pub any-narrower :
      (p q : A → Bool) (xs : List A)
      → ((a : A) → p a ≡ true → q a ≡ true)
      → any q xs ≡ false
      → any p xs ≡ false
  any-narrower p q [] narrower h = refl
  any-narrower p q (x ∷ xs) narrower h = ground (arith, narrower x, any-narrower p q xs narrower)

  any-if :
      (clash : A → A → Bool) (b : Bool) (f : A → A) (x : A) (xs : List A)
      → any (clash (f x)) xs ≡ any (clash x) xs
      → any (clash (if b then f x else x)) xs ≡ any (clash x) xs
  any-if clash true f x xs h = h
  any-if clash false f x xs h = refl

  any-same : (p q : A → Bool) (xs : List A) → ((a : A) → p a ≡ q a) → any p xs ≡ any q xs
  any-same p q [] same = refl
  any-same p q (x ∷ xs) same = ground (arith, same x, any-same p q xs same)

  pub Distinct-update :
      (clash : A → A → Bool) (q : A → Bool) (f : A → A) (xs : List A)
      → ((a b : A) → clash (f a) b ≡ clash a b)
      → ((a b : A) → clash a (f b) ≡ clash a b)
      → Distinct clash xs
      → Distinct clash (update q f xs)
  Distinct-update clash q f [] left right h = tt
  Distinct-update clash q f (x ∷ xs) left right (h, hs) = (
    any-if clash (q x) f x (update q f xs)
          (any-same (clash (f x)) (clash x) (update q f xs) (left x))
        ∙ any-update (clash x) q f xs (right x)
        ∙ h,
    Distinct-update clash q f xs left right hs,
  )

module _ {A B : Type 0} where
  -- A test of rows against another table, which may grow.
  pub all-any-append :
      (p : A → B → Bool) (xs : List A) (ys : List B) (y : B)
      → all (λ a. any (p a) ys) xs ≡ true
      → all (λ a. any (p a) (ys ++ y ∷ [])) xs ≡ true
  all-any-append p [] ys y h = refl
  all-any-append p (x ∷ xs) ys y h =
      ground (arith, any-append_one (p x) ys y, all-any-append p xs ys y)

  pub all-any-update :
      (p : A → B → Bool) (xs : List A) (q : B → Bool) (f : B → B) (ys : List B)
      → ((a : A) (b : B) → p a (f b) ≡ p a b)
      → all (λ a. any (p a) (update q f ys)) xs ≡ all (λ a. any (p a) ys) xs
  all-any-update p [] q f ys same = refl
  all-any-update p (x ∷ xs) q f ys same =
      ground (arith, any-update (p x) q f ys (same x), all-any-update p xs q f ys same)

pub text_eq_sym : (a b : Text) → text_eq a b ≡ text_eq b a
text_eq_sym a b = ground (arith, text_eq_iff a b, text_eq_iff b a)
