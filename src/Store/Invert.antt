-- ===== src/Store/Invert.antt =====
-- What a step that went on says of its parts.
use vaulty.Prelude.{Bool, true, false, Option, none, some, ◌≡◌, refl}
use vaulty.Server.{Response}
use vaulty.Store.{
  Store, continue, unless_error, unless_none, Outcome, go, reply, Action, Handler, ◌>>=◌, or_reply,
  pure, call, require, present, chain,
}

-- A goal that follows from the parts follows from the whole: the parts come as new variables.
module _ {C A B X : Type 0} where
  continue-go :
      (f : A → Handler C B) (x : Outcome A × Store C) {b : B} {t : Store C}
      → continue f x ≡ (go b, t)
      → ((a : A) (r : Store C) → x ≡ (go a, r) → f a r ≡ (go b, t) → X)
      → X
  continue-go f (go a, s) h k = k a s refl h
  continue-go f (reply r, s) h k = absurd (cc)

  pub bind-go :
      (m : Handler C A) (f : A → Handler C B) (s : Store C) {b : B} {t : Store C}
      → (m >>= f) s ≡ (go b, t)
      → ((a : A) (r : Store C) → m s ≡ (go a, r) → f a r ≡ (go b, t) → X)
      → X
  unfolding ◌>>=◌
  bind-go m f s h k = continue-go f (m s) h k

  unless_none-some :
      (f : A → Action C (Option B)) (x : Option A × Store C) {b : B} {t : Store C}
      → unless_none f x ≡ (some b, t)
      → ((a : A) (r : Store C) → x ≡ (some a, r) → f a r ≡ (some b, t) → X)
      → X
  unless_none-some f (none, s) h k = absurd (cc)
  unless_none-some f (some a, s) h k = k a s refl h

  pub chain-some :
      (m : Action C (Option A)) (f : A → Action C (Option B)) (s : Store C) {b : B} {t : Store C}
      → chain m f s ≡ (some b, t)
      → ((a : A) (r : Store C) → m s ≡ (some a, r) → f a r ≡ (some b, t) → X)
      → X
  unfolding chain
  chain-some m f s h k = unless_none-some f (m s) h k

-- And the other way: after a step that went on, the rest goes on from there.
pub bind-of_go :
    {C A B : Type 0} (m : Handler C A) (f : A → Handler C B) (s : Store C) {a : A} {t : Store C}
    → m s ≡ (go a, t)
    → (m >>= f) s ≡ f a t
unfolding ◌>>=◌
bind-of_go m f s h = rw h refl

module _ {C A : Type 0} where
  unless_error-go :
      (r : Response) (x : Option A × Store C) {a : A} {t : Store C}
      → unless_error r x ≡ (go a, t)
      → x ≡ (some a, t)
  unless_error-go r (none, s) h = cc
  unless_error-go r (some a, s) h = cc

  pub or_reply-go :
      (m : Action C (Option A)) (r : Response) (s : Store C) {a : A} {t : Store C}
      → or_reply m r s ≡ (go a, t)
      → m s ≡ (some a, t)
  unfolding or_reply
  or_reply-go m r s h = unless_error-go r (m s) h

  pub pure-go :
      (a : A) (s : Store C) {b : A} {t : Store C} → pure a s ≡ (go b, t) → (a ≡ b) × (s ≡ t)
  unfolding pure
  pure-go a s h = (cc, cc)

  pub call-go :
      (m : Action C A) (s : Store C) {a : A} {t : Store C} → call m s ≡ (go a, t) → m s ≡ (a, t)
  unfolding call
  call-go m s h = cc

  pub present-go :
      (o : Option A) (r : Response) (s : Store C) {a : A} {t : Store C}
      → present o r s ≡ (go a, t)
      → (o ≡ some a) × (s ≡ t)
  unfolding present
  present-go none r s h = cc
  present-go (some a) r s h = (cc, cc)

pub require-go :
    {C : Type 0} (b : Bool) (r : Response) (s : Store C) {u : Unit {0}} {t : Store C}
    → require b r s ≡ (go u, t)
    → (b ≡ true) × (s ≡ t)
unfolding require
require-go true r s h = (refl, cc)
require-go false r s h = cc
