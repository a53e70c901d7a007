-- ===== src/Store/Agrees.antt =====
-- Two runs of a step from related stores: one rule for each way to build a step.
use vaulty.Prelude.{Bool, true, false, Option, none, some, ◌≡◌, refl, ap}
use vaulty.Server.{Response}
use vaulty.Store.{
  Store, continue, unless_error, unless_none, Outcome, go, reply, Action, Handler, ◌>>=◌, pure,
  respond, or_reply, call, lift, require, present, chain, succeed,
}

-- From related stores `m` returns the same and ends in related stores.
pub record Agrees {C A : Type 0} (R : Store C → Store C → Type 0) (m : Store C → A × Store C)
    : Type 0 where
  pub at : (s u : Store C) → R s u → ((m s).0 ≡ (m u).0) × R (m s).1 (m u).1

unless_error-Agrees :
    {C A : Type 0} (R : Store C → Store C → Type 0) (e : Response) (x y : Option A × Store C)
    → x.0 ≡ y.0
    → R x.1 y.1
    → ((unless_error e x).0 ≡ (unless_error e y).0) × R (unless_error e x).1 (unless_error e y).1
unless_error-Agrees R e (none, s) (none, u) same r = (refl, r)
unless_error-Agrees R e (some a, s) (some b, u) same r = (cc, r)
unless_error-Agrees R e (none, s) (some b, u) same r = absurd (cc)
unless_error-Agrees R e (some a, s) (none, u) same r = absurd (cc)

module _ {C A : Type 0} {R : Store C → Store C → Type 0} where
  pub Agrees-pure : (a : A) → Agrees R (pure a)
  unfolding pure
  Agrees-pure a = record { at = λ s u r. (refl, r) }

  pub Agrees-respond : (a : Response) → Agrees R (respond {A = A} a)
  unfolding respond
  Agrees-respond a = record { at = λ s u r. (refl, r) }

  pub Agrees-lift : (o : Outcome A) → Agrees R (lift o)
  unfolding lift
  Agrees-lift o = record { at = λ s u r. (refl, r) }

  pub Agrees-succeed : (a : A) → Agrees R (succeed a)
  unfolding succeed
  Agrees-succeed a = record { at = λ s u r. (refl, r) }

  pub Agrees-call : (m : Action C A) → Agrees R m → Agrees R (call m)
  unfolding call
  Agrees-call m h = record { at = λ s u r. (ap go (h.at s u r).0, (h.at s u r).1) }

  pub Agrees-or_reply :
      (m : Action C (Option A)) (e : Response) → Agrees R m → Agrees R (or_reply m e)
  unfolding or_reply
  Agrees-or_reply m e h = record {
    at = λ s u r. unless_error-Agrees R e (m s) (m u) (h.at s u r).0 (h.at s u r).1;
  }

  pub Agrees-present : (o : Option A) (e : Response) → Agrees R (present o e)
  unfolding present
  Agrees-present none e = record { at = λ s u r. (refl, r) }
  Agrees-present (some a) e = record { at = λ s u r. (refl, r) }

module _ {C : Type 0} {R : Store C → Store C → Type 0} where
  pub Agrees-require : (b : Bool) (e : Response) → Agrees R (require b e)
  unfolding require
  Agrees-require true e = record { at = λ s u r. (refl, r) }
  Agrees-require false e = record { at = λ s u r. (refl, r) }

module _ {C A B : Type 0} {R : Store C → Store C → Type 0} where
  -- What follows a step knows that the step returned what it is given.
  pub Agrees-bind_go :
      (m : Handler C A) (f : A → Handler C B)
      → Agrees R m
      → ((a : A) (s t : Store C) → m s ≡ (go a, t) → Agrees R (f a))
      → Agrees R (m >>= f)
  unfolding ◌>>=◌
  Agrees-bind_go m f hm hf = record {
    at = λ s u r. after s (m s) (m u) refl (hm.at s u r).0 (hm.at s u r).1;
  }
    where
      after :
          (s : Store C) (x y : Outcome A × Store C)
          → m s ≡ x
          → x.0 ≡ y.0
          → R x.1 y.1
          → ((continue f x).0 ≡ (continue f y).0) × R (continue f x).1 (continue f y).1
      after s (go a, t) (go b, v) e same r = let q : a ≡ b = cc in rw (← q) ((hf a s t e).at t v r)
      after s (reply a, t) (reply b, v) e same r = (cc, r)
      after s (go a, t) (reply b, v) e same r = absurd (cc)
      after s (reply a, t) (go b, v) e same r = absurd (cc)

  pub Agrees-bind :
      (m : Handler C A) (f : A → Handler C B)
      → Agrees R m
      → ((a : A) → Agrees R (f a))
      → Agrees R (m >>= f)
  Agrees-bind m f hm hf = Agrees-bind_go m f hm (λ a s t e. hf a)

  pub Agrees-bind_present :
      (o : Option A) (e : Response) (f : A → Handler C B)
      → ((a : A) → o ≡ some a → Agrees R (f a))
      → Agrees R (present o e >>= f)
  unfolding ◌>>=◌ present
  Agrees-bind_present none e f h = record { at = λ s u r. (refl, r) }
  Agrees-bind_present (some a) e f h = record { at = (h a refl).at }

  unless_none-Agrees :
      (f : A → Action C (Option B))
      → ((a : A) → Agrees R (f a))
      → (x y : Option A × Store C) → x.0 ≡ y.0
      → R x.1 y.1
      → ((unless_none f x).0 ≡ (unless_none f y).0) × R (unless_none f x).1 (unless_none f y).1
  unless_none-Agrees f h (none, s) (none, u) same r = (refl, r)
  unless_none-Agrees f h (some a, s) (some b, u) same r =
      let q : a ≡ b = cc in rw (← q) ((h a).at s u r)
  unless_none-Agrees f h (none, s) (some b, u) same r = absurd (cc)
  unless_none-Agrees f h (some a, s) (none, u) same r = absurd (cc)

  pub Agrees-chain :
      (m : Action C (Option A)) (f : A → Action C (Option B))
      → Agrees R m
      → ((a : A) → Agrees R (f a))
      → Agrees R (chain m f)
  unfolding chain
  Agrees-chain m f hm hf = record {
    at = λ s u r. unless_none-Agrees f hf (m s) (m u) (hm.at s u r).0 (hm.at s u r).1;
  }

pub ruleset agrees = (
  Agrees-pure, Agrees-respond, Agrees-lift, Agrees-succeed, Agrees-call, Agrees-or_reply,
  Agrees-present, Agrees-require, Agrees-bind, Agrees-chain,
)
