-- ===== src/Interleaving/Program.antt =====
-- The code of an action, one rule for each way to build a step of a handler.
pub mod Known
pub mod Ensures
use vaulty.Prelude.{
  ◌⊎◌, inl, inr, Bool-cases, Bool, true, false, Option, none, some, Text, ◌≡◌, refl, ◌∙◌, ap,
}
use vaulty.Server.{Response}
use vaulty.World.{World}
use vaulty.Store.{
  Store, tick, continue, unless_error, unless_none, Outcome, go, reply, Action, Handler, ◌>>=◌,
  pure, respond, or_reply, call, lift, require, present, chain, succeed,
}
use vaulty.Handler.Keeps.{Scope}
use vaulty.Interleaving.Code.{Code, done, step, Statement, run, and_then, run-and_then}

-- Code that, run with nothing in between, is the action.
pub record Program (w : World) (scope : Scope) (changes : Text → Text → Type 0) {R : Type 0}
    (m : Action w.redis.Cache R) : Type 1 where
  pub code : Code w scope changes R
  pub runs : (s : Store w.redis.Cache) → run code s ≡ m s

abbrev or_answer : {A : Type 0} → Response → Option A → Outcome A
or_answer r none = reply r
or_answer r (some a) = go a

run-or_answer :
    {C A : Type 0} (r : Response) (x : Option A × Store C)
    → ◌≡◌ {A = Outcome A × Store C} (or_answer r x.0, x.1) (unless_error r x)
run-or_answer r (none, s) = refl
run-or_answer r (some a, s) = refl

module _ {w : World} {scope : Scope} {changes : Text → Text → Type 0} where
  module _ {A : Type 0} where
    pub Program-pure : (a : A) → Program w scope changes (pure a)
    unfolding pure run
    Program-pure a = record { code = done (go a); runs = λ s. refl }

    pub Program-respond : (r : Response) → Program w scope changes (respond {A = A} r)
    unfolding respond run
    Program-respond r = record { code = done (reply r); runs = λ s. refl }

    pub Program-lift : (o : Outcome A) → Program w scope changes (lift o)
    unfolding lift run
    Program-lift o = record { code = done o; runs = λ s. refl }

    pub Program-succeed : (a : A) → Program w scope changes (succeed a)
    unfolding succeed run
    Program-succeed a = record { code = done (some a); runs = λ s. refl }

    -- A value that is computed without a call.
    pub Program-returned : (a : A) → Program w scope changes (λ s. (a, s))
    unfolding run
    Program-returned a = record { code = done a; runs = λ s. refl }

    pub Program-present : (o : Option A) (r : Response) → Program w scope changes (present o r)
    unfolding present run
    Program-present none r = record { code = done (reply r); runs = λ s. refl }
    Program-present (some a) r = record { code = done (go a); runs = λ s. refl }

    -- One statement.
    pub Program-step :
        (m : Action w.redis.Cache A) → Statement w scope changes A m → Program w scope changes m
    unfolding run
    Program-step m is = record { code = step m is done; runs = λ s. refl }

  pub Program-require : (b : Bool) (r : Response) → Program w scope changes (require b r)
  unfolding require run
  Program-require true r = record { code = done (go tt); runs = λ s. refl }
  Program-require false r = record { code = done (reply r); runs = λ s. refl }

  module _ {A B : Type 0} where
    -- One action after another.
    pub Program-next :
        (m : Action w.redis.Cache A) (f : A → Action w.redis.Cache B)
        → Program w scope changes m
        → ((a : A) → Program w scope changes (f a))
        → Program w scope changes (λ s. f (m s).0 (m s).1)
    Program-next m f pm pf = record {
      code = and_then pm.code (λ a. (pf a).code);
      runs = λ s.
          run-and_then pm.code (λ a. (pf a).code) s
          ∙ ap (λ x. run (pf x.0).code x.1) (pm.runs s)
          ∙ (pf (m s).0).runs (m s).1;
    }

    abbrev go_on :
        (A → Code w scope changes (Outcome B)) → Outcome A → Code w scope changes (Outcome B)
    go_on k (go a) = k a
    go_on k (reply r) = done (reply r)

    run-go_on :
        (f : A → Handler w.redis.Cache B) (pf : (a : A) → Program w scope changes (f a))
        (x : Outcome A × Store w.redis.Cache)
        → run (go_on (λ a. (pf a).code) x.0) x.1 ≡ continue f x
    unfolding run
    run-go_on f pf (go a, s) = (pf a).runs s
    run-go_on f pf (reply r, s) = refl

    pub Program-bind :
        (m : Handler w.redis.Cache A) (f : A → Handler w.redis.Cache B)
        → Program w scope changes m
        → ((a : A) → Program w scope changes (f a))
        → Program w scope changes (m >>= f)
    unfolding ◌>>=◌
    Program-bind m f pm pf = record {
      code = and_then pm.code (go_on (λ a. (pf a).code));
      runs = λ s.
          run-and_then pm.code (go_on (λ a. (pf a).code)) s
          ∙ ap (λ x. run (go_on (λ a. (pf a).code) x.0) x.1) (pm.runs s)
          ∙ run-go_on f pf (m s);
    }

    abbrev if_some :
        (A → Code w scope changes (Option B)) → Option A → Code w scope changes (Option B)
    if_some k none = done none
    if_some k (some a) = k a

    run-if_some :
        (f : A → Action w.redis.Cache (Option B)) (pf : (a : A) → Program w scope changes (f a))
        (x : Option A × Store w.redis.Cache)
        → run (if_some (λ a. (pf a).code) x.0) x.1 ≡ unless_none f x
    unfolding run
    run-if_some f pf (none, s) = refl
    run-if_some f pf (some a, s) = (pf a).runs s

    pub Program-chain :
        (m : Action w.redis.Cache (Option A)) (f : A → Action w.redis.Cache (Option B))
        → Program w scope changes m
        → ((a : A) → Program w scope changes (f a))
        → Program w scope changes (chain m f)
    unfolding chain
    Program-chain m f pm pf = record {
      code = and_then pm.code (if_some (λ a. (pf a).code));
      runs = λ s.
          run-and_then pm.code (if_some (λ a. (pf a).code)) s
          ∙ ap (λ x. run (if_some (λ a. (pf a).code) x.0) x.1) (pm.runs s)
          ∙ run-if_some f pf (m s);
    }

  module _ {A : Type 0} where
    pub Program-or_reply :
        (m : Action w.redis.Cache (Option A)) (r : Response)
        → Program w scope changes m
        → Program w scope changes (or_reply m r)
    unfolding or_reply run
    Program-or_reply m r pm = record {
      code = and_then pm.code (λ o. done (or_answer r o));
      runs = λ s.
          run-and_then pm.code (λ o. done (or_answer r o)) s
          ∙ ap (λ x. (or_answer r x.0, x.1)) (pm.runs s)
          ∙ run-or_answer r (m s);
    }

    pub Program-call :
        (m : Action w.redis.Cache A) → Program w scope changes m → Program w scope changes (call m)
    unfolding call run
    Program-call m pm = record {
      code = and_then pm.code (λ a. done (go a));
      runs = λ s. run-and_then pm.code (λ a. done (go a)) s ∙ ap (λ x. (go x.0, x.1)) (pm.runs s);
    }

pub ruleset programs = (
  Program-pure, Program-respond, Program-lift, Program-succeed, Program-call, Program-or_reply,
  Program-present, Program-require, Program-bind, Program-chain,
)
