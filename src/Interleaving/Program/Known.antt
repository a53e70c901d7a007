-- ===== src/Interleaving/Program/Known.antt =====
-- The code of what follows a step whose result it knows something of.
pub mod Ensures
use vaulty.Prelude.{
  ◌⊎◌, inl, inr, Bool-cases, Bool, true, false, Option, none, some, Text, ◌≡◌, refl, ◌∙◌, ap,
}
use vaulty.Server.{Response}
use vaulty.World.{World}
use vaulty.Store.{
  Store, tick, continue, unless_error, unless_none, Outcome, go, reply, Action, Handler, ◌>>=◌,
  pure, respond, or_reply, call, lift, require, present, chain, succeed,
}
use vaulty.Handler.Keeps.{Scope}
use vaulty.Interleaving.Code.{Code, done, step, Statement, run, and_then, run-and_then}
use vaulty.Interleaving.Program.{Program, go_on}

module _ {w : World} {scope : Scope} {changes : Text → Text → Type 0} where
  module _ {A B : Type 0} where
    -- What a step hands on passes a test, which what follows relies on.
    checked :
        (test : A → Bool)
        → ((a : A) → test a ≡ true → Code w scope changes (Outcome B))
        → Response
        → A
        → Code w scope changes (Outcome B)
    checked test k r a = elim (Bool-cases (test a)) [ inl e ↦ k a e | inr never ↦ done (reply r) ]

    run-checked :
        (f : A → Handler w.redis.Cache B) (test : A → Bool) (r : Response)
        (pf : (a : A) → test a ≡ true → Program w scope changes (f a)) (a : A)
        (s : Store w.redis.Cache)
        → test a ≡ true
        → run (checked test (λ b e. (pf b e).code) r a) s ≡ f a s
    unfolding checked
    run-checked f test r pf a s h = on (Bool-cases (test a))
      where
        on :
            (c : (test a ≡ true) ⊎ (test a ≡ false))
            → run (elim c [ inl e ↦ (pf a e).code | inr never ↦ done (reply r) ]) s ≡ f a s
        on (inl e) = (pf a e).runs s
        on (inr e) = absurd (cc)

    pub Program-bind_checked :
        (m : Handler w.redis.Cache A) (f : A → Handler w.redis.Cache B) (test : A → Bool)
        (r : Response)
        → ((s : Store w.redis.Cache) (a : A) (t : Store w.redis.Cache)
            → m s ≡ (go a, t)
            → test a ≡ true)
        → Program w scope changes m
        → ((a : A) → test a ≡ true → Program w scope changes (f a))
        → Program w scope changes (m >>= f)
    unfolding ◌>>=◌ run
    Program-bind_checked m f test r holds pm pf = record {
      code = and_then pm.code (go_on (checked test (λ b e. (pf b e).code) r));
      runs = λ s.
          run-and_then pm.code (go_on (checked test (λ b e. (pf b e).code) r)) s
          ∙ ap (λ x. run (go_on (checked test (λ b e. (pf b e).code) r) x.0) x.1) (pm.runs s)
          ∙ on s (m s) refl;
    }
      where
        on :
            (s : Store w.redis.Cache) (x : Outcome A × Store w.redis.Cache)
            → m s ≡ x
            → run (go_on (checked test (λ b e. (pf b e).code) r) x.0) x.1 ≡ continue f x
        on s (go a, t) e = run-checked f test r pf a t (holds s a t e)
        on s (reply q, t) e = refl

    -- What follows a test for `nil` knows what was found.
    pub Program-bind_present :
        (o : Option A) (r : Response) (f : A → Handler w.redis.Cache B)
        → ((a : A) → o ≡ some a → Program w scope changes (f a))
        → Program w scope changes (present o r >>= f)
    unfolding ◌>>=◌ present run
    Program-bind_present none r f h = record { code = done (reply r); runs = λ s. refl }
    Program-bind_present (some a) r f h = record { code = (h a refl).code; runs = (h a refl).runs }

    -- What follows a step that reads no state knows its outcome.
    pub Program-bind_lift :
        (o : Outcome A) (f : A → Handler w.redis.Cache B)
        → ((a : A) → o ≡ go a → Program w scope changes (f a))
        → Program w scope changes (lift o >>= f)
    unfolding ◌>>=◌ lift run
    Program-bind_lift (reply r) f h = record { code = done (reply r); runs = λ s. refl }
    Program-bind_lift (go a) f h = record { code = (h a refl).code; runs = (h a refl).runs }
