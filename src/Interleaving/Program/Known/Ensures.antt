-- ===== src/Interleaving/Program/Known/Ensures.antt =====
-- What the answers rely on where a step knows something of the one before it.
use vaulty.Prelude.{
  Text, Bool, true, false, Option, none, some, ◌≡◌, ◌≢◌, refl, Bool-cases, ◌⊎◌, inl, inr,
}
use vaulty.Server.{Response}
use vaulty.World.{World}
use vaulty.Store.{Store, Outcome, go, reply, Action, Handler}
use vaulty.Handler.Keeps.{Scope}
use vaulty.Interleaving.Code.{done}
use vaulty.Interleaving.Program.{go_on, Program}
use vaulty.Interleaving.Program.Ensures.{OnGo, Ensures, Ensures-and_then}
use vaulty.Interleaving.Program.Known.{
  Program-bind_checked, Program-bind_present, Program-bind_lift, checked,
}

module _ (w : World) (scope : Scope) (changes : Text → Text → Type 0)
    (P : Store w.redis.Cache → Type 0) (Fault : Type 0) where
  abbrev Runs : {R : Type 0} → Action w.redis.Cache R → Type 1
  Runs m = Program w scope changes m

  module _ {A B : Type 0} (Q : A → Type 0) (Q' : B → Type 0) where
    -- What follows a test knows that it was passed.
    pub Ensures-bind_checked :
        {m : Handler w.redis.Cache A} {f : A → Handler w.redis.Cache B} (test : A → Bool)
        (r : Response)
        (holds : (s : Store w.redis.Cache) (a : A) (t : Store w.redis.Cache)
          → m s ≡ (go a, t)
          → test a ≡ true)
        (pm : Runs m) (pf : (a : A) → test a ≡ true → Runs (f a))
        → r.status ≢ 200
        → ((a : A) → Q a → test a ≡ false → Fault)
        → Ensures w scope changes P Fault (OnGo Fault Q) pm.code
        → ((a : A) (e : test a ≡ true)
            → Q a
            → Ensures w scope changes P Fault (OnGo Fault Q') (pf a e).code)
        → Ensures w scope changes P Fault
            (OnGo Fault Q')
            (Program-bind_checked m f test r holds pm pf).code
    unfolding Program-bind_checked checked
    Ensures-bind_checked test r holds pm pf late why h rest =
        Ensures-and_then w scope changes P Fault (OnGo Fault Q) (OnGo Fault Q') pm.code _ h on
      where
        tested :
            (a : A) (c : (test a ≡ true) ⊎ (test a ≡ false))
            → Q a
            → Ensures w scope changes P Fault
                (OnGo Fault Q')
                (elim c [ inl e ↦ (pf a e).code | inr never ↦ done (reply r) ])
        tested a (inl e) q = rest a e q
        tested a (inr e) q = (late, why a q e)

        on :
            (o : Outcome A)
            → OnGo Fault Q o
            → Ensures w scope changes P Fault
                (OnGo Fault Q')
                (go_on (checked test (λ b e. (pf b e).code) r) o)
        on (go a) q = tested a (Bool-cases (test a)) q
        on (reply r) q = q

  module _ {A B : Type 0} (Q : B → Type 0) where
    pub Ensures-bind_present :
        (o : Option A) (r : Response) (f : A → Handler w.redis.Cache B)
        (pf : (a : A) → o ≡ some a → Runs (f a))
        → r.status ≢ 200
        → (o ≡ none → Fault)
        → ((a : A) (e : o ≡ some a) → Ensures w scope changes P Fault (OnGo Fault Q) (pf a e).code)
        → Ensures w scope changes P Fault (OnGo Fault Q) (Program-bind_present o r f pf).code
    unfolding Program-bind_present
    Ensures-bind_present none r f pf late why h = (late, why refl)
    Ensures-bind_present (some a) r f pf late why h = h a refl

    pub Ensures-bind_lift :
        (o : Outcome A) (f : A → Handler w.redis.Cache B) (pf : (a : A) → o ≡ go a → Runs (f a))
        → OnGo Fault (λ a. Unit) o
        → ((a : A) (e : o ≡ go a) → Ensures w scope changes P Fault (OnGo Fault Q) (pf a e).code)
        → Ensures w scope changes P Fault (OnGo Fault Q) (Program-bind_lift o f pf).code
    unfolding Program-bind_lift
    Ensures-bind_lift (reply r) f pf late h = late
    Ensures-bind_lift (go a) f pf late h = h a refl
