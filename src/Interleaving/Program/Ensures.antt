-- ===== src/Interleaving/Program/Ensures.antt =====
-- What the answers along a code rely on, while other calls may do what keeps a predicate on the store.
use vaulty.Prelude.{Text, Bool, true, false, Option, none, some, ◌≡◌, ◌≢◌, refl}
use vaulty.Server.{Response}
use vaulty.World.{World}
use vaulty.Store.{Store, Outcome, go, reply, Action, Handler}
use vaulty.Handler.Keeps.{Scope}
use vaulty.Interleaving.Code.{Code, done, step, Statement, and_then}
use vaulty.Interleaving.Program.{
  Program-next, Program-returned, or_answer, Program-or_reply, Program-call, Program-step,
  Program-pure, Program-present, Program-require, go_on, if_some, Program-chain, Program,
  Program-bind,
}

-- A step goes on with what meets `Q`, or answers no 200, which needs `Fault`.
abbrev pub OnGo : Type 0 → {A : Type 0} → (A → Type 0) → Outcome A → Type 0
OnGo Fault Q (go a) = Q a
OnGo Fault Q (reply r) = (r.status ≢ 200) × Fault

-- A part goes on with what meets `Q`, or has an error, which needs `Fault`.
abbrev pub OnSome : Type 0 → {A : Type 0} → (A → Type 0) → Option A → Type 0
OnSome Fault Q (some a) = Q a
OnSome Fault Q none = Fault

module _ (w : World) (scope : Scope) (changes : Text → Text → Type 0)
    (P : Store w.redis.Cache → Type 0) (Fault : Type 0) where
  abbrev Runs : {R : Type 0} → Action w.redis.Cache R → Type 1
  Runs m = Program w scope changes m

  -- The result meets `Q` if `P` holds whenever a statement is made.
  abbrev pub Ensures : {R : Type 0} → (R → Type 0) → Code w scope changes R → Type 0
  Ensures Q (done r) = Q r
  Ensures Q (step m is k) = (s : Store w.redis.Cache) → P s → Ensures Q (k (m s).0)

  pub Ensures-always :
      {R : Type 0} (Q : R → Type 0) → ((r : R) → Q r) → (c : Code w scope changes R) → Ensures Q c
  Ensures-always Q h (done r) = h r
  Ensures-always Q h (step m is k) = λ s p. Ensures-always Q h (k (m s).0)

  pub Ensures-and_then :
      {R S : Type 0} (Q : R → Type 0) (Q' : S → Type 0) (c : Code w scope changes R)
      (k : R → Code w scope changes S)
      → Ensures Q c
      → ((r : R) → Q r → Ensures Q' (k r))
      → Ensures Q' (and_then c k)
  unfolding and_then
  Ensures-and_then Q Q' (done r) k h rest = rest r h
  Ensures-and_then Q Q' (step m is f) k h rest =
      λ s p. Ensures-and_then Q Q' (f (m s).0) k (h s p) rest

  module _ {A B : Type 0} (Q : A → Type 0) (Q' : B → Type 0) where
    pub Ensures-next :
        {m : Action w.redis.Cache A} {f : A → Action w.redis.Cache B} (pm : Runs m)
        (pf : (a : A) → Runs (f a))
        → Ensures Q pm.code
        → ((a : A) → Q a → Ensures Q' (pf a).code)
        → Ensures Q' (Program-next m f pm pf).code
    unfolding Program-next
    Ensures-next pm pf h rest = Ensures-and_then Q Q' pm.code _ h rest

    pub Ensures-bind :
        {m : Handler w.redis.Cache A} {f : A → Handler w.redis.Cache B} (pm : Runs m)
        (pf : (a : A) → Runs (f a))
        → Ensures (OnGo Fault Q) pm.code
        → ((a : A) → Q a → Ensures (OnGo Fault Q') (pf a).code)
        → Ensures (OnGo Fault Q') (Program-bind m f pm pf).code
    unfolding Program-bind
    Ensures-bind pm pf h rest = Ensures-and_then (OnGo Fault Q) (OnGo Fault Q') pm.code _ h on
      where
        on : (o : Outcome A) → OnGo Fault Q o → Ensures (OnGo Fault Q') (go_on (λ a. (pf a).code) o)
        on (go a) q = rest a q
        on (reply r) q = q

    pub Ensures-chain :
        {m : Action w.redis.Cache (Option A)} {f : A → Action w.redis.Cache (Option B)}
        (pm : Runs m) (pf : (a : A) → Runs (f a))
        → Ensures (OnSome Fault Q) pm.code
        → ((a : A) → Q a → Ensures (OnSome Fault Q') (pf a).code)
        → Ensures (OnSome Fault Q') (Program-chain m f pm pf).code
    unfolding Program-chain
    Ensures-chain pm pf h rest = Ensures-and_then (OnSome Fault Q) (OnSome Fault Q') pm.code _ h on
      where
        on :
            (o : Option A)
            → OnSome Fault Q o
            → Ensures (OnSome Fault Q') (if_some (λ a. (pf a).code) o)
        on (some a) q = rest a q
        on none q = q

  module _ {A : Type 0} where
    pub Ensures-or_reply :
        (Q : A → Type 0) {m : Action w.redis.Cache (Option A)} (r : Response) (pm : Runs m)
        → r.status ≢ 200
        → Ensures (OnSome Fault Q) pm.code
        → Ensures (OnGo Fault Q) (Program-or_reply m r pm).code
    unfolding Program-or_reply
    Ensures-or_reply Q r pm late h = Ensures-and_then (OnSome Fault Q) (OnGo Fault Q) pm.code _ h on
      where
        on : (o : Option A) → OnSome Fault Q o → Ensures (OnGo Fault Q) (done (or_answer r o))
        on (some a) q = q
        on none q = (late, q)

    pub Ensures-call :
        (Q : A → Type 0) {m : Action w.redis.Cache A} (pm : Runs m)
        → Ensures Q pm.code
        → Ensures (OnGo Fault Q) (Program-call m pm).code
    unfolding Program-call
    Ensures-call Q pm h = Ensures-and_then Q (OnGo Fault Q) pm.code _ h λ a q. q

    -- A call whose result is not looked at.
    pub Ensures-called :
        {m : Action w.redis.Cache A} (pm : Runs m)
        → Ensures (OnGo Fault (λ a. Unit)) (Program-call m pm).code
    Ensures-called pm = Ensures-call _ pm (Ensures-always _ (λ a. tt) pm.code)

    pub Ensures-step :
        (Q : A → Type 0) {m : Action w.redis.Cache A} (is : Statement w scope changes A m)
        → ((s : Store w.redis.Cache) → P s → Q (m s).0)
        → Ensures Q (Program-step m is).code
    unfolding Program-step
    Ensures-step Q is h = h

    pub Ensures-returned : (Q : A → Type 0) (a : A) → Q a → Ensures Q (Program-returned a).code
    unfolding Program-returned
    Ensures-returned Q a q = q

    pub Ensures-pure : (Q : A → Type 0) (a : A) → Q a → Ensures (OnGo Fault Q) (Program-pure a).code
    unfolding Program-pure
    Ensures-pure Q a q = q

    pub Ensures-present :
        (Q : A → Type 0) (o : Option A) (r : Response)
        → r.status ≢ 200
        → (o ≡ none → Fault)
        → ((a : A) → o ≡ some a → Q a)
        → Ensures (OnGo Fault Q) (Program-present o r).code
    unfolding Program-present
    Ensures-present Q none r late why h = (late, why refl)
    Ensures-present Q (some a) r late why h = h a refl

  pub Ensures-require :
      (b : Bool) (r : Response)
      → r.status ≢ 200
      → (b ≡ false → Fault)
      → Ensures (OnGo Fault (λ u. Unit)) (Program-require b r).code
  unfolding Program-require
  Ensures-require true r late why = tt
  Ensures-require false r late why = (late, why refl)
