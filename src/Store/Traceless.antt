-- ===== src/Store/Traceless.antt =====
-- Steps whose refusals, answers with status 400, leave no trace in the store.
use vaulty.Prelude.{Bool, true, false, Option, none, some, ◌≡◌, ◌≢◌, refl}
use vaulty.Server.{Response}
use vaulty.Store.{
  Store, Handler, Action, Outcome, go, reply, continue, ◌>>=◌, ◌>>◌, or_reply, call, require,
  present, pure, unless_error,
}

module _ {C A : Type 0} where
  -- A response that ended the step is no refusal of the request.
  abbrev pub IsLate : Outcome A × Store C → Type 0
  IsLate (go a, t) = Unit
  IsLate (reply r, t) = r.status ≢ 400

  -- A refusal that ended the step left the store as it was.
  abbrev pub NoTrace : Store C → Outcome A × Store C → Type 0
  NoTrace s (go a, t) = Unit
  NoTrace s (reply r, t) = r.status ≡ 400 → t ≡ s

  abbrev pub Late : Handler C A → Type 0
  Late m = (s : Store C) → IsLate (m s)

  abbrev pub Traceless : Handler C A → Type 0
  Traceless m = (s : Store C) → NoTrace s (m s)

  unless_error-IsLate :
      (r : Response) (x : Option A × Store C) → r.status ≢ 400 → IsLate (unless_error r x)
  unless_error-IsLate r (none, s) ne = ne
  unless_error-IsLate r (some a, s) ne = tt

  pub Late-or_reply :
      (m : Action C (Option A)) (r : Response) → r.status ≢ 400 → Late (or_reply m r)
  unfolding or_reply
  Late-or_reply m r ne s = unless_error-IsLate r (m s) ne

  pub Late-call : (m : Action C A) → Late (call m)
  unfolding call
  Late-call m s = tt

  pub Late-pure : (a : A) → Late (pure a)
  unfolding pure
  Late-pure a s = tt

  pub IsLate-NoTrace : (s : Store C) (x : Outcome A × Store C) → IsLate x → NoTrace s x
  IsLate-NoTrace s (go a, t) h = tt
  IsLate-NoTrace s (reply r, t) h = λ e. absurd (h e)

module _ {C A B : Type 0} where
  continue-IsLate :
      (f : A → Handler C B) (x : Outcome A × Store C)
      → IsLate x
      → ((a : A) → Late (f a))
      → IsLate (continue f x)
  continue-IsLate f (go a, s) h rest = rest a s
  continue-IsLate f (reply r, s) h rest = h

  pub Late-bind :
      (m : Handler C A) (f : A → Handler C B) → Late m → ((a : A) → Late (f a)) → Late (m >>= f)
  unfolding ◌>>=◌
  Late-bind m f first rest s = continue-IsLate f (m s) (first s) rest

  continue-NoTrace :
      (s : Store C) (f : A → Handler C B) (x : Outcome A × Store C)
      → NoTrace s x
      → ((a : A) → Late (f a))
      → NoTrace s (continue f x)
  continue-NoTrace s f (go a, t) h rest = IsLate-NoTrace s (f a t) (rest a t)
  continue-NoTrace s f (reply r, t) h rest = h

  pub Traceless-bind :
      (m : Handler C A) (f : A → Handler C B)
      → Traceless m
      → ((a : A) → Late (f a))
      → Traceless (m >>= f)
  unfolding ◌>>=◌
  Traceless-bind m f first rest s = continue-NoTrace s f (m s) (first s) rest

  -- Looking comes first.
  pub Traceless-present :
      (o : Option A) (r : Response) (f : A → Handler C B)
      → ((a : A) → o ≡ some a → Traceless (f a))
      → Traceless (present o r >>= f)
  unfolding ◌>>=◌
  Traceless-present none r f rest s = λ e. refl
  Traceless-present (some a) r f rest s = rest a refl s

module _ {C B : Type 0} where
  pub Traceless-require :
      (b : Bool) (r : Response) (k : Handler C B) → Traceless k → Traceless (require b r >> k)
  unfolding ◌>>=◌
  Traceless-require true r k rest s = rest s
  Traceless-require false r k rest s = λ e. refl
