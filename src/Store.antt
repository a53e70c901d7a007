-- ===== src/Store.antt =====
-- The state that the services share: PostgreSQL's four tables, the Redis server and the number of
-- external calls made so far. An action returns its result and the new state, since what was written
-- before an early return stays written.
pub mod Keeps
pub mod Agrees
pub mod Traceless
pub mod Invert
use vaulty.Prelude.{ℕ, ◌+◌, Bool, true, false, Option, none, some, List}
use vaulty.Model.{Token, VaultEntry, Tenant, AuditLogEntry}
use vaulty.Server.{Response}

pub record Store (C : Type 0) : Type 0 where
  pub tenants : List Tenant
  pub tokens : List Token
  pub vault_entries : List VaultEntry
  pub audit_log : List AuditLogEntry
  pub cache : C
  pub calls : ℕ

-- The end of a step of a handler: a value to go on with, or the response that was written.
pub data Outcome (A : Type 0) : Type 0 where
  go : A → Outcome A
  reply : Response → Outcome A

abbrev pub response_of : Outcome Response → Response
response_of (go r) = r
response_of (reply r) = r

-- A call of a repository, a store or a service.
abbrev pub Action : Type 0 → Type 0 → Type 0
Action C A = Store C → A × Store C

-- A part of a handler.
abbrev pub Handler : Type 0 → Type 0 → Type 0
Handler C A = Store C → Outcome A × Store C

module _ {C A : Type 0} where
  unfoldable pub pure : A → Handler C A
  pure a s = (go a, s)

  unfoldable pub respond : Response → Handler C A
  respond r s = (reply r, s)

  abbrev pub unless_error : Response → Option A × Store C → Outcome A × Store C
  unless_error r (none, s) = (reply r, s)
  unless_error r (some a, s) = (go a, s)

  -- `x, err := call; if err != nil { write r; return }`, with `none` for an error
  unfoldable pub or_reply : Action C (Option A) → Response → Handler C A
  or_reply m r s = unless_error r (m s)

  -- a call whose error is not looked at
  unfoldable pub call : Action C A → Handler C A
  call m s = let (a, s') = m s in (go a, s')

  -- a step that reads no state
  unfoldable pub lift : Outcome A → Handler C A
  lift o s = (o, s)

  -- `if o == nil { write r; return }`
  unfoldable pub present : Option A → Response → Handler C A
  present none r s = (reply r, s)
  present (some a) r s = (go a, s)

-- `if !b { write r; return }`
unfoldable pub require : {C : Type 0} → Bool → Response → Handler C (Unit {0})
require true r s = (go tt, s)
require false r s = (reply r, s)

-- What follows a step: the rest of the handler, or nothing once a response was written.
abbrev pub continue :
    {C A B : Type 0} → (A → Handler C B) → Outcome A × Store C → Outcome B × Store C
continue f (go a, s) = f a s
continue f (reply r, s) = (reply r, s)

-- Opening this opens the steps above too.
infixl 5 ◌>>=◌ ◌>>◌
unfoldable pub ◌>>=◌ : {C A B : Type 0} → Handler C A → (A → Handler C B) → Handler C B
unfolding pure respond or_reply call lift present require
◌>>=◌ m f s = continue f (m s)

abbrev pub ◌>>◌ : {C A B : Type 0} → Handler C A → Handler C B → Handler C B
m >> k = m >>= λ _. k

abbrev pub unless_none :
    {C A B : Type 0} → (A → Action C (Option B)) → Option A × Store C → Option B × Store C
unless_none f (none, s) = (none, s)
unless_none f (some a, s) = f a s

-- `x, err := m; if err != nil { return err }` in a function that returns an error itself
unfoldable pub chain :
    {C A B : Type 0} → Action C (Option A) → (A → Action C (Option B)) → Action C (Option B)
chain m f s = unless_none f (m s)

-- a result with no error
unfoldable pub succeed : {C A : Type 0} → A → Action C (Option A)
succeed a s = (some a, s)

-- One external call is made.
abbrev pub tick : {C : Type 0} → Store C → Store C
tick s = record s { calls = s.calls + 1 }
