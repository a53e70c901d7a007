-- ===== src/Interleaving/Code.antt =====
-- A handler as a tree of the statements that it makes, one at a time.
use vaulty.Prelude.{ℕ, Option, Text, ◌≡◌, refl}
use vaulty.Model.{Token, TokenStatus, VaultEntry, AuditOperation, Tenant, TenantStatus}
use vaulty.World.{World}
use vaulty.Store.{Store, Action, tick}
use vaulty.Repository
use vaulty.Repository.Rows.{query}
use vaulty.Handler.Common.{audit_entry}
use vaulty.Handler.Keeps.{Scope}

-- The actions that are one external call: a statement to PostgreSQL, which is atomic, a command to
-- Redis, or a call of KMS, the clock or the random source. `changes` tells which tokens may be
-- deactivated.
pub data Statement (w : World) (scope : Scope) (changes : Text → Text → Type 0)
    : (B : Type 0) → Action w.redis.Cache B → Type 1 where
  insert_token :
      (t : Token)
      → scope.tenant t.tenant_id
      → Statement w scope changes (Option (Unit {0})) (Repository.Tokens.create w t)
  touch_token :
      (a b : Text)
      → scope.tenant a
      → Statement w scope changes (Option (Unit {0})) (Repository.Tokens.update_last_used w a b)
  deactivate_token :
      (a b : Text)
      → scope.tenant a
      → changes a b
      → Statement w scope changes
          (Option (Unit {0}))
          (Repository.Tokens.update_status w a b TokenStatus.inactive)
  insert_entry :
      (e : VaultEntry)
      → scope.tenant e.tenant_id
      → Statement w scope changes (Option (Unit {0})) (Repository.VaultEntries.create w e)
  append_audit :
      (a b : Text) (o : AuditOperation) (t actor : Text)
      → scope.tenant a
      → Statement w scope changes
          (Option (Unit {0}))
          (Repository.AuditLog.append w (audit_entry a b o t actor))
  insert_tenant :
      (t : Tenant)
      → scope.admin
      → Statement w scope changes (Option (Unit {0})) (Repository.Tenants.create w t)
  deactivate_tenant :
      (a : Text)
      → scope.admin
      → Statement w scope changes
          (Option (Unit {0}))
          (Repository.Tenants.update_status w a TenantStatus.inactive)
  look_up :
      {A : Type 0} (f : Store w.redis.Cache → A) → Statement w scope changes (Option A) (query w f)
  redis_command :
      {A : Type 0} (f : w.redis.Cache → A × w.redis.Cache)
      → Statement w scope changes A
          (λ s. ((f s.cache).0, tick (record s { cache = (f s.cache).1 })))
  external : {A : Type 0} (f : ℕ → A) → Statement w scope changes A (λ s. (f s.calls, tick s))

-- What is left of a call: its result, or the next statement and what follows on its answer.
pub data Code (w : World) (scope : Scope) (changes : Text → Text → Type 0) (R : Type 0)
    : Type 1 where
  done : R → Code w scope changes R
  step :
      {B : Type 0} (m : Action w.redis.Cache B)
      → Statement w scope changes B m
      → (B → Code w scope changes R)
      → Code w scope changes R

module _ {w : World} {scope : Scope} {changes : Text → Text → Type 0} where
  -- All statements in a row, with nothing between them.
  unfoldable pub run : {R : Type 0} → Code w scope changes R → Action w.redis.Cache R
  run (done r) s = (r, s)
  run (step m is k) s = run (k (m s).0) (m s).1

  unfoldable pub and_then :
      {R Q : Type 0}
      → Code w scope changes R
      → (R → Code w scope changes Q)
      → Code w scope changes Q
  and_then (done r) k = k r
  and_then (step m is f) k = step m is (λ b. and_then (f b) k)

  pub run-and_then :
      {R Q : Type 0} (c : Code w scope changes R) (k : R → Code w scope changes Q)
      (s : Store w.redis.Cache)
      → run (and_then c k) s ≡ run (k (run c s).0) (run c s).1
  unfolding run and_then
  run-and_then (done r) k s = refl
  run-and_then (step m is f) k s = run-and_then (f (m s).0) k (m s).1
