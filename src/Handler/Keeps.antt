-- ===== src/Handler/Keeps.antt =====
-- The statements and commands that change the store, and what it takes that they keep a predicate.
use vaulty.Prelude.{Text}
use vaulty.Model.{Token, Tenant, VaultEntry, TenantStatus, AuditOperation}
use vaulty.World.{World}
use vaulty.Store.{Store, tick}
use vaulty.Store.Keeps.{Keeps}
use vaulty.Repository
use vaulty.Handler.Common.{audit_entry, log}
use vaulty.Handler.Tokenize.{TokenizeConfig}

-- For which tenants calls are made, and whether tenants are administered.
pub record Scope : Type 1 where
  pub tenant : Text → Type 0
  pub admin : Type 0

-- The statements and commands that change the store, but for the change of a token's status. The
-- statements on tokens, entries and the audit log name a tenant of the scope, those on tenants need
-- its administration, and a tenant's status is only ever made inactive.
pub record KeptBy (w : World) (scope : Scope) (P : Store w.redis.Cache → Type 0) : Type 0 where
  pub insert_token : (t : Token) → scope.tenant t.tenant_id → Keeps P (Repository.Tokens.create w t)
  pub touch_token :
      (a b : Text) → scope.tenant a → Keeps P (Repository.Tokens.update_last_used w a b)
  pub insert_entry :
      (e : VaultEntry) → scope.tenant e.tenant_id → Keeps P (Repository.VaultEntries.create w e)
  pub append_audit :
      (a b : Text) (o : AuditOperation) (t actor : Text)
      → scope.tenant a
      → Keeps P (Repository.AuditLog.append w (audit_entry a b o t actor))
  pub insert_tenant : (t : Tenant) → scope.admin → Keeps P (Repository.Tenants.create w t)
  pub set_tenant_status :
      (a : Text)
      → scope.admin
      → Keeps P (Repository.Tenants.update_status w a TenantStatus.inactive)
  pub cache_command :
      (s : Store w.redis.Cache) (c : w.redis.Cache) → P s → P (record s { cache = c })
  pub external_call : (s : Store w.redis.Cache) → P s → P (tick s)

module _ (w : World) (cfg : TokenizeConfig) (scope : Scope) (P : Store w.redis.Cache → Type 0)
    (k : KeptBy w scope P) where
  pub log-Keeps :
      (a b : Text) (o : AuditOperation) (t actor : Text)
      → scope.tenant a
      → Keeps P (log w (audit_entry a b o t actor))
  unfolding log
  log-Keeps a b o t actor own = record { at = (k.append_audit a b o t actor own).at }
