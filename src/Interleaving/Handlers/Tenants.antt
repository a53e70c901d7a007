-- ===== src/Interleaving/Handlers/Tenants.antt =====
-- The code of the handlers of internal/handler/tenant.go.
use vaulty.Prelude.{Option, Text}
use vaulty.World.{World}
use vaulty.Store.{Store}
use vaulty.Repository
use vaulty.Auth.{Context}
use vaulty.Handler.Keeps.{Scope}
use vaulty.Handler.Tokenize.{TokenizeConfig}
use vaulty.Handler.Tenant
use vaulty.Handler.Tenant.{CreateTenantRequest}
use vaulty.Interleaving.Code.{insert_tenant, deactivate_tenant}
use vaulty.Interleaving.Program.{programs, Program, Program-step}
use vaulty.Interleaving.Actions.{Program-query, Program-create_key}

module _ (w : World) (cfg : TokenizeConfig) (scope : Scope) (changes : Text → Text → Type 0) where
  abbrev Runs : {R : Type 0} → (Store w.redis.Cache → R × Store w.redis.Cache) → Type 1
  Runs m = Program w scope changes m

  pub create_tenant-Runs :
      (ctx : Context) (r : Option CreateTenantRequest) → scope.admin → Runs (Tenant.create w ctx r)
  unfolding Tenant.create Repository.Tenants.find_by_tenant_id
  create_tenant-Runs ctx r admin =
      search
        (
          programs,
          Program-query w cfg scope changes,
          Program-create_key w cfg scope changes,
          Program-step,
          insert_tenant,
        )
        depth 24

  pub get_tenant-Runs : (ctx : Context) (t : Text) → Runs (Tenant.get w ctx t)
  unfolding Tenant.get Repository.Tenants.find_by_tenant_id
  get_tenant-Runs ctx t = search (programs, Program-query w cfg scope changes) depth 12

  pub list_tenants-Runs : (ctx : Context) (l o : Text) → Runs (Tenant.list_tenants w ctx l o)
  unfolding Tenant.list_tenants Repository.Tenants.list_page
  list_tenants-Runs ctx l o = search (programs, Program-query w cfg scope changes) depth 14

  pub deactivate_tenant-Runs :
      (ctx : Context) (t : Text) → scope.admin → Runs (Tenant.deactivate w ctx t)
  unfolding Tenant.deactivate Repository.Tenants.find_by_tenant_id
  deactivate_tenant-Runs ctx t admin =
      search (programs, Program-query w cfg scope changes, Program-step, deactivate_tenant) depth 16
