-- ===== src/Repository/Tenants.antt =====
-- internal/repository/tenant_repo.go, over the table of migration 004.
use vaulty.Prelude.{
  ℕ, Bool, true, not, ◌&&◌, Option, List, [], ◌∷◌, ◌++◌, Text, text_eq, length, find, any, update,
}
use vaulty.Model.{Tenant, TenantStatus}
use vaulty.World.{World}
use vaulty.Store.{Store, Action, chain, succeed}
use vaulty.Repository.Rows.{fits, page, query, query_rows, exec}

-- WHERE tenant_id = $1
abbrev pub is_named : Text → Tenant → Bool
is_named tenant_id t = text_eq t.tenant_id tenant_id

abbrev pub tenant_allowed : {C : Type 0} → Tenant → Store C → Bool
tenant_allowed t s =
    not (any (is_named t.tenant_id) s.tenants)
    && (fits 64 t.tenant_id && (fits 256 t.name && fits 256 t.kms_key_arn))

module _ (w : World) where
  abbrev pub tenant_row : Tenant → Store w.redis.Cache → Tenant
  tenant_row t s = record t {
    id = w.uuid s.calls;
    created_at = w.now s.calls;
    updated_at = w.now s.calls;
  }

  unfoldable pub create : Tenant → Action w.redis.Cache (Option (Unit {0}))
  create t =
      exec w (tenant_allowed t) (λ s. record s { tenants = s.tenants ++ tenant_row t s ∷ [] })

  unfoldable pub find_by_tenant_id : Text → Action w.redis.Cache (Option (Option Tenant))
  find_by_tenant_id tenant_id = query w (λ s. find (is_named tenant_id) s.tenants)

  unfoldable pub list_page : ℕ → ℕ → Action w.redis.Cache (Option (List Tenant × ℕ))
  list_page limit offset = chain (query w (λ t. length t.tenants)) λ total.
      chain (query_rows w (λ t. page (λ r. r.created_at) limit offset t.tenants))
        λ tenants. succeed (tenants, total)

  unfoldable pub update_status : Text → TenantStatus → Action w.redis.Cache (Option (Unit {0}))
  update_status tenant_id status =
      exec w (λ s. true)
        (λ s. record s {
          tenants =
              update (is_named tenant_id)
                (λ t. record t { status = status; updated_at = w.now s.calls }) s.tenants;
        })
