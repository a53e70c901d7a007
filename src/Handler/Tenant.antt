-- ===== src/Handler/Tenant.antt =====
-- internal/handler/tenant.go: the administration of tenants.
use vaulty.Prelude.{ℕ, not, Option, [], ◌++◌, Text, text, text_eq, map, is_some}
use vaulty.Model.{Tenant, TenantStatus}
use vaulty.Server.{
  Response, Body, TenantResponse, ok, bad_request, not_found, internal_error, service_unavailable,
}
use vaulty.World.{World}
use vaulty.Store.{Handler, ◌>>=◌, ◌>>◌, pure, or_reply, require, present}
use vaulty.Auth.{Context}
use vaulty.Pattern.{tenant_id_pattern}
use vaulty.Crypto.{create_kms_key}
use vaulty.Repository
use vaulty.Handler.Common.{invalid_json}
use vaulty.Handler.Paging.{limit_of, offset_of}

pub record CreateTenantRequest : Type 0 where
  pub tenant_id : Text
  pub name : Text

abbrev pub tenant_status_text : TenantStatus → Text
tenant_status_text TenantStatus.active = text "active"
tenant_status_text TenantStatus.inactive = text "inactive"
tenant_status_text TenantStatus.unset = []

-- The file's own copy of the helper
abbrev write_error : ℕ → Text → Text → Text → Response
write_error status code message correlation = record {
  status = status;
  body = Body.error_body (record { code = code; message = message; correlation_id = correlation });
}

module _ (w : World) where
  abbrev pub to_tenant_response : Tenant → TenantResponse
  to_tenant_response t = record {
    tenant_id = t.tenant_id;
    name = t.name;
    status = tenant_status_text t.status;
    kms_key_arn = t.kms_key_arn;
    created_at = w.format t.created_at;
    updated_at = w.format t.updated_at;
  }

  abbrev tenant_not_found : Context → Response
  tenant_not_found ctx =
      not_found (text "TENANT_NOT_FOUND") (text "Tenant not found") ctx.correlation_id

  -- `if existing != nil`
  abbrev absent : {A : Type 0} → Option A → Response → Handler w.redis.Cache (Unit {0})
  absent o r = require (not (is_some o)) r

  abbrev new_tenant : CreateTenantRequest → Text → Tenant
  new_tenant req key_arn = record {
    id = [];
    tenant_id = req.tenant_id;
    name = req.name;
    status = TenantStatus.active;
    kms_key_arn = key_arn;
    created_at = 0;
    updated_at = 0;
  }

  -- TenantHandler.Create. The response shows the struct that was inserted, whose times are Go's zero
  -- time: the row's own are not read back.
  unfoldable pub create : Context → Option CreateTenantRequest → Handler w.redis.Cache Response
  create ctx decoded = do
    req ← present decoded (invalid_json ctx.correlation_id)
    require (tenant_id_pattern req.tenant_id) (
        bad_request (text "INVALID_TENANT_ID")
          (text "Tenant ID must be 1-64 alphanumeric/dash/underscore chars") ctx.correlation_id)
    require (not (text_eq req.name []))
        (bad_request (text "MISSING_NAME") (text "Tenant name is required") ctx.correlation_id)
    existing ←
        or_reply (Repository.Tenants.find_by_tenant_id w req.tenant_id)
          (internal_error ctx.correlation_id)
    absent existing (
        write_error 409 (text "TENANT_EXISTS") (text "Tenant ID already exists") ctx.correlation_id)
    key_arn ←
        or_reply (create_kms_key w (text "KEK for tenant " ++ req.tenant_id))
          (service_unavailable (text "Failed to provision KMS key") ctx.correlation_id)
    or_reply (Repository.Tenants.create w (new_tenant req key_arn))
        (internal_error ctx.correlation_id)
    pure (record { status = 201; body = Body.tenant (to_tenant_response (new_tenant req key_arn)) })

  -- TenantHandler.Get
  unfoldable pub get : Context → Text → Handler w.redis.Cache Response
  get ctx tenant_id = do
    found ←
        or_reply (Repository.Tenants.find_by_tenant_id w tenant_id)
          (internal_error ctx.correlation_id)
    tenant ← present found (tenant_not_found ctx)
    pure (ok (Body.tenant (to_tenant_response tenant)))

  -- TenantHandler.List
  unfoldable pub list_tenants : Context → Text → Text → Handler w.redis.Cache Response
  list_tenants ctx limit offset = do
    found ←
        or_reply (Repository.Tenants.list_page w (limit_of limit) (offset_of offset))
          (internal_error ctx.correlation_id)
    pure (ok (Body.tenants (map to_tenant_response found.0) found.1))

  -- TenantHandler.Deactivate
  unfoldable pub deactivate : Context → Text → Handler w.redis.Cache Response
  deactivate ctx tenant_id = do
    found ←
        or_reply (Repository.Tenants.find_by_tenant_id w tenant_id)
          (internal_error ctx.correlation_id)
    tenant ← present found (tenant_not_found ctx)
    or_reply (Repository.Tenants.update_status w tenant_id TenantStatus.inactive)
        (internal_error ctx.correlation_id)
    pure (ok (Body.tenant (to_tenant_response (record tenant { status = TenantStatus.inactive }))))
