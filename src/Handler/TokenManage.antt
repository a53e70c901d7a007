-- ===== src/Handler/TokenManage.antt =====
-- internal/handler/token_manage.go: the state of a token, its deactivation and its audit trail.
use vaulty.Prelude.{ℕ, ◌/◌, Option, none, some, [], Text, text}
use vaulty.Model.{Token, TokenStatus, AuditOperation}
use vaulty.Server.{Response, Body, ok, not_found, internal_error}
use vaulty.World.{World}
use vaulty.Store.{Handler, Action, ◌>>=◌, ◌>>◌, pure, respond, or_reply, call, present}
use vaulty.Auth.{Context}
use vaulty.Audit.{mask_token_id}
use vaulty.Cvv.{exists_cvv_token}
use vaulty.Repository
use vaulty.Handler.Common.{missing_tenant, audit_entry, log}
use vaulty.Handler.Paging.{limit_of, offset_of}

abbrev pub status_text : TokenStatus → Text
status_text TokenStatus.active = text "active"
status_text TokenStatus.inactive = text "inactive"

module _ (w : World) where
  abbrev pub log_api : Context → Text → AuditOperation → Text → Action w.redis.Cache (Unit {0})
  log_api ctx tenant_id operation token_id =
      log w (audit_entry tenant_id ctx.correlation_id operation token_id (text "api"))

  abbrev pub token_not_found : Context → Response
  token_not_found ctx =
      not_found (text "TOKEN_NOT_FOUND") (text "Token not found") ctx.correlation_id

  abbrev format_last_used : Option ℕ → Option Text
  format_last_used none = none
  format_last_used (some t) = some (w.format t)

  unfoldable pub cvv_status : Context → Text → Text → Option ℕ → Handler w.redis.Cache Response
  cvv_status ctx tenant_id token_id none = respond (token_not_found ctx)
  cvv_status ctx tenant_id token_id (some ttl) = do
    call (log_api ctx tenant_id AuditOperation.validate token_id)
    pure (
        ok (
          Body.token_status (record {
            token = token_id;
            status = text "active";
            kind = text "cvv";
            created_at = [];
            last_used_at = none;
            ttl_seconds = some (ttl / 1000000000);
          })))

  unfoldable pub pan_status : Context → Text → Text → Option Token → Handler w.redis.Cache Response
  pan_status ctx tenant_id token_id (some t) = do
    call (log_api ctx tenant_id AuditOperation.validate token_id)
    pure (
        ok (
          Body.token_status (record {
            token = t.token_id;
            status = status_text t.status;
            kind = text "pan";
            created_at = w.format t.created_at;
            last_used_at = format_last_used t.last_used_at;
            ttl_seconds = none;
          })))
  pan_status ctx tenant_id token_id none = do
    ttl ← call (exists_cvv_token w tenant_id token_id)
    cvv_status ctx tenant_id token_id ttl

  -- TokenManageHandler.GetStatus
  unfoldable pub get_status : Context → Text → Handler w.redis.Cache Response
  get_status ctx token_id = do
    tenant ← present ctx.tenant (missing_tenant ctx.correlation_id)
    found ←
        or_reply (Repository.Tokens.find_by_token_id w tenant.tenant_id token_id)
          (internal_error ctx.correlation_id)
    pan_status ctx tenant.tenant_id token_id found

  -- TokenManageHandler.Deactivate
  unfoldable pub deactivate : Context → Text → Handler w.redis.Cache Response
  deactivate ctx token_id = do
    tenant ← present ctx.tenant (missing_tenant ctx.correlation_id)
    found ←
        or_reply (Repository.Tokens.find_by_token_id w tenant.tenant_id token_id)
          (internal_error ctx.correlation_id)
    token ← present found (token_not_found ctx)
    or_reply (Repository.Tokens.update_status w tenant.tenant_id token_id TokenStatus.inactive)
        (internal_error ctx.correlation_id)
    call (log_api ctx tenant.tenant_id AuditOperation.deactivate token_id)
    pure (
        ok (
          Body.token_status (record {
            token = token_id;
            status = status_text TokenStatus.inactive;
            kind = [];
            created_at = w.format token.created_at;
            last_used_at = none;
            ttl_seconds = none;
          })))

  -- TokenManageHandler.GetAuditTrail, with the query parameters limit and offset
  unfoldable pub get_audit_trail : Context → Text → Text → Text → Handler w.redis.Cache Response
  get_audit_trail ctx token_id limit offset = do
    tenant ← present ctx.tenant (missing_tenant ctx.correlation_id)
    found ←
        or_reply
          (Repository.AuditLog.find_by_token_id w tenant.tenant_id (mask_token_id token_id)
            (limit_of limit) (offset_of offset))
          (internal_error ctx.correlation_id)
    pure (ok (Body.audit_trail found.0 found.1))
