-- ===== src/Handler/Common.antt =====
-- What the handlers share: texts of the API, and one line of the audit log.
use vaulty.Prelude.{[], Text, text}
use vaulty.Model.{AuditLogEntry, AuditOperation, AuditResult}
use vaulty.Server.{Response, bad_request}
use vaulty.World.{World}
use vaulty.Store.{Action}
use vaulty.Audit.{mask_token_id}
use vaulty.Repository

abbrev pub invalid_json : Text → Response
invalid_json correlation =
    bad_request (text "INVALID_JSON") (text "Invalid request body") correlation

abbrev pub missing_tenant : Text → Response
missing_tenant correlation =
    bad_request (text "MISSING_TENANT") (text "Tenant context required") correlation

-- The entry that the handlers pass to Logger.Log; the table fills in the id and the time.
abbrev pub audit_entry : Text → Text → AuditOperation → Text → Text → AuditLogEntry
audit_entry tenant_id correlation operation token_id actor = record {
  id = [];
  tenant_id = tenant_id;
  correlation_id = correlation;
  operation = operation;
  token_id_masked = mask_token_id token_id;
  actor = actor;
  result = AuditResult.success;
  created_at = 0;
}

-- Logger.Log: a failure to persist goes to the process log only.
unfoldable pub log : (w : World) → AuditLogEntry → Action w.redis.Cache (Unit {0})
log w entry s = (tt, (Repository.AuditLog.append w entry s).1)
