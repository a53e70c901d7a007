-- ===== src/Server.antt =====
-- Responses and the error helpers of internal/server/errors.go. A response is its status code and
-- its body. Headers are left out: every body is sent as application/json but that of /health's 503, whose
-- header is set after the status was written.
pub mod Run
use vaulty.Prelude.{ℕ, Text, text, Option, List}
use vaulty.Json.{Fields}
use vaulty.Model.{AuditLogEntry}

pub record ErrorBody : Type 0 where
  pub code : Text
  pub message : Text
  pub correlation_id : Text

pub record TokenStatusResponse : Type 0 where
  pub token : Text
  pub status : Text
  pub kind : Text
  pub created_at : Text
  pub last_used_at : Option Text
  pub ttl_seconds : Option ℕ

pub record TenantResponse : Type 0 where
  pub tenant_id : Text
  pub name : Text
  pub status : Text
  pub kms_key_arn : Text
  pub created_at : Text
  pub updated_at : Text

pub record ForwardResult : Type 0 where
  pub status_code : ℕ
  pub headers : List (Text × Text)
  pub body : Text

pub record HealthChecks : Type 0 where
  pub database : Text
  pub redis : Text
  pub kms : Text

pub data Body : Type 0 where
  error_body : ErrorBody → Body
  echo : Fields → Body
  value : Text → Body
  token_status : TokenStatusResponse → Body
  audit_trail : List AuditLogEntry → ℕ → Body
  tenant : TenantResponse → Body
  tenants : List TenantResponse → ℕ → Body
  forwarded : ForwardResult → Body
  health : Text → HealthChecks → Body

pub record Response : Type 0 where
  pub status : ℕ
  pub body : Body

abbrev pub write_error : ℕ → Text → Text → Text → Response
write_error status code message correlation = record {
  status = status;
  body = Body.error_body (record { code = code; message = message; correlation_id = correlation });
}

abbrev pub bad_request : Text → Text → Text → Response
bad_request code message correlation = write_error 400 code message correlation

abbrev pub unauthorized : Text → Response
unauthorized correlation =
    write_error 401 (text "UNAUTHORIZED") (text "Authentication required") correlation

abbrev pub forbidden : Text → Response
forbidden correlation =
    write_error 403 (text "FORBIDDEN") (text "Insufficient permissions") correlation

abbrev pub not_found : Text → Text → Text → Response
not_found code message correlation = write_error 404 code message correlation

abbrev pub bad_gateway : Text → Text → Response
bad_gateway message correlation = write_error 502 (text "PROVIDER_ERROR") message correlation

abbrev pub service_unavailable : Text → Text → Response
service_unavailable message correlation =
    write_error 503 (text "SERVICE_UNAVAILABLE") message correlation

abbrev pub internal_error : Text → Response
internal_error correlation =
    write_error 500 (text "INTERNAL_ERROR") (text "An internal error occurred") correlation

-- `json.NewEncoder(w).Encode(body)` with no status written before it.
abbrev pub ok : Body → Response
ok body = record { status = 200; body = body }
