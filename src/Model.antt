-- ===== src/Model.antt =====
-- The records of internal/model: tokens, vault entries, tenants and the audit log.
use vaulty.Prelude.{ℕ, Text, Bytes, Option, Bool, true, false}

pub data TokenStatus : Type 0 where
  active inactive : TokenStatus

-- Times are counted from Go's zero time, 0; `last_used_at` may be NULL.
pub record Token : Type 0 where
  pub id : Text
  pub tenant_id : Text
  pub token_id : Text
  pub pan_blind_index : Text
  pub status : TokenStatus
  pub expiry_month : ℕ
  pub expiry_year : ℕ
  pub created_at : ℕ
  pub updated_at : ℕ
  pub last_used_at : Option ℕ

pub record VaultEntry : Type 0 where
  pub id : Text
  pub tenant_id : Text
  pub token_id : Text
  pub pan_ciphertext : Bytes
  pub iv : Bytes
  pub auth_tag : Bytes
  pub dek_encrypted : Bytes
  pub kms_key_id : Text
  pub created_at : ℕ

-- `unset` is the zero value "", of a tenant that the proxy makes up from a header.
pub data TenantStatus : Type 0 where
  active inactive unset : TenantStatus

pub record Tenant : Type 0 where
  pub id : Text
  pub tenant_id : Text
  pub name : Text
  pub status : TenantStatus
  pub kms_key_arn : Text
  pub created_at : ℕ
  pub updated_at : ℕ

pub data AuditOperation : Type 0 where
  tokenize detokenize deactivate validate forward : AuditOperation

pub data AuditResult : Type 0 where
  success denied error : AuditResult

-- `Detail` is left out: no caller sets it, so the column is always NULL.
pub record AuditLogEntry : Type 0 where
  pub id : Text
  pub tenant_id : Text
  pub correlation_id : Text
  pub operation : AuditOperation
  pub token_id_masked : Text
  pub actor : Text
  pub result : AuditResult
  pub created_at : ℕ

abbrev pub is_active : TokenStatus → Bool
is_active TokenStatus.active = true
is_active TokenStatus.inactive = false

abbrev pub is_active_tenant : TenantStatus → Bool
is_active_tenant TenantStatus.active = true
is_active_tenant _ = false
