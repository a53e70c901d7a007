-- ===== src/Isolation.antt =====
-- What the tenants see of one another in the tables: rows belong to the tenant that they name.
pub mod Writes
pub mod Selected
pub mod Reads
pub mod Answers
pub mod Calls
use vaulty.Prelude.{Bool, List, Text, text_eq, select}
use vaulty.Model.{Token, VaultEntry, AuditLogEntry}
use vaulty.Store.{Store}

abbrev pub is_token_of : Text → Token → Bool
is_token_of tenant_id t = text_eq t.tenant_id tenant_id

abbrev pub is_entry_of : Text → VaultEntry → Bool
is_entry_of tenant_id e = text_eq e.tenant_id tenant_id

abbrev pub is_line_of : Text → AuditLogEntry → Bool
is_line_of tenant_id e = text_eq e.tenant_id tenant_id

-- A tenant's rows, in the order of the tables.
pub record Rows : Type 0 where
  pub tokens : List Token
  pub entries : List VaultEntry
  pub lines : List AuditLogEntry

abbrev pub rows_of : {C : Type 0} → Text → Store C → Rows
rows_of tenant_id s = record {
  tokens = select (is_token_of tenant_id) s.tokens;
  entries = select (is_entry_of tenant_id) s.vault_entries;
  lines = select (is_line_of tenant_id) s.audit_log;
}
