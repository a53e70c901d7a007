-- ===== src/Repository/AuditLog.antt =====
-- internal/repository/audit_repo.go, over the table of migrations 003 and 007.
use vaulty.Prelude.{ℕ, Bool, ◌&&◌, Option, List, [], ◌∷◌, ◌++◌, Text, text_eq, length, select}
use vaulty.Model.{AuditLogEntry}
use vaulty.World.{World}
use vaulty.Store.{Store, Action, chain, succeed}
use vaulty.Repository.Rows.{fits, page, query, query_rows, exec}

-- WHERE tenant_id = $1 AND token_id_masked = $2
abbrev pub is_about : Text → Text → AuditLogEntry → Bool
is_about tenant_id masked e = text_eq e.tenant_id tenant_id && text_eq e.token_id_masked masked

abbrev pub audit_allowed : {C : Type 0} → AuditLogEntry → Store C → Bool
audit_allowed e s =
    fits 64 e.correlation_id
    && (fits 64 e.token_id_masked && (fits 128 e.actor && fits 64 e.tenant_id))

module _ (w : World) where
  abbrev pub audit_row : AuditLogEntry → Store w.redis.Cache → AuditLogEntry
  audit_row e s = record e { id = w.uuid s.calls; created_at = w.now s.calls }

  unfoldable pub append : AuditLogEntry → Action w.redis.Cache (Option (Unit {0}))
  append e =
      exec w (audit_allowed e) (λ s. record s { audit_log = s.audit_log ++ audit_row e s ∷ [] })

  -- The count, then the page.
  unfoldable pub find_by_token_id :
      Text → Text → ℕ → ℕ → Action w.redis.Cache (Option (List AuditLogEntry × ℕ))
  find_by_token_id tenant_id masked limit offset =
      let rows = λ (t : Store w.redis.Cache). select (is_about tenant_id masked) t.audit_log in
      chain (query w (λ t. length (rows t))) λ total.
        chain (query_rows w (λ t. page (λ e. e.created_at) limit offset (rows t)))
          λ entries. succeed (entries, total)
