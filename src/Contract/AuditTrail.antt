-- ===== src/Contract/AuditTrail.antt =====
-- TokenManageHandler.GetAuditTrail and TenantHandler.List: what their pages hold.
use vaulty.Prelude.{
  Option, none, ℕ, ◌-◌, min, true, some, List, ◌≡◌, Text, leb, length, all, select,
}
use vaulty.Model.{AuditLogEntry}
use vaulty.World.{World}
use vaulty.Store.{Store}
use vaulty.Audit.{mask_token_id}
use vaulty.Repository
use vaulty.Repository.AuditLog.{is_about}
use vaulty.Repository.Pages.{newest_IsFirst}
use vaulty.Handler.Paging.{limit_of, offset_of}

-- How many of so many rows are read before the reading breaks off, if it does.
abbrev pub until : Option ℕ → ℕ → ℕ
until none n = n
until (some k) n = min k n

-- What the answer holds of a tenant's lines that show a token's mask: how many there are, and as many of
-- them as the limit and the offset allow, never more than 200, the newest first. If the reading of the
-- rows broke off, only those that were read by then.
pub record IsAuditPage (tenant_id token_id limit offset : Text) (broke_off : Option ℕ)
    (log : List AuditLogEntry) (entries : List AuditLogEntry) (total : ℕ) : Type 0 where
  pub counted : total ≡ length (select (is_about tenant_id (mask_token_id token_id)) log)
  pub shown : length entries ≡ until broke_off (min (limit_of limit) (total - offset_of offset))
  pub at_most : leb (length entries) 200 ≡ true
  pub about : all (is_about tenant_id (mask_token_id token_id)) entries ≡ true
  pub newest : newest_IsFirst (λ (e : AuditLogEntry). e.created_at) entries ≡ true
