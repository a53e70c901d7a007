-- ===== src/Vaulted/Logged.antt =====
-- A line of the audit log leaves the rest of the store alone.
use vaulty.Prelude.{Bool, true, false, ◌≡◌, refl}
use vaulty.Model.{AuditLogEntry}
use vaulty.World.{World}
use vaulty.Store.{Store}
use vaulty.Repository
use vaulty.Repository.Rows.{exec, executed}
use vaulty.Handler.Common.{log}

abbrev Same : {C : Type 0} → Store C → Store C → Type 0
Same t s = (t.tokens ≡ s.tokens) × (t.vault_entries ≡ s.vault_entries) × (t.cache ≡ s.cache)

executed-Same : {C : Type 0} (b : Bool) (s t : Store C) → Same t s → Same (executed b s t).1 s
executed-Same true s t h = (refl, refl, refl)
executed-Same false s t h = h

pub log-Same :
    (w : World) (entry : AuditLogEntry) (s : Store w.redis.Cache) → Same (log w entry s).1 s
unfolding log Repository.AuditLog.append exec
log-Same w entry s = executed-Same _ s _ (refl, refl, refl)
