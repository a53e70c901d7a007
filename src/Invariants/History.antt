-- ===== src/Invariants/History.antt =====
-- Rows are added and never removed or replaced, tokens change in a few columns only, and the audit log
-- holds masked ids.
use mathlib.Core.List.{append_assoc, append-nil}
use vaulty.Prelude.{true, some, inl, inr, List, [], ◌∷◌, ◌++◌, ◌≡◌, refl, sym, ◌∙◌, Text, all}
use vaulty.Model.{Token, TokenStatus, VaultEntry, AuditLogEntry}
use vaulty.World.{World}
use vaulty.Store.{Store, tick}
use vaulty.Store.Keeps.{Keeps}
use vaulty.Repository
use vaulty.Repository.Keeps.{Keeps-exec}
use vaulty.Repository.Tokens.{has_token_id}
use vaulty.Auth.{Request}
use vaulty.Handler.Common.{audit_entry}
use vaulty.Handler.Health.{Pings}
use vaulty.Handler.Tokenize.{TokenizeConfig}
use vaulty.Handler.Keeps.{KeptBy}
use vaulty.Routes.{Call}
use vaulty.Routes.Keeps.{serve_all, serve_all-Keeps, Anyone, AllAllow-Anyone}
use vaulty.Invariants.Rows.{
  AllAge, AllAge-refl, AllAge-append, AllAge-update, is_masked, mask-is_masked, all-append_one,
}

-- A later store of the same service.
pub record Follows {C : Type 0} (s u : Store C) : Type 0 where
  pub tokens : AllAge s.tokens u.tokens
  pub new_entries : List VaultEntry
  pub entries : u.vault_entries ≡ s.vault_entries ++ new_entries
  pub new_lines : List AuditLogEntry
  pub lines : u.audit_log ≡ s.audit_log ++ new_lines
  pub masked : all is_masked new_lines ≡ true

module _ (w : World) (s : Store w.redis.Cache) where
  -- A store with the same three tables.
  moved :
      (u v : Store w.redis.Cache)
      → u.tokens ≡ v.tokens
      → u.vault_entries ≡ v.vault_entries
      → u.audit_log ≡ v.audit_log
      → Follows s u
      → Follows s v
  moved u v a b c h = record {
    tokens = rw (← a) h.tokens;
    new_entries = h.new_entries;
    entries = sym b ∙ h.entries;
    new_lines = h.new_lines;
    lines = sym c ∙ h.lines;
    masked = h.masked;
  }

  same : (u : Store w.redis.Cache) → Follows s u → Follows s (tick u)
  same u h = moved u (tick u) refl refl refl h

  with_tokens :
      (u : Store w.redis.Cache) (ts : List Token)
      → AllAge s.tokens ts
      → Follows s u
      → Follows s (record u { tokens = ts })
  with_tokens u ts aged h = record {
    tokens = aged;
    new_entries = h.new_entries;
    entries = h.entries;
    new_lines = h.new_lines;
    lines = h.lines;
    masked = h.masked;
  }

  pub update_status-Keeps :
      (a id : Text)
      → Keeps (Follows s) (Repository.Tokens.update_status w a id TokenStatus.inactive)
  unfolding Repository.Tokens.update_status
  update_status-Keeps a id = Keeps-exec w _ same _ _ λ u _ h. same _ (
      with_tokens u _
        (AllAge-update (has_token_id a id)
          (λ t. record t { status = TokenStatus.inactive; updated_at = w.now u.calls }) s.tokens
          u.tokens
          (λ t. record {
            same_id = refl;
            same_tenant = refl;
            same_token = refl;
            same_index = refl;
            same_month = refl;
            same_year = refl;
            same_age = refl;
            status = inr refl;
          })
          h.tokens)
        h)

  pub Follows-KeptBy : KeptBy w Anyone (Follows s)
  unfolding Repository.Tokens.create Repository.Tokens.update_last_used
      Repository.VaultEntries.create Repository.AuditLog.append Repository.Tenants.create
      Repository.Tenants.update_status
  Follows-KeptBy = record {
    insert_token = λ t own.
        Keeps-exec w _ same _ _
          λ u _ h. same _ (with_tokens u _ (AllAge-append s.tokens u.tokens _ h.tokens) h);
    touch_token = λ a id own. Keeps-exec w _ same _ _ λ u _ h. same _ (
        with_tokens u _
          (AllAge-update (has_token_id a id)
            (λ t. record t { last_used_at = some (w.now u.calls); updated_at = w.now u.calls })
            s.tokens u.tokens
            (λ t. record {
              same_id = refl;
              same_tenant = refl;
              same_token = refl;
              same_index = refl;
              same_month = refl;
              same_year = refl;
              same_age = refl;
              status = inl refl;
            })
            h.tokens)
          h);
    insert_entry = λ e own. Keeps-exec w _ same _ _ λ u _ h. record {
      tokens = h.tokens;
      new_entries = h.new_entries ++ Repository.VaultEntries.entry_row w e u ∷ [];
      entries = rw h.entries (append_assoc s.vault_entries h.new_entries _);
      new_lines = h.new_lines;
      lines = h.lines;
      masked = h.masked;
    };
    append_audit = λ a b o t actor own. Keeps-exec w _ same _ _ λ u _ h. record {
      tokens = h.tokens;
      new_entries = h.new_entries;
      entries = h.entries;
      new_lines = h.new_lines ++ Repository.AuditLog.audit_row w (audit_entry a b o t actor) u ∷ [];
      lines = rw h.lines (append_assoc s.audit_log h.new_lines _);
      masked = all-append_one is_masked h.new_lines _ h.masked (mask-is_masked t);
    };
    insert_tenant = λ t admin. Keeps-exec w _ same _ _ λ u _ h. moved u _ refl refl refl h;
    set_tenant_status = λ a admin. Keeps-exec w _ same _ _ λ u _ h. moved u _ refl refl refl h;
    cache_command = λ u c h. moved u _ refl refl refl h;
    external_call = same;
  }

  pub Follows-refl : Follows s s
  Follows-refl = record {
    tokens = AllAge-refl s.tokens;
    new_entries = [];
    entries = sym (append-nil s.vault_entries);
    new_lines = [];
    lines = sym (append-nil s.audit_log);
    masked = refl;
  }

-- After any run of calls the old token rows are all there, in their order and first, with their ids,
-- tenants, indexes, expiries and ages, and no inactive one is active again; the old entries and the old lines of
-- the audit log are a prefix of the new; and no new line shows more of a token id than its first twelve
-- characters.
pub serve_all-Follows :
    (w : World) (cfg : TokenizeConfig) (pings : Pings) (calls : List (Call × Request))
    (s : Store w.redis.Cache)
    → Follows s (serve_all w cfg pings calls s)
serve_all-Follows w cfg pings calls s =
    serve_all-Keeps w Anyone (Follows s) cfg pings (Follows-KeptBy w s) calls s
      (AllAllow-Anyone w _ (update_status-Keeps w s) calls) (Follows-refl w s)
