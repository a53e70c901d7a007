-- ===== src/Isolation/Reads.antt =====
-- What a tenant is answered depends on its own rows alone.
use vaulty.Prelude.{
  not, ◌||◌, ℕ, ◌+◌, Bool, true, false, some, none, List, [], ◌∷◌, ◌++◌, ◌≡◌, refl, sym, ◌∙◌, ap,
  Text, select, update, find, if◌then◌else◌, arith, length,
}
use vaulty.Model.{Token, TokenStatus, VaultEntry, AuditLogEntry}
use vaulty.World.{World}
use vaulty.Store.{Store, tick}
use vaulty.Store.Agrees.{Agrees-succeed, Agrees, Agrees-chain}
use vaulty.Repository
use vaulty.Repository.Rows.{executed, query, exec, page, read_until}
use vaulty.Repository.Tokens.{has_token_id}
use vaulty.Repository.VaultEntries.{is_entry_of as is_entry}
use vaulty.Repository.AuditLog.{is_about}
use vaulty.Handler.Common.{log}
use vaulty.Isolation.Selected.{find-select, select-select, select-append, select-update}
use vaulty.Isolation.{Rows, rows_of, is_token_of, is_entry_of, is_line_of}

-- Stores that a tenant cannot tell apart: its rows, the tenants, Redis and the calls are the same.
pub record IsAlike {C : Type 0} (tenant_id : Text) (s u : Store C) : Type 0 where
  pub tenants : s.tenants ≡ u.tenants
  pub rows : rows_of tenant_id s ≡ rows_of tenant_id u
  pub cache : s.cache ≡ u.cache
  pub calls : s.calls ≡ u.calls

module _ (w : World) (a : Text) where
  abbrev pub Alike : Store w.redis.Cache → Store w.redis.Cache → Type 0
  Alike = IsAlike a

  pub ticked : (s u : Store w.redis.Cache) → Alike s u → Alike (tick s) (tick u)
  ticked s u r = record {
    tenants = r.tenants;
    rows = r.rows;
    cache = r.cache;
    calls = ap (λ n. n + 1) r.calls;
  }

  pub query-Agrees :
      {A : Type 0} (f : Store w.redis.Cache → A)
      → ((s u : Store w.redis.Cache) → Alike s u → f s ≡ f u)
      → Agrees Alike (query w f)
  unfolding query
  query-Agrees f same = record {
    at = λ s u r. (
      ap (λ n. if w.db_fails n then none else some (f s)) r.calls
          ∙ ap (λ x. if w.db_fails u.calls then none else some x) (same s u r),
      ticked s u r,
    );
  }

  tokens-Alike :
      (s u : Store w.redis.Cache)
      → Alike s u
      → select (is_token_of a) s.tokens ≡ select (is_token_of a) u.tokens
  tokens-Alike s u r = ap (λ (x : Rows). x.tokens) r.rows

  entries-Alike :
      (s u : Store w.redis.Cache)
      → Alike s u
      → select (is_entry_of a) s.vault_entries ≡ select (is_entry_of a) u.vault_entries
  entries-Alike s u r = ap (λ (x : Rows). x.entries) r.rows

  lines-Alike :
      (s u : Store w.redis.Cache)
      → Alike s u
      → select (is_line_of a) s.audit_log ≡ select (is_line_of a) u.audit_log
  lines-Alike s u r = ap (λ (x : Rows). x.lines) r.rows

  pub find_token-Agrees : (id : Text) → Agrees Alike (Repository.Tokens.find_by_token_id w a id)
  unfolding Repository.Tokens.find_by_token_id
  find_token-Agrees id = query-Agrees _ λ s u r.
      sym (find-select (has_token_id a id) (is_token_of a) s.tokens (λ t h. ground arith))
      ∙ ap (find (has_token_id a id)) (tokens-Alike s u r)
      ∙ find-select (has_token_id a id) (is_token_of a) u.tokens (λ t h. ground arith)

  pub find_entry-Agrees :
      (id : Text) → Agrees Alike (Repository.VaultEntries.find_by_token_id w a id)
  unfolding Repository.VaultEntries.find_by_token_id
  find_entry-Agrees id = query-Agrees _ λ s u r.
      sym (find-select (is_entry a id) (is_entry_of a) s.vault_entries (λ e h. ground arith))
      ∙ ap (find (is_entry a id)) (entries-Alike s u r)
      ∙ find-select (is_entry a id) (is_entry_of a) u.vault_entries (λ e h. ground arith)

  about-Alike :
      (masked : Text) (s u : Store w.redis.Cache)
      → Alike s u
      → select (is_about a masked) s.audit_log ≡ select (is_about a masked) u.audit_log
  about-Alike masked s u r =
      sym (select-select (is_about a masked) (is_line_of a) s.audit_log (λ e h. ground arith))
      ∙ ap (select (is_about a masked)) (lines-Alike s u r)
      ∙ select-select (is_about a masked) (is_line_of a) u.audit_log (λ e h. ground arith)

  pub find_lines-Agrees :
      (masked : Text) (limit offset : ℕ)
      → Agrees Alike (Repository.AuditLog.find_by_token_id w a masked limit offset)
  unfolding Repository.AuditLog.find_by_token_id
  find_lines-Agrees masked limit offset =
      Agrees-chain _ _ (query-Agrees _ λ s u r. ap length (about-Alike masked s u r)) λ total.
        Agrees-chain _ _
          (query-Agrees _ λ s u r.
            ap
              (λ n. read_until (w.rows_end n) (
                page (λ (e : AuditLogEntry). e.created_at) limit offset
                  (select (is_about a masked) s.audit_log)))
              r.calls
            ∙ ap
                (λ lines.
                  read_until (w.rows_end u.calls)
                    (page (λ (e : AuditLogEntry). e.created_at) limit offset lines))
                (about-Alike masked s u r))
          λ entries. Agrees-succeed (entries, total)

  executed-Alike :
      (failed failed' : Bool) (s u s' u' : Store w.redis.Cache)
      → failed ≡ failed'
      → Alike s u
      → Alike s' u'
      → ((executed failed s s').0 ≡ (executed failed' u u').0)
        × Alike (executed failed s s').1 (executed failed' u u').1
  executed-Alike true true s u s' u' e r r' = (refl, ticked s u r)
  executed-Alike false false s u s' u' e r r' = (refl, ticked s' u' r')
  executed-Alike true false s u s' u' e r r' = absurd (cc)
  executed-Alike false true s u s' u' e r r' = absurd (cc)

  exec-Agrees :
      (allowed : Bool) (change : Store w.redis.Cache → Store w.redis.Cache)
      → ((s u : Store w.redis.Cache) → Alike s u → Alike (change s) (change u))
      → Agrees Alike (exec w (λ s. allowed) change)
  unfolding exec
  exec-Agrees allowed change h = record {
    at = λ s u r.
        executed-Alike (w.db_fails s.calls || not allowed) (w.db_fails u.calls || not allowed) s u
          (change s) (change u) (ap (λ n. w.db_fails n || not allowed) r.calls) r (h s u r);
  }

  rows_path :
      {t t' : List Token} {e e' : List VaultEntry} {l l' : List AuditLogEntry}
      → t ≡ t'
      → e ≡ e'
      → l ≡ l'
      → ◌≡◌ {A = Rows}
          (record { tokens = t; entries = e; lines = l })
          (record { tokens = t'; entries = e'; lines = l' })
  rows_path p q r = cc

  -- A change of the tenant's own token, which depends on the number of the call.
  updated-Alike :
      (id : Text) (f : ℕ → Token → Token) (s u : Store w.redis.Cache)
      → ((n : ℕ) (t : Token) → is_token_of a (f n t) ≡ is_token_of a t)
      → Alike s u
      → Alike
          (record s { tokens = update (has_token_id a id) (f s.calls) s.tokens })
          (record u { tokens = update (has_token_id a id) (f u.calls) u.tokens })
  updated-Alike id f s u same r = record {
    tenants = r.tenants;
    rows =
        rows_path
          (select-update (is_token_of a) (has_token_id a id) (f s.calls) s.tokens (same s.calls)
            ∙ ap (λ n. update (has_token_id a id) (f n) (select (is_token_of a) s.tokens)) r.calls
            ∙ ap (update (has_token_id a id) (f u.calls)) (tokens-Alike s u r)
            ∙ sym (
                select-update (is_token_of a) (has_token_id a id) (f u.calls) u.tokens
                  (same u.calls)))
          (entries-Alike s u r) (lines-Alike s u r);
    cache = r.cache;
    calls = r.calls;
  }

  pub touch-Agrees : (id : Text) → Agrees Alike (Repository.Tokens.update_last_used w a id)
  unfolding Repository.Tokens.update_last_used
  touch-Agrees id = exec-Agrees true _ λ s u r.
      updated-Alike id (λ n t. record t { last_used_at = some (w.now n); updated_at = w.now n }) s u
        (λ n t. refl) r

  pub deactivate-Agrees :
      (id : Text) → Agrees Alike (Repository.Tokens.update_status w a id TokenStatus.inactive)
  unfolding Repository.Tokens.update_status
  deactivate-Agrees id = exec-Agrees true _ λ s u r.
      updated-Alike id (λ n t. record t { status = TokenStatus.inactive; updated_at = w.now n }) s u
        (λ n t. refl) r

  appended-Alike :
      (f : ℕ → AuditLogEntry) (s u : Store w.redis.Cache)
      → Alike s u
      → Alike
          (record s { audit_log = s.audit_log ++ f s.calls ∷ [] })
          (record u { audit_log = u.audit_log ++ f u.calls ∷ [] })
  appended-Alike f s u r = record {
    tenants = r.tenants;
    rows = rows_path (tokens-Alike s u r) (entries-Alike s u r) (
        select-append (is_line_of a) s.audit_log (f s.calls ∷ [])
        ∙ ap (λ n. select (is_line_of a) s.audit_log ++ select (is_line_of a) (f n ∷ [])) r.calls
        ∙ ap (λ x. x ++ select (is_line_of a) (f u.calls ∷ [])) (lines-Alike s u r)
        ∙ sym (select-append (is_line_of a) u.audit_log (f u.calls ∷ [])));
    cache = r.cache;
    calls = r.calls;
  }

  pub log-Agrees : (e : AuditLogEntry) → Agrees Alike (log w e)
  unfolding log Repository.AuditLog.append
  log-Agrees e = record {
    at = λ s u r. (
      refl,
      ((exec-Agrees _ _ λ s' u' r'.
            appended-Alike (λ n. record e { id = w.uuid n; created_at = w.now n }) s' u' r').at
          s u r).1,
    );
  }
