-- ===== src/Isolation/Writes.antt =====
-- A call by one tenant leaves the rows of the others as they are.
use vaulty.Prelude.{
  Bool, true, false, some, List, [], ◌∷◌, ◌++◌, ◌≡◌, ◌≢◌, refl, Text, text_eq_iff, text_eq_ne,
  select, update, arith,
}
use vaulty.Model.{Token, TokenStatus}
use vaulty.World.{World}
use vaulty.Store.{Store, tick}
use vaulty.Store.Keeps.{Keeps}
use vaulty.Repository
use vaulty.Repository.Keeps.{Keeps-exec}
use vaulty.Repository.Tokens.{has_token_id}
use vaulty.Auth.{Request}
use vaulty.Handler.Common.{audit_entry}
use vaulty.Handler.Health.{Pings}
use vaulty.Handler.Tokenize.{TokenizeConfig}
use vaulty.Handler.Keeps.{Scope, KeptBy}
use vaulty.Routes.{
  Call, health_call, admin, vault, tokenize_call, status_call, deactivate_call, audit_call,
  detokenize_call, VaultCall,
}
use vaulty.Routes.Keeps.{serve_all, serve_all-Keeps, AllAllow, AllowsChange}
use vaulty.Isolation.{Rows, rows_of, is_token_of, is_entry_of, is_line_of}

module _ {A : Type 0} where
  -- A row that is not selected may be appended.
  select-append_other :
      (p : A → Bool) (xs : List A) (x : A) → p x ≡ false → select p (xs ++ x ∷ []) ≡ select p xs
  select-append_other p [] x h = ground arith
  select-append_other p (y ∷ xs) x h = ground (arith, select-append_other p xs x)

  -- A change of rows that are not selected.
  select-update_other :
      (p q : A → Bool) (f : A → A) (xs : List A)
      → ((a : A) → q a ≡ true → p a ≡ false)
      → ((a : A) → p (f a) ≡ p a)
      → select p (update q f xs) ≡ select p xs
  select-update_other p q f [] apart same = refl
  select-update_other p q f (x ∷ xs) apart same =
      ground (arith, apart x, same x, select-update_other p q f xs apart same)

-- No call of the run is made in a tenant's name.
abbrev pub NeverNames : Text → List (Call × Request) → Type 0
NeverNames tenant_id [] = Unit
NeverNames tenant_id ((vault c, r) ∷ calls) =
    (r.x_tenant_id ≢ tenant_id) × NeverNames tenant_id calls
NeverNames tenant_id ((_, r) ∷ calls) = NeverNames tenant_id calls

module _ (w : World) (b : Text) (before : Rows) where
  abbrev pub Untouched : Store w.redis.Cache → Type 0
  Untouched s = rows_of b s ≡ before

  abbrev pub Other : Scope
  Other = record { tenant = λ a. a ≢ b; admin = Unit }

  same : (s : Store w.redis.Cache) → Untouched s → Untouched (tick s)
  same s h = h

  apart : (a id : Text) → a ≢ b → (t : Token) → has_token_id a id t ≡ true → is_token_of b t ≡ false
  apart a id ne t h = ground (arith, text_eq_iff t.tenant_id a, text_eq_iff t.tenant_id b)

  changed-Untouched :
      (a id : Text) (f : Token → Token) (s : Store w.redis.Cache)
      → a ≢ b
      → ((t : Token) → is_token_of b (f t) ≡ is_token_of b t)
      → Untouched s
      → Untouched (record s { tokens = update (has_token_id a id) f s.tokens })
  changed-Untouched a id f s ne keeps h =
      rw (select-update_other (is_token_of b) (has_token_id a id) f s.tokens (apart a id ne) keeps)
        h

  pub update_status-Keeps :
      (a id : Text)
      → a ≢ b
      → Keeps Untouched (Repository.Tokens.update_status w a id TokenStatus.inactive)
  unfolding Repository.Tokens.update_status
  update_status-Keeps a id ne = Keeps-exec w _ same _ _ λ s _ h.
      changed-Untouched a id
        (λ t. record t { status = TokenStatus.inactive; updated_at = w.now s.calls }) s ne
        (λ t. refl) h

  pub Untouched-KeptBy : KeptBy w Other Untouched
  unfolding Repository.Tokens.create Repository.Tokens.update_last_used
      Repository.VaultEntries.create Repository.AuditLog.append Repository.Tenants.create
      Repository.Tenants.update_status
  Untouched-KeptBy = record {
    insert_token = λ t ne. Keeps-exec w _ same _ _ λ s _ h.
        rw
          (select-append_other (is_token_of b) s.tokens (Repository.Tokens.token_row w t s)
            (text_eq_ne t.tenant_id b ne))
          h;
    touch_token = λ a id ne. Keeps-exec w _ same _ _ λ s _ h.
        changed-Untouched a id
          (λ t. record t { last_used_at = some (w.now s.calls); updated_at = w.now s.calls }) s ne
          (λ t. refl) h;
    insert_entry = λ e ne. Keeps-exec w _ same _ _ λ s _ h.
        rw
          (select-append_other (is_entry_of b) s.vault_entries
            (Repository.VaultEntries.entry_row w e s) (text_eq_ne e.tenant_id b ne))
          h;
    append_audit = λ a c o t actor ne. Keeps-exec w _ same _ _ λ s _ h.
        rw
          (select-append_other (is_line_of b) s.audit_log
            (Repository.AuditLog.audit_row w (audit_entry a c o t actor) s) (text_eq_ne a b ne))
          h;
    insert_tenant = λ t admin. Keeps-exec w _ same _ _ (λ s _ h. h);
    set_tenant_status = λ a admin. Keeps-exec w _ same _ _ (λ s _ h. h);
    cache_command = λ s c h. h;
    external_call = same;
  }

  allowed : (c : VaultCall) → AllowsChange w Other Untouched c
  allowed (tokenize_call body) = tt
  allowed (status_call t) = tt
  allowed (deactivate_call t) = λ a ne. update_status-Keeps a t ne
  allowed (audit_call t l o) = tt
  allowed (detokenize_call body) = tt

  all_allowed :
      (calls : List (Call × Request)) → NeverNames b calls → AllAllow w Other Untouched calls
  all_allowed [] h = tt
  all_allowed ((health_call, r) ∷ calls) h = (tt, all_allowed calls h)
  all_allowed ((admin c, r) ∷ calls) h = (tt, all_allowed calls h)
  all_allowed ((vault c, r) ∷ calls) (ne, h) = ((ne, allowed c), all_allowed calls h)

-- A run of calls in which no tenant-scoped call names a tenant, whatever they answer and whatever
-- fails, leaves that tenant's tokens, entries and lines of the audit log as they were, in their order.
pub rows_of-serve_all :
    (w : World) (cfg : TokenizeConfig) (pings : Pings) (tenant_id : Text)
    (calls : List (Call × Request)) (s : Store w.redis.Cache)
    → NeverNames tenant_id calls
    → rows_of tenant_id (serve_all w cfg pings calls s) ≡ rows_of tenant_id s
rows_of-serve_all w cfg pings tenant_id calls s h =
    serve_all-Keeps w (Other w tenant_id (rows_of tenant_id s)) _ cfg pings
      (Untouched-KeptBy w tenant_id (rows_of tenant_id s)) calls s
      (all_allowed w tenant_id (rows_of tenant_id s) calls h) refl
