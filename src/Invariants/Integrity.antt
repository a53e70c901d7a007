-- ===== src/Invariants/Integrity.antt =====
-- The keys and references of the four tables.
use vaulty.Prelude.{
  ap, Bool, ◌&&◌, true, some, List, ◌≡◌, refl, ◌∙◌, Text, text_eq, any, all, update, arith,
}
use vaulty.Model.{Token, TokenStatus, Tenant, TenantStatus, VaultEntry}
use vaulty.World.{World}
use vaulty.Store.{Store, tick}
use vaulty.Store.Keeps.{Keeps}
use vaulty.Repository
use vaulty.Repository.Keeps.{Keeps-exec}
use vaulty.Repository.Tokens.{has_token_id, token_clashes}
use vaulty.Repository.Tenants.{is_named}
use vaulty.Auth.{Request}
use vaulty.Handler.Health.{Pings}
use vaulty.Handler.Tokenize.{TokenizeConfig}
use vaulty.Handler.Keeps.{KeptBy}
use vaulty.Routes.{Call}
use vaulty.Routes.Keeps.{serve_all, serve_all-Keeps, Anyone, AllAllow-Anyone}
use vaulty.Invariants.Distinct.{
  Distinct, any-narrower, Distinct-append_one, Distinct-update, all-append_one, all-update,
  all-any-append, all-any-update, text_eq_sym,
}

abbrev pub same_name : Tenant → Tenant → Bool
same_name a b = text_eq b.tenant_id a.tenant_id

-- What a reader of the tables relies on, said of the rows alone.
abbrev pub same_token_id : Token → Token → Bool
same_token_id a b = text_eq b.token_id a.token_id

abbrev pub same_pan : Token → Token → Bool
same_pan a b = text_eq b.tenant_id a.tenant_id && text_eq b.pan_blind_index a.pan_blind_index

abbrev pub same_entry : VaultEntry → VaultEntry → Bool
same_entry a b = text_eq b.token_id a.token_id

abbrev pub has_tenant : List Tenant → Token → Bool
has_tenant ts t = any (λ (a : Tenant). text_eq a.tenant_id t.tenant_id) ts

abbrev pub has_token : List Token → VaultEntry → Bool
has_token ts e = any (λ (t : Token). text_eq t.token_id e.token_id) ts

-- One row for a tenant id, for a token id and for a tenant's PAN, one entry for a token id; each token
-- belongs to a tenant that exists, and each entry to a token that exists.
pub record IsSound {C : Type 0} (s : Store C) : Type 0 where
  pub tenants : Distinct same_name s.tenants
  pub token_ids : Distinct same_token_id s.tokens
  pub pans : Distinct same_pan s.tokens
  pub owned : all (has_tenant s.tenants) s.tokens ≡ true
  pub entries : Distinct same_entry s.vault_entries
  pub referred : all (has_token s.tokens) s.vault_entries ≡ true

same_pan_sym : (a b : Token) → same_pan a b ≡ same_pan b a
same_pan_sym a b =
    ground
      (arith, text_eq_sym a.tenant_id b.tenant_id, text_eq_sym a.pan_blind_index b.pan_blind_index)

module _ (w : World) where
  abbrev pub Sound : Store w.redis.Cache → Type 0
  Sound s = IsSound s

  -- A store with the same three tables.
  moved :
      (u v : Store w.redis.Cache)
      → u.tenants ≡ v.tenants
      → u.tokens ≡ v.tokens
      → u.vault_entries ≡ v.vault_entries
      → IsSound u
      → IsSound v
  moved u v a b c h = record {
    tenants = rw (← a) h.tenants;
    token_ids = rw (← b) h.token_ids;
    pans = rw (← b) h.pans;
    owned = rw (← a, ← b) h.owned;
    entries = rw (← c) h.entries;
    referred = rw (← b, ← c) h.referred;
  }

  same : (s : Store w.redis.Cache) → IsSound s → IsSound (tick s)
  same s h = moved s (tick s) refl refl refl h

  -- A change of a token's other columns.
  changed-IsSound :
      (a id : Text) (f : Token → Token) (s : Store w.redis.Cache)
      → ((t : Token) → (f t).token_id ≡ t.token_id)
      → ((t : Token) → (f t).tenant_id ≡ t.tenant_id)
      → ((t : Token) → (f t).pan_blind_index ≡ t.pan_blind_index)
      → IsSound s
      → IsSound (record s { tokens = update (has_token_id a id) f s.tokens })
  changed-IsSound a id f s id_kept tenant_kept index_kept h = record {
    tenants = h.tenants;
    token_ids =
        Distinct-update same_token_id (has_token_id a id) f s.tokens
          (λ t u. ap (text_eq u.token_id) (id_kept t))
          (λ t u. ap (λ x. text_eq x t.token_id) (id_kept u)) h.token_ids;
    pans =
        Distinct-update same_pan (has_token_id a id) f s.tokens
          (λ t u. rw (tenant_kept t, index_kept t) refl)
          (λ t u. rw (tenant_kept u, index_kept u) refl) h.pans;
    owned =
        all-update (has_tenant s.tenants) (has_token_id a id) f s.tokens
          (λ t. rw (tenant_kept t) refl)
        ∙ h.owned;
    entries = h.entries;
    referred =
        all-any-update (λ (e : VaultEntry) (t : Token). text_eq t.token_id e.token_id)
          s.vault_entries (has_token_id a id) f s.tokens
          (λ e t. ap (λ x. text_eq x e.token_id) (id_kept t))
        ∙ h.referred;
  }

  pub update_status-Keeps :
      (a id : Text) → Keeps Sound (Repository.Tokens.update_status w a id TokenStatus.inactive)
  unfolding Repository.Tokens.update_status
  update_status-Keeps a id = Keeps-exec w _ same _ _ λ s _ h. same _ (
      changed-IsSound a id
        (λ t. record t { status = TokenStatus.inactive; updated_at = w.now s.calls }) s (λ t. refl)
        (λ t. refl) (λ t. refl) h)

  insert_token-Keeps : (t : Token) → Keeps Sound (Repository.Tokens.create w t)
  unfolding Repository.Tokens.create
  insert_token-Keeps t = Keeps-exec w _ same _ _ λ s ok h. record {
    tenants = h.tenants;
    token_ids =
        Distinct-append_one same_token_id s.tokens (Repository.Tokens.token_row w t s)
          (λ a b. text_eq_sym b.token_id a.token_id) h.token_ids
          (any-narrower (same_token_id t) (token_clashes t) s.tokens (λ u is. ground arith)
            (ground arith));
    pans =
        Distinct-append_one same_pan s.tokens (Repository.Tokens.token_row w t s) same_pan_sym
          h.pans
          (any-narrower (same_pan t) (token_clashes t) s.tokens (λ u is. ground arith)
            (ground arith));
    owned = ground (
      arith,
      h.owned,
      all-append_one (has_tenant s.tenants) s.tokens (Repository.Tokens.token_row w t s),
    );
    entries = h.entries;
    referred =
        all-any-append (λ (e : VaultEntry) (u : Token). text_eq u.token_id e.token_id)
          s.vault_entries s.tokens _ h.referred;
  }

  insert_entry-Keeps : (e : VaultEntry) → Keeps Sound (Repository.VaultEntries.create w e)
  unfolding Repository.VaultEntries.create
  insert_entry-Keeps e = Keeps-exec w _ same _ _ λ s ok h. record {
    tenants = h.tenants;
    token_ids = h.token_ids;
    pans = h.pans;
    owned = h.owned;
    entries =
        Distinct-append_one same_entry s.vault_entries (Repository.VaultEntries.entry_row w e s)
          (λ a b. text_eq_sym b.token_id a.token_id) h.entries (ground arith);
    referred = ground (
      arith,
      h.referred,
      all-append_one (has_token s.tokens) s.vault_entries (Repository.VaultEntries.entry_row w e s),
    );
  }

  insert_tenant-Keeps : (t : Tenant) → Keeps Sound (Repository.Tenants.create w t)
  unfolding Repository.Tenants.create
  insert_tenant-Keeps t = Keeps-exec w _ same _ _ λ s ok h. record {
    tenants =
        Distinct-append_one same_name s.tenants (Repository.Tenants.tenant_row w t s)
          (λ a b. text_eq_sym b.tenant_id a.tenant_id) h.tenants (ground arith);
    token_ids = h.token_ids;
    pans = h.pans;
    owned =
        all-any-append (λ (u : Token) (a : Tenant). text_eq a.tenant_id u.tenant_id) s.tokens
          s.tenants _ h.owned;
    entries = h.entries;
    referred = h.referred;
  }

  tenant_status-Keeps :
      (a : Text) (st : TenantStatus) → Keeps Sound (Repository.Tenants.update_status w a st)
  unfolding Repository.Tenants.update_status
  tenant_status-Keeps a st = Keeps-exec w _ same _ _ λ s _ h. record {
    tenants =
        Distinct-update same_name (is_named a)
          (λ t. record t { status = st; updated_at = w.now s.calls }) s.tenants (λ t u. refl)
          (λ t u. refl) h.tenants;
    token_ids = h.token_ids;
    pans = h.pans;
    owned =
        all-any-update (λ (u : Token) (t : Tenant). text_eq t.tenant_id u.tenant_id) s.tokens
          (is_named a) (λ t. record t { status = st; updated_at = w.now s.calls }) s.tenants
          (λ u t. refl)
        ∙ h.owned;
    entries = h.entries;
    referred = h.referred;
  }

  pub IsSound-KeptBy : KeptBy w Anyone Sound
  unfolding Repository.Tokens.update_last_used Repository.AuditLog.append
  IsSound-KeptBy = record {
    insert_token = λ t own. insert_token-Keeps t;
    touch_token = λ a id own. Keeps-exec w _ same _ _ λ s _ h. same _ (
        changed-IsSound a id
          (λ t. record t { last_used_at = some (w.now s.calls); updated_at = w.now s.calls }) s
          (λ t. refl) (λ t. refl) (λ t. refl) h);
    insert_entry = λ e own. insert_entry-Keeps e;
    append_audit = λ a b o t actor own. Keeps-exec w _ same _ _ λ s _ h. moved s _ refl refl refl h;
    insert_tenant = λ t admin. insert_tenant-Keeps t;
    set_tenant_status = λ a admin. tenant_status-Keeps a TenantStatus.inactive;
    cache_command = λ s c h. moved s _ refl refl refl h;
    external_call = same;
  }

-- Every run of calls keeps the tables sound, by the keys and references of the migrations for rows that
-- are added, and because no call changes a key column of a row that is there: unique tenant ids, unique token ids, one token for a
-- tenant's PAN, one entry for a token, tokens of tenants that exist and entries of tokens that exist.
pub serve_all-IsSound :
    (w : World) (cfg : TokenizeConfig) (pings : Pings) (calls : List (Call × Request))
    (s : Store w.redis.Cache)
    → IsSound s
    → IsSound (serve_all w cfg pings calls s)
serve_all-IsSound w cfg pings calls s h =
    serve_all-Keeps w Anyone (Sound w) cfg pings (IsSound-KeptBy w) calls s
      (AllAllow-Anyone w _ (update_status-Keeps w) calls) h
