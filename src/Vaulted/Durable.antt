-- ===== src/Vaulted/Durable.antt =====
-- A vaulted token stays vaulted through every call but its own deactivation.
use vaulty.Prelude.{
  ℕ, Bool, true, false, Option, none, some, List, [], ◌∷◌, ◌≡◌, ◌≢◌, refl, Text, text_eq_iff, find,
  find_sound, update, ap, ◌∙◌, find-append_some, if◌then◌else◌, arith,
}
use vaulty.Model.{Token, TokenStatus, VaultEntry}
use vaulty.World.{World}
use vaulty.Store.{Store, tick}
use vaulty.Store.Keeps.{Keeps}
use vaulty.Repository.Keeps.{Keeps-exec}
use vaulty.Repository
use vaulty.Repository.Tokens.{has_token_id}
use vaulty.Repository.VaultEntries.{is_entry_of}
use vaulty.Handler.Keeps.{KeptBy}
use vaulty.Routes.Keeps.{Anyone}
use vaulty.Vaulted.{IsVaulted}

abbrev pub changed {ℓ} : {A : Type ℓ} → (A → Bool) → (A → A) → Option A → Option A
changed q f none = none
changed q f (some a) = some (if q a then f a else a)

-- A change that the search does not read is a change of what is found.
pub find-update {ℓ} :
    {A : Type ℓ} (p q : A → Bool) (f : A → A) (xs : List A)
    → ((a : A) → p (f a) ≡ p a)
    → find p (update q f xs) ≡ changed q f (find p xs)
find-update p q f [] h = refl
find-update p q f (x ∷ xs) h = ground (arith, h x, find-update p q f xs h)

module _ (w : World) (tenant_id token_id pan : Text) where
  -- What the predicate reads: the two tables.
  pub same_tables :
      (s t : Store w.redis.Cache)
      → s.tokens ≡ t.tokens
      → s.vault_entries ≡ t.vault_entries
      → IsVaulted w tenant_id token_id pan s
      → IsVaulted w tenant_id token_id pan t
  same_tables s t tokens entries v = record {
    token = v.token;
    found = rw (← tokens) v.found;
    active = v.active;
    entry = v.entry;
    entry_found = rw (← entries) v.entry_found;
    opens = v.opens;
    issued = v.issued;
  }

  failed :
      (s : Store w.redis.Cache)
      → IsVaulted w tenant_id token_id pan s
      → IsVaulted w tenant_id token_id pan (tick s)
  failed s v = same_tables s (tick s) refl refl v

  insert_token-Keeps :
      (t : Token) → Keeps (IsVaulted w tenant_id token_id pan) (Repository.Tokens.create w t)
  unfolding Repository.Tokens.create
  insert_token-Keeps t = Keeps-exec w _ failed _ _ λ s _ v. record {
    token = v.token;
    found = find-append_some (has_token_id tenant_id token_id) s.tokens _ v.found;
    active = v.active;
    entry = v.entry;
    entry_found = v.entry_found;
    opens = v.opens;
    issued = v.issued;
  }

  insert_entry-Keeps :
      (e : VaultEntry)
      → Keeps (IsVaulted w tenant_id token_id pan) (Repository.VaultEntries.create w e)
  unfolding Repository.VaultEntries.create
  insert_entry-Keeps e = Keeps-exec w _ failed _ _ λ s _ v. record {
    token = v.token;
    found = v.found;
    active = v.active;
    entry = v.entry;
    entry_found = find-append_some (is_entry_of tenant_id token_id) s.vault_entries _ v.entry_found;
    opens = v.opens;
    issued = v.issued;
  }

  touch : ℕ → Token → Token
  touch now t = record t { last_used_at = some now; updated_at = now }

  touched_active :
      (b : Bool) (now : ℕ) (t : Token)
      → t.status ≡ TokenStatus.active
      → (if b then touch now t else t).status ≡ TokenStatus.active
  unfolding touch
  touched_active true now t h = h
  touched_active false now t h = h

  touch-Keeps :
      (a b : Text)
      → Keeps (IsVaulted w tenant_id token_id pan) (Repository.Tokens.update_last_used w a b)
  unfolding Repository.Tokens.update_last_used touch
  touch-Keeps a b = Keeps-exec w _ failed _ _ λ s _ v. record {
    token = if has_token_id a b v.token then touch (w.now s.calls) v.token else v.token;
    found =
        find-update (has_token_id tenant_id token_id) (has_token_id a b) (touch (w.now s.calls))
          s.tokens (λ t. refl)
        ∙ ap (changed (has_token_id a b) (touch (w.now s.calls))) v.found;
    active = touched_active (has_token_id a b v.token) (w.now s.calls) v.token v.active;
    entry = v.entry;
    entry_found = v.entry_found;
    opens = v.opens;
    issued = v.issued;
  }

  passed_over :
      (other : Text)
      → other ≢ token_id
      → (a : Text) (t : Token) → has_token_id tenant_id token_id t ≡ true
      → has_token_id a other t ≡ false
  passed_over other ne a t h =
      ground (arith, text_eq_iff t.token_id token_id, text_eq_iff t.token_id other)

  -- A token of another id may be deactivated, for any tenant.
  pub deactivate_other-Keeps :
      (other : Text)
      → other ≢ token_id
      → (a : Text)
      → Keeps
          (IsVaulted w tenant_id token_id pan)
          (Repository.Tokens.update_status w a other TokenStatus.inactive)
  unfolding Repository.Tokens.update_status
  deactivate_other-Keeps other ne a = Keeps-exec w _ failed _ _ λ s _ v. record {
    token = v.token;
    found =
        find-update (has_token_id tenant_id token_id) (has_token_id a other)
          (λ t. record t { status = TokenStatus.inactive; updated_at = w.now s.calls }) s.tokens
          (λ t. refl)
        ∙ rw v.found (rw (passed_over other ne a v.token (find_sound _ s.tokens v.found)) refl);
    active = v.active;
    entry = v.entry;
    entry_found = v.entry_found;
    opens = v.opens;
    issued = v.issued;
  }

  pub IsVaulted-KeptBy : KeptBy w Anyone (IsVaulted w tenant_id token_id pan)
  unfolding Repository.AuditLog.append Repository.Tenants.create Repository.Tenants.update_status
  IsVaulted-KeptBy = record {
    insert_token = λ t own. insert_token-Keeps t;
    touch_token = λ a b own. touch-Keeps a b;
    insert_entry = λ e own. insert_entry-Keeps e;
    append_audit =
        λ a b o t actor own. Keeps-exec w _ failed _ _ (λ s _ v. same_tables s _ refl refl v);
    insert_tenant = λ t admin. Keeps-exec w _ failed _ _ (λ s _ v. same_tables s _ refl refl v);
    set_tenant_status = λ a admin. Keeps-exec w _ failed _ _ (λ s _ v. same_tables s _ refl refl v);
    cache_command = λ s c v. same_tables s _ refl refl v;
    external_call = failed;
  }
