-- ===== src/Vaulted/Issue.antt =====
-- A new token is vaulted.
use vaulty.Prelude.{
  ℕ, Bool, true, false, some, List, [], ◌∷◌, ◌++◌, ◌-◌, ◌≡◌, refl, ◌∙◌, Text, Bytes, text_eq_refl,
  find, any, find-append, length, take-append-drop, find-none_of_any, arith,
}
use vaulty.Model.{Token, Tenant, VaultEntry}
use vaulty.World.{World, CryptoLaws}
use vaulty.Store.{Store, go, succeed}
use vaulty.Store.Invert.{bind-go, or_reply-go, pure-go, chain-some}
use vaulty.Repository
use vaulty.Repository.Tokens.{has_token_id, token_clashes, token_row, token_allowed}
use vaulty.Repository.VaultEntries.{is_entry_of, entry_clashes, entry_row, entry_allowed}
use vaulty.Repository.Invert.{exec-some}
use vaulty.Auth.{Context}
use vaulty.Crypto
use vaulty.Handler.Tokenize.{TokenizeConfig, encrypt_pan, create_pan_token, new_token, new_entry}
use vaulty.Vaulted.{IsVaulted}

-- The row that was just inserted is the one that is found.
find_inserted {ℓ} :
    {A : Type ℓ} (p clash : A → Bool) (xs : List A) (row : A)
    → ((a : A) → p a ≡ true → clash a ≡ true)
    → any clash xs ≡ false
    → p row ≡ true
    → find p (xs ++ row ∷ []) ≡ some row
find_inserted p clash xs row imp free h =
    find-append p xs (row ∷ []) (find-none_of_any p clash xs imp free) ∙ rw h

module _ (w : World) (laws : CryptoLaws w) (cfg : TokenizeConfig) where
  encrypted :
      (plain dek : Bytes) (s : Store w.redis.Cache) {ct iv : Bytes} {t : Store w.redis.Cache}
      → Crypto.encrypt_with_dek w plain dek s ≡ (some (ct, iv), t)
      → w.gcm_seal dek iv plain ≡ some ct
  unfolding Crypto.encrypt_with_dek
  encrypted plain dek s {ct} {iv} h = ground arith

  generated :
      (arn : Text) (s : Store w.redis.Cache) {key : Bytes × Bytes} {t : Store w.redis.Cache}
      → Crypto.generate_data_key_with_arn w arn s ≡ (some key, t)
      → w.generate_data_key s.calls arn ≡ some key
  unfolding Crypto.generate_data_key_with_arn
  generated arn s h = cc

  sealed_opens :
      (pan arn : Text) (n : ℕ) (s : Store w.redis.Cache)
      {ct iv wrapped dek ct' iv' wrapped' : Bytes} {t : Store w.redis.Cache}
      → w.generate_data_key n arn ≡ some (dek, wrapped)
      → w.gcm_seal dek iv pan ≡ some ct
      → succeed {C = w.redis.Cache} {A = Bytes × Bytes × Bytes} (ct, iv, wrapped) s
        ≡ (some (ct', iv', wrapped'), t)
      → (m : ℕ) (out : Bytes) → w.decrypt m wrapped' ≡ some out
      → w.gcm_open out iv' ct' ≡ some pan
  unfolding succeed
  sealed_opens pan arn n s {ct} {iv} {wrapped} {dek} {ct'} {iv'} {wrapped'} made closed same m out
        unwrapped =
      let e : out ≡ dek =
        laws.decrypt-generate n m arn made (rw (let q : wrapped ≡ wrapped' = cc in q) unwrapped) in
      rw (e, (let q : iv' ≡ iv = cc in q), (let q : ct' ≡ ct = cc in q))
        (laws.open-seal dek iv pan closed)

  -- What encryptPAN returned opens to the PAN again.
  encrypt_pan_opens :
      (pan arn : Text) (s : Store w.redis.Cache) {ct iv wrapped : Bytes} {t : Store w.redis.Cache}
      → encrypt_pan w cfg pan arn s ≡ (some (ct, iv, wrapped), t)
      → (n : ℕ) (dek : Bytes) → w.decrypt n wrapped ≡ some dek
      → w.gcm_open dek iv ct ≡ some pan
  unfolding encrypt_pan
  encrypt_pan_opens pan arn s h = chain-some _ _ s h λ key s₁ made h₁.
      chain-some _ _ s₁ h₁ λ sealed s₂ done h₂.
        sealed_opens pan arn s.calls s₂ (generated arn s made) (encrypted pan key.0 s₁ done) h₂

  -- The wrapped key that encryptPAN returned is one that KMS made.
  encrypt_pan_issued :
      (pan arn : Text) (s : Store w.redis.Cache) {ct iv wrapped : Bytes} {t : Store w.redis.Cache}
      → encrypt_pan w cfg pan arn s ≡ (some (ct, iv, wrapped), t)
      → (n : ℕ) × (key : Text) × (dek : Bytes) × (w.generate_data_key n key ≡ some (dek, wrapped))
  unfolding encrypt_pan succeed
  encrypt_pan_issued pan arn s {ct} {iv} {wrapped} h = chain-some _ _ s h λ key s₁ made h₁.
      chain-some _ _ s₁ h₁ λ sealed s₂ done h₂.
        let e : key.1 ≡ wrapped = cc in (s.calls, arn, key.0, rw (← e) (generated arn s made))

  token_inserted :
      (t : Token) (s : Store w.redis.Cache) {u : Unit {0}} {r : Store w.redis.Cache}
      → Repository.Tokens.create w t s ≡ (some u, r)
      → find (has_token_id t.tenant_id t.token_id) r.tokens ≡ some (token_row w t s)
  unfolding Repository.Tokens.create
  token_inserted t s h =
      let (allowed, same) = exec-some w _ _ s h in
      rw same (
        find_inserted (has_token_id t.tenant_id t.token_id) (token_clashes t) s.tokens
          (token_row w t s) (λ a q. ground arith) (ground arith)
          (ground (arith, text_eq_refl t.tenant_id, text_eq_refl t.token_id)))

  entry_inserted :
      (e : VaultEntry) (s : Store w.redis.Cache) {u : Unit {0}} {r : Store w.redis.Cache}
      → Repository.VaultEntries.create w e s ≡ (some u, r)
      → (find (is_entry_of e.tenant_id e.token_id) r.vault_entries ≡ some (entry_row w e s))
        × (r.tokens ≡ s.tokens)
  unfolding Repository.VaultEntries.create
  entry_inserted e s h =
      let (allowed, same) = exec-some w _ _ s h in
      (
        rw same (
            find_inserted (is_entry_of e.tenant_id e.token_id) (entry_clashes e) s.vault_entries
              (entry_row w e s) (λ a q. ground arith) (ground arith)
              (ground (arith, text_eq_refl e.tenant_id, text_eq_refl e.token_id))),
        rw same refl,
      )

  -- A token that was created is vaulted.
  pub create_pan_token-IsVaulted :
      (ctx : Context) (tenant : Tenant) (pan index : Text) (s : Store w.redis.Cache)
      {token_id : Text} {t : Store w.redis.Cache}
      → create_pan_token w cfg ctx tenant pan index s ≡ (go token_id, t)
      → IsVaulted w tenant.tenant_id token_id pan t
  unfolding create_pan_token
  create_pan_token-IsVaulted ctx tenant pan index s h = bind-go _ _ s h λ id s₁ _ h₁.
      bind-go _ _ s₁ h₁ λ sealed s₂ closed h₂. bind-go _ _ s₂ h₂ λ u s₃ stored h₃.
        bind-go _ _ s₃ h₃ λ v s₄ kept h₄.
          let (same_id, same_store) = pure-go id s₄ h₄ in
          let (entry_found, same_tokens) =
            entry_inserted (new_entry w cfg tenant id sealed) s₃ (or_reply-go _ _ s₃ kept) in
          rw (← same_id, ← same_store)
            (record {
              token = token_row w (new_token w cfg tenant index id) s₂;
              found =
                  rw same_tokens (
                    token_inserted (new_token w cfg tenant index id) s₂
                      (or_reply-go _ _ s₂ stored));
              active = refl;
              entry = entry_row w (new_entry w cfg tenant id sealed) s₃;
              entry_found = entry_found;
              issued = encrypt_pan_issued pan tenant.kms_key_arn s₁ (or_reply-go _ _ s₁ closed);
              opens = λ n dek unwrapped. rw (take-append-drop (length sealed.0 - 16) sealed.0) (
                  encrypt_pan_opens pan tenant.kms_key_arn s₁ (or_reply-go _ _ s₁ closed) n dek
                    unwrapped);
            })
