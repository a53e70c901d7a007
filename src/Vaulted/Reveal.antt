-- ===== src/Vaulted/Reveal.antt =====
-- A vaulted token is revealed.
use vaulty.Prelude.{
  ℕ, ◌+◌, true, none, some, ◌≡◌, ◌⊎◌, inl, inr, Text, arith, Bool-cases, Option-cases,
}
use vaulty.Model.{Token, TokenStatus, Tenant}
use vaulty.Server.{Body, ok, internal_error}
use vaulty.World.{World}
use vaulty.Store.{Store, response_of, ◌>>=◌, chain, succeed}
use vaulty.Repository
use vaulty.Repository.Rows.{query}
use vaulty.Auth.{Context}
use vaulty.Crypto
use vaulty.Handler.Detokenize.{decrypt_pan, reveal_pan, reveal, detokenize}
use vaulty.Vaulted.{IsVaulted}

module _ (w : World) (tenant_id token_id pan : Text) (s : Store w.redis.Cache)
    (v : IsVaulted w tenant_id token_id pan s) where
  -- The n-th call, the search for the entry, failed, or KMS did not unwrap the entry's key.
  abbrev pub DecryptFault : ℕ → Type 0
  DecryptFault n = (w.db_fails n ≡ true) ⊎ (w.decrypt (n + 1) v.entry.dek_encrypted ≡ none)

  -- The search for the token failed, or the decryption that follows it.
  abbrev pub Fault : Type 0
  Fault = (w.db_fails s.calls ≡ true) ⊎ DecryptFault (s.calls + 1)

  -- decryptPAN returns the PAN, or an error because a call failed.
  decrypt_pan-eq :
      (n : ℕ)
      → let t : Store w.redis.Cache = record s { calls = n } in
        (decrypt_pan w tenant_id token_id t).0 ≡ some pan
        ⊎ ((decrypt_pan w tenant_id token_id t).0 ≡ none) × DecryptFault n
  unfolding decrypt_pan Repository.VaultEntries.find_by_token_id query chain succeed
      Crypto.unwrap_key Crypto.decrypt_with_dek
  decrypt_pan-eq n = elim (Bool-cases (w.db_fails n)) [
    | inl down ↦ inr (ground arith, inl down)
    | inr up ↦ elim (Option-cases (w.decrypt (n + 1) v.entry.dek_encrypted)) [
      | inl kept ↦ inr (ground (arith, v.entry_found), inr kept)
      | inr (dek, got) ↦ inl (ground (arith, v.entry_found, v.opens (n + 1) dek got))
    ]
  ]

  reveal_pan-eq :
      (ctx : Context) (n : ℕ) (token : Token)
      → token.status ≡ TokenStatus.active
      → let t : Store w.redis.Cache = record s { calls = n } in
        (response_of (reveal_pan w ctx tenant_id token_id token t).0 ≡ ok (Body.value pan))
        ⊎ (response_of (reveal_pan w ctx tenant_id token_id token t).0
            ≡ internal_error ctx.correlation_id)
          × DecryptFault n
  unfolding reveal_pan ◌>>=◌
  reveal_pan-eq ctx n token h = elim (decrypt_pan-eq n) [
    | inl done ↦ inl (ground arith)
    | inr (failed, why) ↦ inr (ground arith, why)
  ]

  -- Asked for a vaulted token by its tenant, detokenize answers 200 with the PAN, or 500, and 500
  -- only if a statement to the database failed or KMS did not unwrap the key.
  pub detokenize_vaulted :
      (ctx : Context) (tenant : Tenant)
      → ctx.tenant ≡ some tenant
      → tenant.tenant_id ≡ tenant_id
      → (response_of (detokenize w ctx (some token_id) s).0 ≡ ok (Body.value pan))
        ⊎ (response_of (detokenize w ctx (some token_id) s).0 ≡ internal_error ctx.correlation_id)
          × Fault
  unfolding detokenize ◌>>=◌ Repository.Tokens.find_by_token_id query reveal
  detokenize_vaulted ctx tenant has same = elim (Bool-cases (w.db_fails s.calls)) [
    | inl down ↦ inr (ground arith, inl down)
    | inr up ↦ elim (reveal_pan-eq ctx (s.calls + 1) v.token v.active) [
      | inl done ↦ inl (ground (arith, v.found))
      | inr (failed, why) ↦ inr (ground (arith, v.found), inr why)
    ]
  ]
