-- ===== src/Handler/Tokenize.antt =====
-- internal/handler/tokenize.go: POST /vault/tokenize.
use vaulty.Prelude.{
  ℤ, ◌-◌, Bool, true, false, ◌||◌, Option, none, some, [], ◌++◌, Text, text, text_eq, Bytes, length,
  take, drop, is_some, if◌then◌else◌,
}
use vaulty.Json.{Json, str, Fields, lookup, put}
use vaulty.Model.{Token, TokenStatus, Tenant, VaultEntry, AuditOperation}
use vaulty.Server.{Response, Body, bad_request, internal_error, service_unavailable}
use vaulty.World.{World}
use vaulty.Store.{
  Handler, Action, ◌>>=◌, ◌>>◌, pure, or_reply, call, require, present, tick, chain, succeed,
}
use vaulty.Auth.{Context}
use vaulty.Card.{validate_pan, validate_cvv}
use vaulty.Crypto.{
  hex, compute_blind_index, generate_data_key_with_arn, encrypt_with_dek, generate_dek,
}
use vaulty.Cvv.{store_cvv_token, invalidate_previous_cvv_token}
use vaulty.Repository
use vaulty.Handler.Common.{invalid_json, missing_tenant, audit_entry, log}

-- The handler's configuration; its default KMS key is stored and never read.
pub record TokenizeConfig : Type 0 where
  pub hmac_key : Bytes
  pub cvv_ttl : ℤ

abbrev pub as_string : Json → Option Text
as_string (str t) = some t
as_string _ = none

abbrev pub pan_key : Text
pan_key = text "pan"

abbrev pub cvv_field : Text
cvv_field = text "cvv"

module _ (w : World) (cfg : TokenizeConfig) where
  unfoldable pub generate_token_id : Action w.redis.Cache (Option Text)
  generate_token_id s = elim (w.rand_read s.calls 20) [
    | none ↦ (none, tick s)
    | some b ↦ (some (text "tok_" ++ hex b), tick s)
  ]

  -- Ciphertext, nonce and wrapped key.
  unfoldable pub encrypt_pan : Text → Text → Action w.redis.Cache (Option (Bytes × Bytes × Bytes))
  encrypt_pan pan key_arn =
      chain (generate_data_key_with_arn w key_arn)
        λ key. chain (encrypt_with_dek w pan key.0) λ sealed. succeed (sealed.0, sealed.1, key.1)

  unfoldable pub store_cvv : Text → Text → Text → Action w.redis.Cache (Option (Unit {0}))
  store_cvv tenant_id cvv_token_id cvv = chain (generate_dek w) λ dek.
      chain (encrypt_with_dek w cvv dek) λ sealed.
        store_cvv_token w tenant_id cvv_token_id (dek ++ (sealed.1 ++ sealed.0)) cfg.cvv_ttl

  abbrev pub log_audit : Context → Text → Text → Action w.redis.Cache (Unit {0})
  log_audit ctx tenant_id token_id =
      log w (
        audit_entry tenant_id ctx.correlation_id AuditOperation.tokenize token_id
          (text "tokenizer"))

  abbrev pub new_token : Tenant → Text → Text → Token
  new_token tenant index token_id = record {
    id = [];
    tenant_id = tenant.tenant_id;
    token_id = token_id;
    pan_blind_index = index;
    status = TokenStatus.active;
    expiry_month = 0;
    expiry_year = 0;
    created_at = 0;
    updated_at = 0;
    last_used_at = none;
  }

  -- The last 16 bytes that the cipher returns are the tag.
  abbrev pub new_entry : Tenant → Text → Bytes × Bytes × Bytes → VaultEntry
  new_entry tenant token_id (ciphertext, iv, wrapped) = record {
    id = [];
    tenant_id = tenant.tenant_id;
    token_id = token_id;
    pan_ciphertext = take (length ciphertext - 16) ciphertext;
    iv = iv;
    auth_tag = drop (length ciphertext - 16) ciphertext;
    dek_encrypted = wrapped;
    kms_key_id = tenant.kms_key_arn;
    created_at = 0;
  }

  -- The branch for a PAN that the tenant has no token for.
  unfoldable pub create_pan_token : Context → Tenant → Text → Text → Handler w.redis.Cache Text
  create_pan_token ctx tenant pan index = do
    token_id ← or_reply generate_token_id (internal_error ctx.correlation_id)
    sealed ←
        or_reply (encrypt_pan pan tenant.kms_key_arn)
          (service_unavailable (text "Encryption service unavailable") ctx.correlation_id)
    or_reply (Repository.Tokens.create w (new_token tenant index token_id))
        (internal_error ctx.correlation_id)
    or_reply (Repository.VaultEntries.create w (new_entry tenant token_id sealed))
        (internal_error ctx.correlation_id)
    pure token_id

  -- The token id and whether it is new: the token that was found, or a new one.
  unfoldable pub reuse_or_create :
      Context → Tenant → Text → Text → Option Token → Handler w.redis.Cache (Text × Bool)
  reuse_or_create ctx tenant pan index (some t) = pure (t.token_id, false)
  reuse_or_create ctx tenant pan index none = do
    token_id ← create_pan_token ctx tenant pan index
    pure (token_id, true)

  unfoldable pub token_of_pan : Context → Tenant → Text → Handler w.redis.Cache (Text × Bool)
  token_of_pan ctx tenant pan = do
    let index = compute_blind_index w tenant.tenant_id pan cfg.hmac_key
    existing ←
        or_reply (Repository.Tokens.find_by_blind_index w tenant.tenant_id index)
          (internal_error ctx.correlation_id)
    reuse_or_create ctx tenant pan index existing

  -- The PAN's part: the token id, "" without a PAN, whether it is new, and the body with the token.
  unfoldable pub process_pan :
      Context → Tenant → Fields → Option Json → Handler w.redis.Cache (Text × Bool × Fields)
  process_pan ctx tenant body none = pure ([], false, body)
  process_pan ctx tenant body (some value) = do
    pan ←
        present (as_string value)
          (bad_request (text "INVALID_PAN") (text "PAN must be a string") ctx.correlation_id)
    require (validate_pan pan)
        (bad_request (text "INVALID_PAN") (text "PAN failed Luhn validation") ctx.correlation_id)
    found ← token_of_pan ctx tenant pan
    call (log_audit ctx tenant.tenant_id found.0)
    pure (found.0, found.1, put pan_key (str found.0) body)

  -- `if panTokenID != ""`; the error of the call is dropped.
  unfoldable pub invalidate_if_associated : Text → Text → Text → Action w.redis.Cache (Unit {0})
  invalidate_if_associated tenant_id pan_token_id cvv_token_id s =
      let s' =
        (invalidate_previous_cvv_token w tenant_id pan_token_id cvv_token_id cfg.cvv_ttl s).1 in
      (tt, if text_eq pan_token_id [] then s else s')

  -- The CVV's part, which is given the PAN's token id: the body with the token.
  unfoldable pub process_cvv :
      Context → Tenant → Text → Fields → Option Json → Handler w.redis.Cache Fields
  process_cvv ctx tenant pan_token_id body none = pure body
  process_cvv ctx tenant pan_token_id body (some value) = do
    cvv ←
        present (as_string value)
          (bad_request (text "INVALID_CVV") (text "CVV must be a string") ctx.correlation_id)
    require (validate_cvv cvv)
        (bad_request (text "INVALID_CVV") (text "CVV must be 3-4 digits") ctx.correlation_id)
    cvv_token_id ← or_reply generate_token_id (internal_error ctx.correlation_id)
    or_reply (store_cvv tenant.tenant_id cvv_token_id cvv) (internal_error ctx.correlation_id)
    call (invalidate_if_associated tenant.tenant_id pan_token_id cvv_token_id)
    call (log_audit ctx tenant.tenant_id cvv_token_id)
    pure (put cvv_field (str cvv_token_id) body)

  -- TokenizeHandler.ServeHTTP
  unfoldable pub tokenize : Context → Option Fields → Handler w.redis.Cache Response
  tokenize ctx decoded = do
    body ← present decoded (invalid_json ctx.correlation_id)
    require (is_some (lookup pan_key body) || is_some (lookup cvv_field body)) (
        bad_request (text "NO_SENSITIVE_FIELDS")
          (text "Request must contain at least one of: pan, cvv") ctx.correlation_id)
    tenant ← present ctx.tenant (missing_tenant ctx.correlation_id)
    pan ← process_pan ctx tenant body (lookup pan_key body)
    body' ← process_cvv ctx tenant pan.0 pan.2 (lookup cvv_field body)
    pure (record { status = if pan.1 then 201 else 200; body = Body.echo body' })
