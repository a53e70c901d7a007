-- ===== src/Handler/Detokenize.antt =====
-- internal/handler/detokenize.go: POST /internal/detokenize.
use vaulty.Prelude.{
  Option, none, some, [], ◌∷◌, ◌++◌, Text, text, Bytes, length, take, drop, leb, ltb, if◌then◌else◌,
}
use vaulty.Model.{Token, VaultEntry, AuditOperation, is_active}
use vaulty.Server.{Response, Body, ok, not_found, internal_error}
use vaulty.World.{World}
use vaulty.Store.{
  Handler, Action, ◌>>=◌, ◌>>◌, pure, respond, or_reply, call, require, present, chain, succeed,
}
use vaulty.Auth.{Context}
use vaulty.Crypto.{unwrap_key, decrypt_with_dek}
use vaulty.Cvv.{retrieve_cvv_token}
use vaulty.Repository
use vaulty.Handler.Common.{invalid_json, missing_tenant, audit_entry, log}

module _ (w : World) where
  -- The PAN of an entry, `none` for an error. Without an entry the Go function returns "" and no
  -- error.
  unfoldable pub decrypt_entry : Option VaultEntry → Action w.redis.Cache (Option Text)
  decrypt_entry none = succeed []
  decrypt_entry (some e) =
      chain (unwrap_key w e.dek_encrypted)
        λ dek s. (decrypt_with_dek w (e.pan_ciphertext ++ e.auth_tag) e.iv dek, s)

  unfoldable pub decrypt_pan : Text → Text → Action w.redis.Cache (Option Text)
  unfolding decrypt_entry
  decrypt_pan tenant_id token_id =
      chain (Repository.VaultEntries.find_by_token_id w tenant_id token_id) decrypt_entry

  -- The CVV in a stored value: the key of 32 bytes, the nonce of 12 and the ciphertext. Every failure
  -- is "".
  unfoldable pub open_cvv : Option (Option Bytes) → Text
  open_cvv none = []
  open_cvv (some none) = []
  open_cvv (some (some combined)) =
      if leb (length combined) 32
      then []
      else if ltb (length (drop 32 combined)) 12
      then []
      else elim (decrypt_with_dek w (drop 12 (drop 32 combined)) (take 12 (drop 32 combined))
          (take 32 combined)) [ none ↦ [] | some plaintext ↦ plaintext ]

  unfoldable pub retrieve_cvv : Text → Text → Action w.redis.Cache Text
  retrieve_cvv tenant_id token_id s =
      let (combined, s') = retrieve_cvv_token w tenant_id token_id s in (open_cvv combined, s')

  abbrev pub log_reveal : Context → Text → Text → Action w.redis.Cache (Unit {0})
  log_reveal ctx tenant_id token_id =
      log w
        (audit_entry tenant_id ctx.correlation_id AuditOperation.detokenize token_id (text "proxy"))

  -- The branch for a token that the table holds.
  unfoldable pub reveal_pan : Context → Text → Text → Token → Handler w.redis.Cache Response
  reveal_pan ctx tenant_id token_id token = do
    require (is_active token.status)
        (not_found (text "TOKEN_INACTIVE") (text "Token is inactive") ctx.correlation_id)
    pan ← or_reply (decrypt_pan tenant_id token_id) (internal_error ctx.correlation_id)
    call (Repository.Tokens.update_last_used w tenant_id token_id)
    call (log_reveal ctx tenant_id token_id)
    pure (ok (Body.value pan))

  -- What follows once a CVV was looked for: "" stands for none.
  unfoldable pub answer_cvv : Context → Text → Text → Text → Handler w.redis.Cache Response
  answer_cvv ctx tenant_id token_id [] = respond (
      not_found (text "TOKEN_NOT_FOUND") (text "Token not found, expired, or consumed")
        ctx.correlation_id)
  answer_cvv ctx tenant_id token_id (c ∷ cs) = do
    call (log_reveal ctx tenant_id token_id)
    pure (ok (Body.value (c ∷ cs)))

  unfoldable pub reveal_cvv : Context → Text → Text → Handler w.redis.Cache Response
  reveal_cvv ctx tenant_id token_id = do
    cvv ← call (retrieve_cvv tenant_id token_id)
    answer_cvv ctx tenant_id token_id cvv

  unfoldable pub reveal : Context → Text → Text → Option Token → Handler w.redis.Cache Response
  reveal ctx tenant_id token_id (some token) = reveal_pan ctx tenant_id token_id token
  reveal ctx tenant_id token_id none = reveal_cvv ctx tenant_id token_id

  -- DetokenizeHandler.ServeHTTP; the decoded body is its token.
  unfoldable pub detokenize : Context → Option Text → Handler w.redis.Cache Response
  detokenize ctx decoded = do
    tenant ← present ctx.tenant (missing_tenant ctx.correlation_id)
    token_id ← present decoded (invalid_json ctx.correlation_id)
    found ←
        or_reply (Repository.Tokens.find_by_token_id w tenant.tenant_id token_id)
          (internal_error ctx.correlation_id)
    reveal ctx tenant.tenant_id token_id found
