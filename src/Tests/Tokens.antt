-- ===== src/Tests/Tokens.antt =====
-- Tokens that are deactivated, used up and used again.
use vaulty.Prelude.{
  Option, true, false, none, some, [], ◌∷◌, ◌++◌, ◌≡◌, ◌⊎◌, List, refl, text, text_eq, replicate,
  find, if◌then◌else◌,
}
use vaulty.Json.{Fields, field, end, str, num, lookup, put}
use vaulty.Model.{Token, TokenStatus, Tenant, TenantStatus}
use vaulty.Server.{Response, Body, ok, not_found, internal_error}
use vaulty.Store.{◌>>=◌, chain, succeed, Store, Outcome, go, response_of}
use vaulty.Auth
use vaulty.Auth.{Request, starts_with}
use vaulty.Card.{validate_pan}
use vaulty.Crypto.{compute_blind_index, hex}
use vaulty.Cvv.{store_cvv_token, cvv_token_key, retrieve_cvv_token}
use vaulty.Pattern.{tenant_id_pattern}
use vaulty.Repository
use vaulty.Repository.Rows.{query, exec}
use vaulty.Repository.Tenants.{is_named}
use vaulty.Handler.Common.{log}
use vaulty.Handler.Tokenize.{store_cvv, tokenize, pan_key}
use vaulty.Handler.Detokenize.{
  detokenize, reveal, reveal_pan, reveal_cvv, retrieve_cvv, answer_cvv, open_cvv, decrypt_pan,
}
use vaulty.Handler
use vaulty.Handler.TokenManage.{get_status, pan_status}
use vaulty.Crypto.{decrypt_with_dek, decrypt_bytes}
use vaulty.Routes.{Call, vault, status_call, detokenize_call, health_call, answer, serve_vault}
use vaulty.Routes.Keeps.{serve_all}
use vaulty.Routes.Guards.{vault_call_allowed, detokenize_call_names_proxy, IsProxy}
use vaulty.Vaulted.Deactivated.{deactivate_then_detokenize}
use vaulty.Crypto
use vaulty.World.{Reply}
use vaulty.Vaulted.CvvRoundTrip.{store_then_retrieve_cvv}
use vaulty.Vaulted.SingleUse.{cvv_revealed_once}
use vaulty.Vaulted.Reuse.{tokenize_again}
use vaulty.Tests.World.{
  calm, calm_laws, map_redis, map_redis_laws, merchant, fresh, cfg, pings, ctx, visa,
}

abbrev pub known : Token
known = record {
  id = [];
  tenant_id = text "merchant_1";
  token_id = text "tok_1";
  pan_blind_index = compute_blind_index calm (text "merchant_1") visa cfg.hmac_key;
  status = TokenStatus.active;
  expiry_month = 0;
  expiry_year = 0;
  created_at = 0;
  updated_at = 0;
  last_used_at = none;
}

abbrev pub stocked : Store map_redis.Cache
stocked = record fresh { tokens = known ∷ [] }

abbrev caller : Request
caller = record {
  authorization = text "Bearer proxy:x";
  x_tenant_id = text "merchant_1";
  x_correlation_id = text "c";
  peer_common_name = none;
}

abbrev ended : Outcome Response × Store map_redis.Cache
ended = Handler.TokenManage.deactivate calm ctx (text "tok_1") stocked

deactivated : ended ≡ (go (response_of ended.0), ended.1)
unfolding Handler.TokenManage.deactivate ◌>>=◌ Repository.Tokens.find_by_token_id query text_eq
    Repository.Tokens.update_status exec log Repository.AuditLog.append
deactivated = refl

abbrev calls : List (Call × Request)
calls = (health_call, caller) ∷ (vault (status_call (text "tok_1")), caller) ∷ []

deactivate_then_detokenize_example :
    (let later = serve_all calm cfg pings calls ended.1 in
      let answer = response_of (detokenize calm ctx (some (text "tok_1")) later).0 in
      (answer ≡ not_found (text "TOKEN_INACTIVE") (text "Token is inactive") (text "c"))
      ⊎ (answer ≡ internal_error (text "c")) × (false ≡ true))
deactivate_then_detokenize_example =
    deactivate_then_detokenize calm cfg pings ctx merchant (text "tok_1") stocked refl deactivated
      calls ctx merchant refl refl

-- A stored CVV: a key, a nonce and the ciphertext with its tag.
abbrev with_cvv : Store map_redis.Cache
with_cvv = record fresh {
  cache = λ k.
      if text_eq k (cvv_token_key (text "merchant_1") (text "tok_c"))
      then some (replicate 44 0 ++ (text "123" ++ replicate 16 0))
      else none;
}

abbrev revealed : Outcome Response × Store map_redis.Cache
revealed = detokenize calm ctx (some (text "tok_c")) with_cvv

cvv_revealed : revealed ≡ (go (ok (Body.value (text "123"))), revealed.1)
unfolding detokenize ◌>>=◌ Repository.Tokens.find_by_token_id query text_eq reveal reveal_cvv
    retrieve_cvv retrieve_cvv_token cvv_token_key open_cvv decrypt_with_dek decrypt_bytes answer_cvv
    log Repository.AuditLog.append exec
cvv_revealed = refl

cvv_revealed_once_example :
    (let answer = response_of (detokenize calm ctx (some (text "tok_c")) revealed.1).0 in
      (answer
        ≡ not_found
            (text "TOKEN_NOT_FOUND")
            (text "Token not found, expired, or consumed")
            (text "c"))
      ⊎ (answer ≡ internal_error (text "c")) × (false ≡ true))
cvv_revealed_once_example =
    cvv_revealed_once calm map_redis_laws ctx ctx merchant merchant (text "tok_c") with_cvv refl
      refl refl refl cvv_revealed

abbrev again : Fields
again = field pan_key (str visa) (field (text "amount") (num (text "12")) end)

tokenize_again_example :
    (let (o, t) = tokenize calm cfg ctx (some again) stocked in
      (response_of o ≡ ok (Body.echo (put pan_key (str (text "tok_1")) again)))
      × (t.tokens ≡ known ∷ [])
      × (t.vault_entries ≡ []))
unfolding lookup text_eq validate_pan compute_blind_index hex
tokenize_again_example =
    tokenize_again calm cfg ctx merchant visa again known stocked refl refl refl refl refl refl

abbrev asked : Outcome Response × Store map_redis.Cache
asked = answer calm cfg pings (vault (status_call (text "tok_1"))) caller stocked

asked_status : asked ≡ (go (response_of asked.0), asked.1)
unfolding answer ◌>>=◌ Auth.correlation_id_middleware text_eq Auth.bearer_auth Auth.require_tenant
    tenant_id_pattern Repository.Tenants.find_by_tenant_id query serve_vault get_status
    Repository.Tokens.find_by_token_id pan_status log Repository.AuditLog.append exec
asked_status = refl

vault_call_allowed_example :
    (starts_with (text "Bearer ") (text "Bearer proxy:x") ≡ true)
    × (tenant_id_pattern (text "merchant_1") ≡ true)
    × ((tenant : Tenant) × (find (is_named (text "merchant_1")) (merchant ∷ []) ≡ some tenant)
        × (tenant.status ≡ TenantStatus.active))
vault_call_allowed_example =
    vault_call_allowed calm cfg pings (status_call (text "tok_1")) caller stocked asked_status

abbrev from_proxy : Outcome Response × Store map_redis.Cache
from_proxy = answer calm cfg pings (vault (detokenize_call (some (text "tok_1")))) caller stocked

proxy_served : from_proxy ≡ (go (response_of from_proxy.0), from_proxy.1)
unfolding answer ◌>>=◌ Auth.correlation_id_middleware text_eq Auth.bearer_auth Auth.require_tenant
    tenant_id_pattern Repository.Tenants.find_by_tenant_id query serve_vault Auth.require_mtls_cert
    detokenize Repository.Tokens.find_by_token_id reveal reveal_pan decrypt_pan chain succeed
    Repository.VaultEntries.find_by_token_id Repository.Tokens.update_last_used exec log
    Repository.AuditLog.append
proxy_served = refl

detokenize_call_names_proxy_example : IsProxy caller
detokenize_call_names_proxy_example =
    detokenize_call_names_proxy calm cfg pings (some (text "tok_1")) caller stocked proxy_served

abbrev kept : Option (Unit {0}) × Store map_redis.Cache
kept = store_cvv calm cfg (text "merchant_1") (text "tok_c") (text "123") fresh

cvv_kept : kept ≡ (some tt, kept.1)
unfolding store_cvv chain Crypto.generate_dek Crypto.encrypt_with_dek store_cvv_token
cvv_kept = refl

store_then_retrieve_cvv_example :
    ((retrieve_cvv calm (text "merchant_1") (text "tok_c") kept.1).0 ≡ text "123")
    ⊎ ((map_redis.get_del (cvv_token_key (text "merchant_1") (text "tok_c")) kept.1.cache).0
        ≡ Reply.fault)
store_then_retrieve_cvv_example =
    store_then_retrieve_cvv calm calm_laws map_redis_laws cfg (text "merchant_1") (text "tok_c")
      (text "123") fresh cvv_kept kept.1 refl
