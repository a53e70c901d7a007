-- ===== src/Tests/Vault.antt =====
-- A card is tokenized, a call is served, and the token is revealed.
use vaulty.Prelude.{
  text_eq, ℕ, zero, suc, ◌++◌, ap, length, none, List, arith, refl, [], ◌∷◌, ◌≡◌, ◌⊎◌, some, Text,
  text,
}
use vaulty.Json.{Fields, field, end, str, lookup, put}
use vaulty.Server.{Response, Body, ok, internal_error}
use vaulty.Store.{◌>>=◌, chain, succeed, Store, Outcome, go, response_of}
use vaulty.Auth.{Request}
use vaulty.Handler.Tokenize.{
  tokenize, pan_key, cvv_field, create_pan_token, process_pan, token_of_pan, reuse_or_create,
  generate_token_id, encrypt_pan, process_cvv, invalidate_if_associated, store_cvv,
}
use vaulty.Handler.Detokenize.{detokenize}
use vaulty.Routes.{Call, vault, tokenize_call, deactivate_call, health_call}
use vaulty.Routes.Keeps.{serve_all}
use vaulty.Card.{validate_pan, validate_cvv}
use vaulty.Repository
use vaulty.Repository.Rows.{query, exec}
use vaulty.Crypto
use vaulty.Cvv
use vaulty.Audit.{mask_token_id}
use vaulty.Handler.Common.{log}
use vaulty.Vaulted.{IsVaulted}
use vaulty.Vaulted.RoundTrip.{tokenize_then_detokenize, RevealFault}
use vaulty.Vaulted.Tokenized.{tokenize-IsVaulted}
use vaulty.Tests.World.{calm, calm_laws, map_redis, merchant, fresh, cfg, pings, ctx, visa}

abbrev card : Fields
card = field pan_key (str visa) (field cvv_field (str (text "123")) end)

abbrev done : Outcome Response × Store map_redis.Cache
done = tokenize calm cfg ctx (some card) fresh

abbrev repeat_hex : ℕ → Text
repeat_hex zero = []
repeat_hex (suc n) = text "01" ++ repeat_hex n

abbrev issued : Text
issued = text "tok_" ++ repeat_hex 20

abbrev cvv_issued : ℕ → Text
cvv_issued zero = []
cvv_issued (suc n) = text "07" ++ cvv_issued n

abbrev echoed : Fields
echoed = field pan_key (str issued) (field cvv_field (str (text "tok_" ++ cvv_issued 20)) end)

abbrev created : Response
created = record { status = 201; body = Body.echo echoed }

abbrev after : Store map_redis.Cache
after = done.1

tokenized : done ≡ (go created, after)
unfolding tokenize ◌>>=◌ lookup put text_eq process_pan validate_pan token_of_pan
    Repository.Tokens.find_by_blind_index query reuse_or_create create_pan_token generate_token_id
    encrypt_pan chain Crypto.generate_data_key_with_arn Crypto.encrypt_with_dek succeed
    Repository.Tokens.create exec mask_token_id Crypto.compute_blind_index Crypto.encrypt Crypto.hex
    log process_cvv Repository.AuditLog.append Repository.VaultEntries.create validate_cvv
    Crypto.generate_dek Cvv.cvv_token_key Cvv.cvv_token_owner_key Cvv.delete_previous
    Cvv.invalidate_previous_cvv_token Cvv.set_cvv_token_owner Cvv.store_cvv_token
    invalidate_if_associated store_cvv
tokenized = refl

abbrev caller : Request
caller = record {
  authorization = text "Bearer client:x";
  x_tenant_id = text "merchant_1";
  x_correlation_id = text "c";
  peer_common_name = none;
}

abbrev calls : List (Call × Request)
calls =
    (health_call, caller)
    ∷ (vault (deactivate_call (text "tok_other")), caller)
    ∷ (vault (tokenize_call (some card)), caller)
    ∷ []

tokenize_then_detokenize_example :
    (let later = serve_all calm cfg pings calls after in
      let answer = response_of (detokenize calm ctx (some issued) later).0 in
      (answer ≡ ok (Body.value visa))
      ⊎ (answer ≡ internal_error ctx.correlation_id)
        × RevealFault calm (text "merchant_1") issued later)
unfolding lookup text_eq
tokenize_then_detokenize_example =
    tokenize_then_detokenize calm calm_laws cfg pings ctx merchant visa issued card echoed fresh
      refl refl tokenized refl refl refl calls ((λ h. omega (arith, ap length h)), tt) ctx merchant
      refl refl

tokenize-IsVaulted_example :
    (token_id : Text) × (fields : Fields) × (Body.echo echoed ≡ Body.echo fields)
    × (lookup pan_key fields ≡ some (str token_id))
    × IsVaulted calm (text "merchant_1") token_id visa after
unfolding lookup text_eq
tokenize-IsVaulted_example =
    tokenize-IsVaulted calm calm_laws cfg ctx merchant visa card fresh refl refl tokenized refl
