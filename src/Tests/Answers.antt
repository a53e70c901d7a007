-- ===== src/Tests/Answers.antt =====
-- Answers of single handlers, and a CVV token that is replaced.
use vaulty.Prelude.{
  pos, ℕ, none, some, [], ◌∷◌, ◌≡◌, ◌≢◌, ◌⊎◌, List, refl, Text, text, text_eq, if◌then◌else◌, arith,
}
use vaulty.Json.{Fields, field, end, str, lookup}
use vaulty.Model.{AuditLogEntry, AuditOperation, AuditResult}
use vaulty.Card.{validate_pan}
use vaulty.Server.{Body, ok}
use vaulty.Store.{Store, ◌>>=◌, response_of}
use vaulty.Cvv.{cvv_token_key, cvv_token_owner_key, invalidate_previous_cvv_token}
use vaulty.Handler.Tokenize.{tokenize, process_pan, pan_key}
use vaulty.Handler.Detokenize.{detokenize}
use vaulty.Contract.Rejected.{tokenize-rejects}
use vaulty.Vaulted.Orphan.{orphan_revealed_empty}
use vaulty.Vaulted.Replaced.{invalidate_previous-replaces}
use vaulty.Tests.World.{calm, map_redis, map_redis_laws, merchant, fresh, cfg, ctx}
use vaulty.Tests.Tokens.{known, stocked}

abbrev mistyped : Fields
mistyped = field pan_key (str (text "4111111111111112")) end

tokenize-rejects_example : (tokenize calm cfg ctx (some mistyped) fresh).1 ≡ fresh
unfolding lookup text_eq tokenize ◌>>=◌ process_pan validate_pan
tokenize-rejects_example = tokenize-rejects calm cfg ctx (some mistyped) fresh refl refl

orphan_revealed_empty_example :
    response_of (detokenize calm ctx (some (text "tok_1")) stocked).0 ≡ ok (Body.value [])
unfolding text_eq
orphan_revealed_empty_example =
    orphan_revealed_empty calm ctx merchant known (text "tok_1") stocked refl refl refl refl refl
      refl

abbrev line : ℕ → AuditLogEntry
line n = record {
  id = [];
  tenant_id = text "merchant_1";
  correlation_id = text "c";
  operation = AuditOperation.tokenize;
  token_id_masked = text "tok_1";
  actor = text "tokenizer";
  result = AuditResult.success;
  created_at = n;
}

abbrev lines : List AuditLogEntry
lines = line 3 ∷ line 5 ∷ line 4 ∷ []

abbrev audited : Store map_redis.Cache
audited = record fresh { audit_log = lines }

-- tok_p owns tok_a.
abbrev owned : Store map_redis.Cache
owned = record fresh {
  cache = λ k.
      if text_eq k (cvv_token_owner_key (text "merchant_1") (text "tok_p"))
      then some (text "tok_a")
      else none;
}

invalidate_previous-replaces_example :
    let (done, t) =
      invalidate_previous_cvv_token calm
        (text "merchant_1")
        (text "tok_p")
        (text "tok_b")
        (pos 300)
        owned in
    (map_redis_laws.live t.cache (cvv_token_key (text "merchant_1") (text "tok_a")) ≡ none)
    × ((done ≡ none)
        ⊎ (map_redis_laws.live t.cache (cvv_token_owner_key (text "merchant_1") (text "tok_p"))
            ≡ some (text "tok_b")))
    × ((k : Text)
        → k ≢ cvv_token_key (text "merchant_1") (text "tok_a")
        → k ≢ cvv_token_owner_key (text "merchant_1") (text "tok_p")
        → map_redis_laws.live t.cache k ≡ map_redis_laws.live owned.cache k)
unfolding text_eq cvv_token_owner_key
invalidate_previous-replaces_example =
    invalidate_previous-replaces calm map_redis_laws (text "merchant_1") (text "tok_p")
      (text "tok_a") (text "tok_b") (pos 300) owned refl (λ h. ground arith) refl
