-- ===== src/Vaulted/Reuse.antt =====
-- A PAN that the tenant has a token for keeps that token.
use vaulty.Prelude.{true, false, none, some, ◌≡◌, Text, text, find, arith}
use vaulty.Json.{str, Fields, lookup, put}
use vaulty.Model.{Token, Tenant, AuditOperation}
use vaulty.Server.{Body, ok}
use vaulty.World.{World}
use vaulty.Store.{Store, tick, response_of, ◌>>=◌}
use vaulty.Repository
use vaulty.Repository.Rows.{query}
use vaulty.Repository.Tokens.{has_blind_index}
use vaulty.Auth.{Context}
use vaulty.Card.{validate_pan}
use vaulty.Crypto.{compute_blind_index}
use vaulty.Handler.Common.{audit_entry}
use vaulty.Vaulted.Logged.{log-Same}
use vaulty.Handler.Tokenize.{
  TokenizeConfig, pan_key, cvv_field, tokenize, process_pan, token_of_pan, reuse_or_create,
  process_cvv,
}

module _ (w : World) (cfg : TokenizeConfig) (ctx : Context) (tenant : Tenant) where
  -- A tokenize of a body with a valid PAN and no CVV, for which the tenant has a token already, answers
  -- 200 with that token in the PAN's place, unless its search fails, and adds no token and no entry.
  pub tokenize_again :
      (pan : Text) (body : Fields) (known : Token) (s : Store w.redis.Cache)
      → ctx.tenant ≡ some tenant
      → lookup pan_key body ≡ some (str pan)
      → lookup cvv_field body ≡ none
      → validate_pan pan ≡ true
      → w.db_fails s.calls ≡ false
      → find
          (has_blind_index tenant.tenant_id
            (compute_blind_index w tenant.tenant_id pan cfg.hmac_key))
          s.tokens
        ≡ some known
      → let (o, t) = tokenize w cfg ctx (some body) s in
        (response_of o ≡ ok (Body.echo (put pan_key (str known.token_id) body)))
        × (t.tokens ≡ s.tokens)
        × (t.vault_entries ≡ s.vault_entries)
  unfolding tokenize ◌>>=◌ process_pan token_of_pan reuse_or_create process_cvv
      Repository.Tokens.find_by_blind_index query
  tokenize_again pan body known s has given no_cvv valid up found =
      let (tokens, entries, _) =
        log-Same w
          (audit_entry tenant.tenant_id ctx.correlation_id AuditOperation.tokenize known.token_id
            (text "tokenizer"))
          (tick s) in
      ground (arith, tokens, entries)
