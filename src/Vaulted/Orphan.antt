-- ===== src/Vaulted/Orphan.antt =====
-- A token whose entry was not stored: tokenize inserts the token before the entry, and nothing takes the
-- token back when the second insert fails.
use vaulty.Prelude.{◌+◌, false, some, none, find, ◌≡◌, Text, arith, []}
use vaulty.Model.{Tenant, Token, TokenStatus}
use vaulty.Server.{Body, ok}
use vaulty.World.{World}
use vaulty.Store.{Store, response_of, ◌>>=◌, chain, succeed}
use vaulty.Repository
use vaulty.Repository.Rows.{query}
use vaulty.Repository.Tokens.{has_token_id}
use vaulty.Repository.VaultEntries.{is_entry_of}
use vaulty.Auth.{Context}
use vaulty.Handler.Detokenize.{detokenize, reveal, reveal_pan, decrypt_pan, decrypt_entry}

-- For an active token of the tenant without an entry, where neither of its two searches fails,
-- detokenize answers 200 with the empty text.
pub orphan_revealed_empty :
    (w : World) (ctx : Context) (tenant : Tenant) (token : Token) (token_id : Text)
    (s : Store w.redis.Cache)
    → ctx.tenant ≡ some tenant
    → find (has_token_id tenant.tenant_id token_id) s.tokens ≡ some token
    → token.status ≡ TokenStatus.active
    → find (is_entry_of tenant.tenant_id token_id) s.vault_entries ≡ none
    → w.db_fails s.calls ≡ false
    → w.db_fails (s.calls + 1) ≡ false
    → response_of (detokenize w ctx (some token_id) s).0 ≡ ok (Body.value [])
unfolding detokenize ◌>>=◌ reveal reveal_pan decrypt_pan decrypt_entry chain succeed query
    Repository.Tokens.find_by_token_id Repository.VaultEntries.find_by_token_id
orphan_revealed_empty w ctx tenant token token_id s has found active bare up up' =
    ground (arith, has, found, active, bare, up, up')
