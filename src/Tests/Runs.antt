-- ===== src/Tests/Runs.antt =====
-- Runs of calls over a store with a token.
use vaulty.Prelude.{
  ◌≢◌, none, some, [], ◌∷◌, ◌++◌, ◌≡◌, List, refl, Text, text, text_eq, ap, length, arith,
  replicate,
}
use vaulty.Json.{field, end, str}
use vaulty.Store.{Outcome, go, response_of, ◌>>=◌, Store}
use vaulty.Auth.{Request}
use vaulty.Handler.Tokenize.{pan_key, generate_token_id}
use vaulty.Crypto.{hex}
use vaulty.Routes.{
  answer, status_call, serve, Call, vault, tokenize_call, deactivate_call, health_call,
}
use vaulty.Routes.Keeps.{serve_all}
use vaulty.Server.{Response, Body, ok}
use vaulty.Repository
use vaulty.Repository.Rows.{query, exec}
use vaulty.Handler
use vaulty.Vaulted.Suspended.{deactivated_tenant_refused}
use vaulty.Isolation.{rows_of}
use vaulty.Isolation.Reads.{IsAlike}
use vaulty.Isolation.Calls.{serve-IsAlike}
use vaulty.Isolation.Writes.{rows_of-serve_all}
use vaulty.Invariants.History.{Follows, serve_all-Follows}
use vaulty.Invariants.Integrity.{IsSound, serve_all-IsSound}
use vaulty.Contract.TokenId.{IsTokenId, generate_token_id-IsTokenId}
use vaulty.Tests.World.{ctx, map_redis, calm, calm_laws, cfg, pings, visa, fresh}
use vaulty.Tests.Tokens.{known, stocked}

abbrev pub caller : Text → Request
caller tenant_id = record {
  authorization = text "Bearer client:x";
  x_tenant_id = tenant_id;
  x_correlation_id = text "c";
  peer_common_name = none;
}

abbrev calls : Text → List (Call × Request)
calls tenant_id =
    (health_call, caller [])
    ∷ (vault (tokenize_call (some (field pan_key (str visa) end))), caller tenant_id)
    ∷ (vault (deactivate_call (text "tok_1")), caller tenant_id)
    ∷ []

rows_of-serve_all_example :
    rows_of (text "merchant_1") (serve_all calm cfg pings (calls (text "other")) stocked)
    ≡ record { tokens = known ∷ []; entries = []; lines = [] }
unfolding text_eq
rows_of-serve_all_example =
    rows_of-serve_all calm cfg pings (text "merchant_1") (calls (text "other")) stocked
      ((λ h. omega (arith, ap length h)), ((λ h. omega (arith, ap length h)), tt))

serve_all-Follows_example :
    Follows stocked (serve_all calm cfg pings (calls (text "merchant_1")) stocked)
serve_all-Follows_example = serve_all-Follows calm cfg pings (calls (text "merchant_1")) stocked

pub stocked-IsSound : IsSound stocked
unfolding text_eq
stocked-IsSound = record {
  tenants = (refl, tt);
  token_ids = (refl, tt);
  pans = (refl, tt);
  owned = refl;
  entries = tt;
  referred = refl;
}

serve_all-IsSound_example : IsSound (serve_all calm cfg pings (calls (text "merchant_1")) stocked)
serve_all-IsSound_example =
    serve_all-IsSound calm cfg pings (calls (text "merchant_1")) stocked stocked-IsSound

zeros_issued :
    generate_token_id calm cfg fresh
    ≡ (some (text "tok_" ++ hex (replicate 20 0)), record fresh { calls = 1 })
unfolding generate_token_id
zeros_issued = refl

generate_token_id-IsTokenId_example : IsTokenId (text "tok_" ++ hex (replicate 20 0))
generate_token_id-IsTokenId_example =
    generate_token_id-IsTokenId calm calm_laws cfg fresh zeros_issued

-- Another tenant's token of the same id, behind the tenant's own.
abbrev shared_table : Store map_redis.Cache
shared_table = record stocked { tokens = known ∷ record known { tenant_id = text "other" } ∷ [] }

serve-IsAlike_example :
    let call = vault (status_call (text "tok_1")) in
    let (answered, s) = serve calm cfg pings call (caller (text "merchant_1")) stocked in
    let (answered', u) = serve calm cfg pings call (caller (text "merchant_1")) shared_table in
    (answered ≡ answered') × IsAlike (text "merchant_1") s u
unfolding text_eq
serve-IsAlike_example =
    serve-IsAlike calm cfg pings (status_call (text "tok_1")) (caller (text "merchant_1")) stocked
      shared_table refl (record { tenants = refl; rows = refl; cache = refl; calls = refl })

abbrev ended : Outcome Response × Store map_redis.Cache
ended = Handler.Tenant.deactivate calm ctx (text "merchant_1") stocked

tenant_deactivated : ended ≡ (go (response_of ended.0), ended.1)
unfolding Handler.Tenant.deactivate ◌>>=◌ Repository.Tenants.find_by_tenant_id query text_eq
    Repository.Tenants.update_status exec
tenant_deactivated = refl

abbrev later_call : Outcome Response × Store map_redis.Cache
later_call =
    answer calm cfg pings (vault (status_call (text "tok_1"))) (caller (text "merchant_1"))
      (serve_all calm cfg pings (calls (text "merchant_1")) ended.1)

deactivated_tenant_refused_example : later_call ≢ (go (ok (Body.value [])), stocked)
deactivated_tenant_refused_example =
    deactivated_tenant_refused calm cfg pings ctx (text "merchant_1") stocked tenant_deactivated
      (calls (text "merchant_1")) (status_call (text "tok_1")) (caller (text "merchant_1")) refl
      (ok (Body.value [])) stocked
