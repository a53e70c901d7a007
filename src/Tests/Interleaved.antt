-- ===== src/Tests/Interleaved.antt =====
-- Calls in progress at once: one waits at its first statement while another is served.
use vaulty.Tests.Proxy.{rv}
use vaulty.Contract.Reveal.{Tenants, proxy_request}
use vaulty.Interleaving.Handlers.Ensures.{IsPan}
use vaulty.Interleaving.Asked.{AllGot}
use vaulty.Interleaving.Delivered.{FromProxy, Reaches-delivers}
use vaulty.Prelude.{
  List, none, some, [], ◌∷◌, ◌≡◌, ◌≢◌, ◌⊎◌, refl, Text, text, text_eq, ap, length, arith,
}
use vaulty.Json.{field, end, str}
use vaulty.Server.{internal_error, service_unavailable}
use vaulty.Store.{Store, reply}
use vaulty.Handler.Keeps.{Scope}
use vaulty.Handler.Tokenize.{pan_key, reuse_or_create}
use vaulty.Routes.{Call, vault, tokenize_call, detokenize_call, deactivate_call, serve}
use vaulty.Routes.Keeps.{Anyone}
use vaulty.Isolation.{rows_of}
use vaulty.Invariants.Integrity.{IsSound}
use vaulty.Invariants.History.{Follows}
use vaulty.Vaulted.{IsVaulted}
use vaulty.Vaulted.Raced.{raced_tokenize_fails}
use vaulty.Interleaving.Calls.{May}
use vaulty.Interleaving.Service.{Running, Reaches, start, arrive, arrived}
use vaulty.Interleaving.Invariants.{
  AnyToken, Others, Except, Reaches-IsSound, Reaches-Follows, rows_of-Reaches,
}
use vaulty.Interleaving.Alone.{answered, Advances-serve, Reaches-Advances}
use vaulty.Interleaving.Revealed.{AllReveal, Reaches-Reveal}
use vaulty.Tests.World.{calm, map_redis, cfg, pings, ctx, visa, merchant}
use vaulty.Tests.Tokens.{known, stocked}
use vaulty.Tests.Runs.{caller, stocked-IsSound}
use vaulty.Tests.Delivered.{calm-IsUp, vault_store, zero_token, zero_token-IsVaulted}

abbrev Vault : Type 0
Vault = Store map_redis.Cache

abbrev tokenize_visa : Call
tokenize_visa = vault (tokenize_call (some (field pan_key (str visa) end)))

abbrev served : Call → Text → Vault → Vault
served c tenant_id s = (serve calm cfg pings c (caller tenant_id) s).1

module _ (scope : Scope) (changes : Text → Text → Type 0) where
  -- A tokenize waits while another call of the tenant is served.
  abbrev overtaken :
      (tenant_id : Text) (c : Call)
      → May scope changes tokenize_visa (caller tenant_id)
      → Vault
      → List (Running calm cfg pings scope changes)
  overtaken tenant_id c waits s =
      answered calm cfg pings scope changes c (caller tenant_id)
        (serve calm cfg pings c (caller tenant_id) s).0
      ∷ arrived calm cfg pings scope changes tokenize_visa (caller tenant_id) waits
      ∷ []

  overtaken-Reaches :
      (tenant_id : Text) (c : Call) (waits : May scope changes tokenize_visa (caller tenant_id))
      → May scope changes c (caller tenant_id)
      → (s : Vault)
      → Reaches calm cfg pings scope changes s
          (overtaken tenant_id c waits s)
          (served c tenant_id s)
  overtaken-Reaches tenant_id c waits may s =
      Reaches-Advances calm cfg pings scope changes
        (Advances-serve calm cfg pings scope changes c (caller tenant_id) may _ s refl)
        (arrive c (caller tenant_id) may (arrive tokenize_visa (caller tenant_id) waits start))

abbrev deactivate_one : Call
deactivate_one = vault (deactivate_call (text "tok_1"))

deactivated-Reaches :
    Reaches calm cfg pings Anyone AnyToken stocked
      (overtaken Anyone AnyToken (text "merchant_1") deactivate_one (tt, tt) stocked)
      (served deactivate_one (text "merchant_1") stocked)
deactivated-Reaches =
    overtaken-Reaches Anyone AnyToken (text "merchant_1") deactivate_one (tt, tt)
      (tt, (λ a own. tt)) stocked

Reaches-IsSound_example : IsSound (served deactivate_one (text "merchant_1") stocked)
Reaches-IsSound_example = Reaches-IsSound calm cfg pings deactivated-Reaches stocked-IsSound

Reaches-Follows_example : Follows stocked (served deactivate_one (text "merchant_1") stocked)
Reaches-Follows_example = Reaches-Follows calm cfg pings deactivated-Reaches

other_tenant : text "other" ≢ text "merchant_1"
unfolding text_eq
other_tenant h = omega (arith, ap length h)

rows_of-Reaches_example :
    rows_of (text "merchant_1") (served deactivate_one (text "other") stocked)
    ≡ rows_of (text "merchant_1") stocked
rows_of-Reaches_example = rows_of-Reaches calm cfg pings (text "merchant_1") (
    overtaken-Reaches (Others (text "merchant_1")) AnyToken (text "other") deactivate_one
      (other_tenant, tt) (other_tenant, (λ a own. tt)) stocked)

abbrev reveal_zero : Call
reveal_zero = vault (detokenize_call (some zero_token))

Reaches-Reveal_example :
    IsVaulted calm
      (text "merchant_1")
      zero_token
      visa
      (served reveal_zero (text "merchant_1") vault_store)
    × AllReveal calm cfg pings
        (text "merchant_1")
        zero_token
        visa
        (overtaken Anyone (Except zero_token) (text "merchant_1") reveal_zero (tt, tt) vault_store)
Reaches-Reveal_example =
    Reaches-Reveal calm cfg pings (text "merchant_1") zero_token visa
      (overtaken-Reaches Anyone (Except zero_token) (text "merchant_1") reveal_zero (tt, tt)
        (tt, tt) vault_store)
      zero_token-IsVaulted

abbrev revealing : List (Running calm cfg pings Tenants (Except zero_token))
revealing =
    answered calm cfg pings Tenants (Except zero_token) reveal_zero
      (proxy_request rv (text "merchant_1"))
      (serve calm cfg pings reveal_zero (proxy_request rv (text "merchant_1")) vault_store).0
    ∷ arrived calm cfg pings Tenants (Except zero_token) tokenize_visa (caller (text "merchant_1"))
        (tt, tt)
    ∷ []

Reaches-delivers_example :
    AllGot calm cfg pings Tenants
      (Except zero_token)
      zero_token
      (FromProxy calm calm-IsUp cfg pings merchant (text "merchant_1") zero_token visa vault_store)
      (IsPan visa)
      revealing
Reaches-delivers_example =
    Reaches-delivers calm calm-IsUp cfg pings merchant (text "merchant_1") zero_token visa
      (Reaches-Advances calm cfg pings Tenants (Except zero_token)
        (Advances-serve calm cfg pings Tenants (Except zero_token) reveal_zero
          (proxy_request rv (text "merchant_1")) (tt, tt) _ vault_store refl)
        (arrive reveal_zero (proxy_request rv (text "merchant_1")) (tt, tt)
          (arrive tokenize_visa (caller (text "merchant_1")) (tt, tt) start)))
      zero_token-IsVaulted

raced_tokenize_fails_example :
    let (o, t) = reuse_or_create calm cfg ctx merchant visa known.pan_blind_index none stocked in
    ((o ≡ reply (internal_error ctx.correlation_id))
      ⊎ (o
          ≡ reply (service_unavailable (text "Encryption service unavailable") ctx.correlation_id)))
    × (t.tokens ≡ stocked.tokens)
    × (t.vault_entries ≡ stocked.vault_entries)
unfolding text_eq vaulty.Crypto.compute_blind_index
raced_tokenize_fails_example =
    raced_tokenize_fails calm cfg ctx merchant visa known.pan_blind_index stocked refl
