-- ===== src/Vaulted/RoundTrip.antt =====
-- POST /vault/tokenize, any calls of the tokenizer service, then POST /internal/detokenize.
use vaulty.Prelude.{◌+◌, true, none, some, List, [], ◌∷◌, ◌≡◌, ◌≢◌, ◌⊎◌, inl, inr, Text, find}
use vaulty.Json.{str, Fields, lookup}
use vaulty.Model.{Tenant, VaultEntry}
use vaulty.Repository.VaultEntries.{is_entry_of}
use vaulty.Server.{Response, Body, ok, internal_error}
use vaulty.World.{World, CryptoLaws}
use vaulty.Store.{Store, go, response_of}
use vaulty.Auth.{Context, Request}
use vaulty.Handler.Health.{Pings}
use vaulty.Handler.Tokenize.{TokenizeConfig, pan_key, tokenize}
use vaulty.Handler.Detokenize.{detokenize}
use vaulty.Routes.{
  Call, health_call, admin, vault, tokenize_call, status_call, deactivate_call, audit_call,
  detokenize_call,
}
use vaulty.Routes.Keeps.{serve_all, serve_all-Keeps, AllAllow, Anyone}
use vaulty.Vaulted.{IsVaulted}
use vaulty.Vaulted.Durable.{deactivate_other-Keeps, IsVaulted-KeptBy}
use vaulty.Vaulted.Reveal.{detokenize_vaulted}
use vaulty.Vaulted.Tokenized.{tokenize-IsVaulted}

-- No call of the run deactivates the token.
abbrev pub NeverDeactivates : Text → List (Call × Request) → Type 0
NeverDeactivates token_id [] = Unit
NeverDeactivates token_id ((vault (deactivate_call other), r) ∷ calls) =
    (other ≢ token_id) × NeverDeactivates token_id calls
NeverDeactivates token_id ((_, r) ∷ calls) = NeverDeactivates token_id calls

-- What can still stop a detokenization in a store: a failed search for the token or for its entry, or
-- a KMS that does not unwrap the key of the entry that is found.
abbrev pub RevealFault : (w : World) → Text → Text → Store w.redis.Cache → Type 0
RevealFault w tenant_id token_id s =
    (w.db_fails s.calls ≡ true)
    ⊎ (w.db_fails (s.calls + 1) ≡ true)
    ⊎ ((e : VaultEntry) × (find (is_entry_of tenant_id token_id) s.vault_entries ≡ some e)
        × (w.decrypt (s.calls + 1 + 1) e.dek_encrypted ≡ none))

module _ (w : World) (tenant_id token_id pan : Text) where
  NeverDeactivates-AllAllow :
      (calls : List (Call × Request))
      → NeverDeactivates token_id calls
      → AllAllow w Anyone (IsVaulted w tenant_id token_id pan) calls
  NeverDeactivates-AllAllow [] h = tt
  NeverDeactivates-AllAllow ((health_call, r) ∷ calls) h = (tt, NeverDeactivates-AllAllow calls h)
  NeverDeactivates-AllAllow ((admin c, r) ∷ calls) h = (tt, NeverDeactivates-AllAllow calls h)
  NeverDeactivates-AllAllow ((vault (tokenize_call b), r) ∷ calls) h =
      ((tt, tt), NeverDeactivates-AllAllow calls h)
  NeverDeactivates-AllAllow ((vault (status_call t), r) ∷ calls) h =
      ((tt, tt), NeverDeactivates-AllAllow calls h)
  NeverDeactivates-AllAllow ((vault (deactivate_call other), r) ∷ calls) (ne, h) = (
    (tt, λ a own. deactivate_other-Keeps w tenant_id token_id pan other ne a),
    NeverDeactivates-AllAllow calls h,
  )
  NeverDeactivates-AllAllow ((vault (audit_call t l o), r) ∷ calls) h =
      ((tt, tt), NeverDeactivates-AllAllow calls h)
  NeverDeactivates-AllAllow ((vault (detokenize_call b), r) ∷ calls) h =
      ((tt, tt), NeverDeactivates-AllAllow calls h)

  pub reveal_after_calls :
      (cfg : TokenizeConfig) (pings : Pings) (s : Store w.redis.Cache)
      → IsVaulted w tenant_id token_id pan s
      → (calls : List (Call × Request)) → NeverDeactivates token_id calls
      → (ctx : Context) (tenant : Tenant) → ctx.tenant ≡ some tenant
      → tenant.tenant_id ≡ tenant_id
      → let later = serve_all w cfg pings calls s in
        let answer = response_of (detokenize w ctx (some token_id) later).0 in
        (answer ≡ ok (Body.value pan))
        ⊎ (answer ≡ internal_error ctx.correlation_id) × RevealFault w tenant_id token_id later
  reveal_after_calls cfg pings s v calls never ctx tenant has same =
      let later = serve_all w cfg pings calls s in
      let kept : IsVaulted w tenant_id token_id pan later =
        serve_all-Keeps w Anyone _ cfg pings (IsVaulted-KeptBy w tenant_id token_id pan) calls s
          (NeverDeactivates-AllAllow calls never) v in
      elim (detokenize_vaulted w tenant_id token_id pan later kept ctx tenant has same) [
        | inl done ↦ inl done
        | inr (failed, inl a) ↦ inr (failed, inl a)
        | inr (failed, inr (inl b)) ↦ inr (failed, inr (inl b))
        | inr (failed, inr (inr c)) ↦ inr (failed, inr (inr (kept.entry, kept.entry_found, c)))
      ]

-- A tokenize that answers 201 to a body with a PAN has put a token id in the PAN's place. After any
-- run of calls to the service, of any tenants and callers and with failures anywhere, in which none
-- deactivates that token, detokenize for the same tenant answers 200 with that PAN, or 500 when its
-- search for the token or for the entry failed, or KMS did not unwrap the key of the entry that was
-- found: never another value and never another refusal.
pub tokenize_then_detokenize :
    (w : World) (laws : CryptoLaws w) (cfg : TokenizeConfig) (pings : Pings) (ctx : Context)
    (tenant : Tenant) (pan token_id : Text) (body echoed : Fields) (s : Store w.redis.Cache)
    {r : Response} {t : Store w.redis.Cache}
    → ctx.tenant ≡ some tenant
    → lookup pan_key body ≡ some (str pan)
    → tokenize w cfg ctx (some body) s ≡ (go r, t)
    → r.status ≡ 201
    → r.body ≡ Body.echo echoed
    → lookup pan_key echoed ≡ some (str token_id)
    → (calls : List (Call × Request)) → NeverDeactivates token_id calls
    → (ctx' : Context) (tenant' : Tenant) → ctx'.tenant ≡ some tenant'
    → tenant'.tenant_id ≡ tenant.tenant_id
    → let later = serve_all w cfg pings calls t in
      let answer = response_of (detokenize w ctx' (some token_id) later).0 in
      (answer ≡ ok (Body.value pan))
      ⊎ (answer ≡ internal_error ctx'.correlation_id)
        × RevealFault w tenant.tenant_id token_id later
tokenize_then_detokenize w laws cfg pings ctx tenant pan token_id body echoed s {r} {t} has given h
      created shown there calls never ctx' tenant' has' same =
    let (id, own, e, e₂, stored) =
      tokenize-IsVaulted w laws cfg ctx tenant pan body s has given h created in
    let q : echoed ≡ own = cc in
    let q₂ : id ≡ token_id = cc in
    reveal_after_calls w tenant.tenant_id token_id pan cfg pings t (rw (← q₂) stored) calls never
      ctx' tenant' has' same
