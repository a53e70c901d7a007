-- ===== src/Contract/Reveal.antt =====
-- The proxy's reveal calls, when a network carries them to the tokenizer service.
use vaulty.Prelude.{
  ℕ, ◌+◌, false, none, some, List, [], ◌∷◌, ◌≡◌, ◌≢◌, inl, inr, refl, sym, ◌∙◌, ap, Text, text,
  text_eq_iff, Bytes, find_sound, arith,
}
use vaulty.Model.{Tenant}
use vaulty.Server.{Body, ok}
use vaulty.World.{World}
use vaulty.Store.{Store, response_of}
use vaulty.Repository
use vaulty.Repository.Keeps.{Keeps-exec}
use vaulty.Auth.{Request}
use vaulty.Handler.Health.{Pings}
use vaulty.Handler.Tokenize.{TokenizeConfig}
use vaulty.Handler.Keeps.{Scope, KeptBy}
use vaulty.Routes.{vault, detokenize_call, serve}
use vaulty.Routes.Keeps.{Anyone, serve-Keeps}
use vaulty.Routes.Passes.{IsProxyCall, served_by_handler, seen}
use vaulty.Proxy.{Network, HttpResponse, answered}
use vaulty.Proxy.Revealer.{Revealer, detokenize_request}
use vaulty.Vaulted.{IsVaulted}
use vaulty.Vaulted.Durable.{IsVaulted-KeptBy, same_tables}
use vaulty.Vaulted.Reveal.{detokenize_vaulted, Fault}

-- No statement fails, and KMS unwraps what it wrapped.
pub record IsUp (w : World) : Type 0 where
  pub database : (n : ℕ) → w.db_fails n ≡ false
  pub kms :
      (n m : ℕ) (arn : Text) {dek blob : Bytes}
      → w.generate_data_key m arn ≡ some (dek, blob)
      → w.decrypt n blob ≢ none

-- The headers of a reveal call as the tokenizer reads them: the client that cmd/proxy makes presents no
-- certificate.
abbrev pub proxy_request : Revealer → Text → Request
proxy_request rv tenant_id = record {
  authorization = rv.auth_header;
  x_tenant_id = tenant_id;
  x_correlation_id = [];
  peer_common_name = none;
}

-- The proxy's client, the network and the encodings between the two services: a reveal call is served
-- once by the tokenizer, whose status and value come back.
pub record Carries (w : World) (cfg : TokenizeConfig) (pings : Pings) (net : Network)
    (rv : Revealer) : Type 0 where
  pub store : net.State → Store w.redis.Cache
  pub url_accepted : net.bad_request (text "POST") rv.detokenize_url ≡ none
  pub answers :
      (tenant_id token : Text) (n : net.State)
      → let (r, s) =
          serve w cfg pings
            (vault (detokenize_call (some token)))
            (proxy_request rv tenant_id)
            (store n) in
        (resp : HttpResponse) × ((net.send (detokenize_request rv tenant_id token) n).0
          ≡ answered resp)
        × (store (net.send (detokenize_request rv tenant_id token) n).1 ≡ s)
        × (resp.status ≡ r.status)
        × ((v : Text) → r.body ≡ Body.value v → net.decode_value resp ≡ some v)

-- Each token stands for the PAN at its place.
abbrev pub AllVaulted : (w : World) → Text → List Text → List Text → Store w.redis.Cache → Type 0
AllVaulted w tenant_id [] [] s = Unit
AllVaulted w tenant_id (t ∷ ts) (p ∷ ps) s =
    IsVaulted w tenant_id t p s × AllVaulted w tenant_id ts ps s
AllVaulted w tenant_id _ _ s = ⊥

-- Tenants' calls without the administration of tenants.
abbrev pub Tenants : Scope
Tenants = record { tenant = λ t. Unit {0}; admin = ⊥ }

module _ (w : World) where
  pub narrowed : (P : Store w.redis.Cache → Type 0) → KeptBy w Anyone P → KeptBy w Tenants P
  narrowed P k = record {
    insert_token = k.insert_token;
    touch_token = k.touch_token;
    insert_entry = k.insert_entry;
    append_audit = k.append_audit;
    insert_tenant = λ t no. absurd no;
    set_tenant_status = λ a no. absurd no;
    cache_command = k.cache_command;
    external_call = k.external_call;
  }

  pub same_tenants-KeptBy : (ts : List Tenant) → KeptBy w Tenants (λ s. s.tenants ≡ ts)
  unfolding Repository.Tokens.create Repository.Tokens.update_last_used
      Repository.VaultEntries.create Repository.AuditLog.append
  same_tenants-KeptBy ts = record {
    insert_token = λ t own. Keeps-exec w _ (λ s h. h) _ _ (λ s _ h. h);
    touch_token = λ a b own. Keeps-exec w _ (λ s h. h) _ _ (λ s _ h. h);
    insert_entry = λ e own. Keeps-exec w _ (λ s h. h) _ _ (λ s _ h. h);
    append_audit = λ a b o t actor own. Keeps-exec w _ (λ s h. h) _ _ (λ s _ h. h);
    insert_tenant = λ t no. absurd no;
    set_tenant_status = λ a no. absurd no;
    cache_command = λ s c h. h;
    external_call = λ s h. h;
  }

module _ (w : World) (up : IsUp w) (cfg : TokenizeConfig) (pings : Pings) (tenant : Tenant) where
  no_fault :
      {tenant_id token pan : Text} {s : Store w.redis.Cache} (v : IsVaulted w tenant_id token pan s)
      → Fault w tenant_id token pan s v
      → ⊥
  no_fault {s = s} v (inl down) = ground (arith, up.database s.calls)
  no_fault {s = s} v (inr (inl down)) = ground (arith, up.database (s.calls + 1))
  no_fault v (inr (inr kept)) = let (n, arn, dek, made) = v.issued in up.kms _ n arn made kept

  named_by_call :
      (r : Request) (s : Store w.redis.Cache)
      → IsProxyCall w r tenant s
      → tenant.tenant_id ≡ r.x_tenant_id
  named_by_call r s call =
      (text_eq_iff tenant.tenant_id r.x_tenant_id).0 (find_sound _ s.tenants call.found)

  -- Where no statement fails and KMS unwraps its keys, a reveal call that names the proxy, by its
  -- client certificate or, where none is presented, by its bearer token, and an active tenant for which
  -- the token is vaulted is answered with 200 and the PAN.
  pub serve_vaulted :
      (r : Request) (token pan : Text) (s : Store w.redis.Cache)
      → IsProxyCall w r tenant s
      → IsVaulted w r.x_tenant_id token pan s
      → (serve w cfg pings (vault (detokenize_call (some token))) r s).0 ≡ ok (Body.value pan)
  unfolding serve
  serve_vaulted r token pan s call v =
      let (ctx, u, has, _, tokens, entries, same) =
        served_by_handler w up.database cfg pings token r tenant s call in
      let v' : IsVaulted w r.x_tenant_id token pan u =
        same_tables w r.x_tenant_id token pan s u (sym tokens) (sym entries) v in
      elim (detokenize_vaulted w r.x_tenant_id token pan u v' ctx tenant has
        (named_by_call r s call)) [
          | inl done ↦ ap (λ x. response_of x.0) same ∙ done
          | inr (failed, why) ↦ absurd (no_fault v' why)
        ]

  pub served-AllVaulted :
      (r : Request) (token tenant_id : Text) (ts ps : List Text) (s : Store w.redis.Cache)
      → AllVaulted w tenant_id ts ps s
      → AllVaulted w tenant_id ts ps
          (serve w cfg pings (vault (detokenize_call (some token))) r s).1
  served-AllVaulted r token tenant_id [] [] s h = tt
  served-AllVaulted r token tenant_id (t ∷ ts) (p ∷ ps) s (v, vs) = (
    (serve-Keeps w Anyone _ cfg pings (IsVaulted-KeptBy w tenant_id t p)
          (vault (detokenize_call (some token))) r (tt, tt)).at
        s v,
    served-AllVaulted r token tenant_id ts ps s vs,
  )
  served-AllVaulted r token tenant_id [] (p ∷ ps) s h = absurd h
  served-AllVaulted r token tenant_id (t ∷ ts) [] s h = absurd h

  pub served-IsProxyCall :
      (r : Request) (token : Text) (s : Store w.redis.Cache)
      → IsProxyCall w r tenant s
      → IsProxyCall w r tenant (serve w cfg pings (vault (detokenize_call (some token))) r s).1
  served-IsProxyCall r token s h = seen w up.database h (
      (serve-Keeps w Tenants _ cfg pings (same_tenants-KeptBy w s.tenants)
          (vault (detokenize_call (some token))) r (tt, tt)).at
        s refl)
