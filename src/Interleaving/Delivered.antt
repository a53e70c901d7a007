-- ===== src/Interleaving/Delivered.antt =====
-- The proxy's reveal calls where nothing fails, while other calls are in progress.
use vaulty.Pattern.{tenant_id_pattern}
use vaulty.Prelude.{
  drop, [], ◌∷◌, ◌∙◌, List, true, false, not, Text, text, text_eq, text_eq_refl, ◌≡◌, ◌||◌, inl,
  inr, refl, find_sound, arith,
}
use vaulty.Model.{Tenant, TenantStatus, TokenStatus, is_active_tenant}
use vaulty.World.{World}
use vaulty.Store.{Store}
use vaulty.Store.Keeps.{Keeps}
use vaulty.Repository
use vaulty.Repository.Keeps.{Keeps-exec}
use vaulty.Repository.Tenants.{is_named}
use vaulty.Auth.{before_colon, Request, Context, require_mtls_cert, starts_with}
use vaulty.Handler.Health.{Pings}
use vaulty.Handler.Tokenize.{TokenizeConfig}
use vaulty.Handler.Keeps.{Scope, KeptBy}
use vaulty.Routes.Guards.{IsProxy}
use vaulty.Routes.Passes.{IsProxyCall, pattern-named}
use vaulty.Vaulted.{IsVaulted}
use vaulty.Vaulted.Durable.{IsVaulted-KeptBy, deactivate_other-Keeps}
use vaulty.Contract.Reveal.{IsUp, Tenants, narrowed, same_tenants-KeptBy}
use vaulty.Interleaving.Calls.Ensures.{Refusals}
use vaulty.Interleaving.Handlers.Ensures.{IsPan}
use vaulty.Interleaving.Program.Ensures.{OnGo}
use vaulty.Interleaving.Asked.{AllGot, AllGot-imp, Reaches-AllGot}
use vaulty.Interleaving.Service.{Running, Reaches}
use vaulty.Interleaving.Invariants.{Except}

both-Keeps :
    {C A : Type 0} {P Q : Store C → Type 0} {m : Store C → A × Store C}
    → Keeps P m
    → Keeps Q m
    → Keeps (λ s. P s × Q s) m
both-Keeps p q = record { at = λ s (h, h'). (p.at s h, q.at s h') }

both-KeptBy :
    {w : World} {scope : Scope} {P Q : Store w.redis.Cache → Type 0}
    → KeptBy w scope P
    → KeptBy w scope Q
    → KeptBy w scope (λ s. P s × Q s)
both-KeptBy p q = record {
  insert_token = λ t own. both-Keeps (p.insert_token t own) (q.insert_token t own);
  touch_token = λ a b own. both-Keeps (p.touch_token a b own) (q.touch_token a b own);
  insert_entry = λ e own. both-Keeps (p.insert_entry e own) (q.insert_entry e own);
  append_audit = λ a b o t actor own.
      both-Keeps (p.append_audit a b o t actor own) (q.append_audit a b o t actor own);
  insert_tenant = λ t admin. both-Keeps (p.insert_tenant t admin) (q.insert_tenant t admin);
  set_tenant_status =
      λ a admin. both-Keeps (p.set_tenant_status a admin) (q.set_tenant_status a admin);
  cache_command = λ s c (h, h'). (p.cache_command s c h, q.cache_command s c h');
  external_call = λ s (h, h'). (p.external_call s h, q.external_call s h');
}

mtls-go :
    (r : Request) (ctx : Context)
    → IsProxy r
    → ctx.service_identity ≡ before_colon (drop 7 r.authorization)
    → OnGo ⊥ (λ c. Unit) (require_mtls_cert (text "proxy") r ctx)
unfolding require_mtls_cert
mtls-go r ctx (inl given) e = ground (arith, given, text_eq_refl (text "proxy"))
mtls-go r ctx (inr (missing, named)) e =
    let q : ctx.service_identity ≡ text "proxy" = e ∙ named in
    ground (arith, missing, q, text_eq_refl (text "proxy"))

bearer_given :
    (t : Text)
    → starts_with (text "Bearer ") t ≡ true
    → (text_eq t [] || not (starts_with (text "Bearer ") t)) ≡ true
    → ⊥
unfolding text_eq
bearer_given [] h bad = cc
bearer_given (b ∷ t) h bad = ground (arith, h, bad)

active_fits :
    (tenant : Tenant)
    → tenant.status ≡ TenantStatus.active
    → is_active_tenant tenant.status ≡ false
    → ⊥
active_fits tenant h off = ground (arith, h, off)

module _ (w : World) (up : IsUp w) (cfg : TokenizeConfig) (pings : Pings) (tenant : Tenant)
    (tenant_id token_id pan : Text) where
  update_status-Keeps :
      (ts : List Tenant) (a b : Text)
      → Keeps (λ s. s.tenants ≡ ts) (Repository.Tokens.update_status w a b TokenStatus.inactive)
  unfolding Repository.Tokens.update_status
  update_status-Keeps ts a b = Keeps-exec w _ (λ s h. h) _ _ (λ s _ h. h)

  -- The requests that name the proxy and the tenant
  abbrev pub FromProxy : Store w.redis.Cache → Request → Type 0
  FromProxy s r = IsProxyCall w r tenant s × (r.x_tenant_id ≡ tenant_id)

  proxy-Refusals :
      (s : Store w.redis.Cache) (r : Request)
      → FromProxy s r
      → Refusals w r (λ t. (t.tenants ≡ s.tenants) × IsVaulted w tenant_id token_id pan t) ⊥
  proxy-Refusals s r (call, own) = record {
    bearer = bearer_given r.authorization call.bearer;
    proxy = λ ctx e. mtls-go r ctx call.caller e;
    named = λ bad. ground (arith, bad, pattern-named r.x_tenant_id call.pattern);
    pattern = λ bad. absurd (let ok : tenant_id_pattern r.x_tenant_id ≡ true = call.pattern in cc);
    tenant = λ t (same, v).
        rw (same, call.found)
          (
            find_sound (is_named r.x_tenant_id) s.tenants call.found,
            active_fits tenant call.active,
          );
  }

  -- Where no statement fails and KMS unwraps its keys, and while calls of any tenants are in progress
  -- at once, none of which administers tenants or deactivates a token of that id, each reveal call that
  -- names the proxy, by its client certificate or, where none is presented, by its bearer token, and an
  -- active tenant for which the token is vaulted, once it has a response, got 200 and the PAN, whatever
  -- the order of the statements.
  pub Reaches-delivers :
      {s t : Store w.redis.Cache} {ps : List (Running w cfg pings Tenants (Except token_id))}
      → Reaches w cfg pings Tenants (Except token_id) s ps t
      → IsVaulted w tenant_id token_id pan s
      → AllGot w cfg pings Tenants (Except token_id) token_id (FromProxy s) (IsPan pan) ps
  Reaches-delivers {s} {ps} h v =
      AllGot-imp w cfg pings Tenants (Except token_id) token_id _ _ (IsPan pan) ps
        (λ resp got. elim got [ inl is ↦ is | inr (late, never) ↦ absurd never ])
        (Reaches-AllGot w cfg pings Tenants (Except token_id) token_id _ _
          (both-KeptBy (same_tenants-KeptBy w s.tenants)
            (narrowed w _ (IsVaulted-KeptBy w tenant_id token_id pan)))
          (λ a b own may.
            both-Keeps (update_status-Keeps s.tenants a b)
              (deactivate_other-Keeps w tenant_id token_id pan b may a))
          ⊥
          (record {
            database = λ n down. ground (arith, down, up.database n);
            kms = λ n m arn made kept. up.kms n m arn made kept;
          })
          pan (proxy-Refusals s) (λ r (call, own) u (same, vaulted). rw own vaulted) h (refl, v))
