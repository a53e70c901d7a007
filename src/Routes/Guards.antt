-- ===== src/Routes/Guards.antt =====
-- What a caller needs before the tokenizer serves a call.
use vaulty.Prelude.{
  true, Option, none, some, ◌≡◌, ◌⊎◌, inl, inr, sym, ◌∙◌, ap, Text, text, text_eq_iff, find,
  find_sound, arith, Option-cases, drop,
}
use vaulty.Model.{Tenant, TenantStatus}
use vaulty.Server.{Response}
use vaulty.World.{World}
use vaulty.Store.{Store, go, Outcome, lift, pure}
use vaulty.Store.Invert.{bind-go, or_reply-go, pure-go, present-go, require-go}
use vaulty.Repository
use vaulty.Repository.Tenants.{is_named}
use vaulty.Repository.Invert.{query-some}
use vaulty.Pattern.{tenant_id_pattern}
use vaulty.Auth.{
  Request, Context, background, starts_with, before_colon, bearer_auth, require_mtls_cert,
  correlation_id_middleware, require_tenant,
}
use vaulty.Handler.Tokenize.{TokenizeConfig}
use vaulty.Handler.Health.{Pings}
use vaulty.Routes.{vault, VaultCall, detokenize_call, serve_call, serve_vault, answer}

-- The request names the proxy: by its certificate, or without one by its bearer token.
abbrev pub IsProxy : Request → Type 0
IsProxy r =
    (r.peer_common_name ≡ some (text "proxy"))
    ⊎ (r.peer_common_name ≡ none) × (before_colon (drop 7 r.authorization) ≡ text "proxy")

-- The check of the caller leaves the tenant as it was.
pub mtls-tenant :
    (r : Request) (ctx ctx' : Context)
    → require_mtls_cert (text "proxy") r ctx ≡ go ctx'
    → ctx'.tenant ≡ ctx.tenant
unfolding require_mtls_cert
mtls-tenant r ctx ctx' h = ground arith

module _ (w : World) where
  lift-go :
      {A : Type 0} (o : Outcome A) (s : Store w.redis.Cache) {a : A} {t : Store w.redis.Cache}
      → lift o s ≡ (go a, t)
      → (o ≡ go a) × (s ≡ t)
  unfolding lift
  lift-go o s h = (cc, cc)

  bearer_auth-go :
      (r : Request) (ctx ctx' : Context)
      → bearer_auth r ctx ≡ go ctx'
      → (starts_with (text "Bearer ") r.authorization ≡ true)
        × (ctx' ≡ record ctx { service_identity = before_colon (drop 7 r.authorization) })
  unfolding bearer_auth
  bearer_auth-go r ctx ctx' h = ground arith

  mtls-go :
      (r : Request) (ctx ctx' : Context)
      → require_mtls_cert (text "proxy") r ctx ≡ go ctx'
      → ctx.service_identity ≡ before_colon (drop 7 r.authorization)
      → IsProxy r
  unfolding require_mtls_cert
  mtls-go r ctx ctx' h e = elim (Option-cases r.peer_common_name) [
    | inl missing ↦ ground (arith, text_eq_iff ctx.service_identity (text "proxy"))
    | inr (name, given) ↦ ground (arith, text_eq_iff name (text "proxy"))
  ]

  pub require_tenant-go :
      (r : Request) (ctx : Context) (s : Store w.redis.Cache) {ctx' : Context}
      {t : Store w.redis.Cache}
      → require_tenant w r ctx s ≡ (go ctx', t)
      → (tenant_id_pattern r.x_tenant_id ≡ true)
        × ((tenant : Tenant) × (find (is_named r.x_tenant_id) s.tenants ≡ some tenant)
            × (tenant.status ≡ TenantStatus.active)
            × (ctx' ≡ record ctx { tenant = some tenant }))
  unfolding require_tenant Repository.Tenants.find_by_tenant_id
  require_tenant-go r ctx s h = bind-go _ _ s h λ u s₁ named h₁. bind-go _ _ s₁ h₁ λ u₂ s₂ fits h₂.
      bind-go _ _ s₂ h₂ λ found s₃ looked h₃. bind-go _ _ s₃ h₃ λ tenant s₄ there h₄.
        bind-go _ _ s₄ h₄ λ u₅ s₅ active h₅.
          let (row, ticked) = query-some w _ s₂ (or_reply-go _ _ s₂ looked) in
          let (is, _) = present-go _ _ s₃ there in
          let (pattern, stays₂) = require-go _ _ s₁ fits in
          let (_, stays) = require-go _ _ s named in
          let on : tenant.status ≡ TenantStatus.active =
            (let a = (require-go _ _ s₄ active).0 in ground arith) in
          (pattern, (tenant, rw (stays, stays₂) (row ∙ is), on, sym (pure-go _ s₅ h₅).0))

  -- The tenant that is put into the context is the one that the header names.
  pub require_tenant-own :
      (r : Request) (ctx : Context) (s : Store w.redis.Cache) {ctx' : Context}
      {t : Store w.redis.Cache}
      → require_tenant w r ctx s ≡ (go ctx', t)
      → (tenant : Tenant) → ctx'.tenant ≡ some tenant
      → tenant.tenant_id ≡ r.x_tenant_id
  require_tenant-own r ctx s h tenant has =
      let (_, (named, found, _, e)) = require_tenant-go r ctx s h in
      let same : named ≡ tenant = (let q = ap (λ (x : Context). x.tenant) e in cc) in
      (text_eq_iff tenant.tenant_id r.x_tenant_id).0 (rw (← same) (find_sound _ s.tenants found))

  -- The correlation ID is the only call that is made before the route's own middleware.
  correlation-go :
      (r : Request) (ctx : Context) (s : Store w.redis.Cache) {ctx' : Context}
      {t : Store w.redis.Cache}
      → correlation_id_middleware w r ctx s ≡ (go ctx', t)
      → t.tenants ≡ s.tenants
  unfolding correlation_id_middleware pure
  correlation-go r ctx s h = ground arith

module _ (w : World) (cfg : TokenizeConfig) (pings : Pings) where
  from_proxy :
      (body : Option Text) (r : Request) (ctx : Context) (s : Store w.redis.Cache) {a : Response}
      {t : Store w.redis.Cache}
      → serve_vault w cfg pings (detokenize_call body) r ctx s ≡ (go a, t)
      → ctx.service_identity ≡ before_colon (drop 7 r.authorization)
      → IsProxy r
  unfolding serve_vault
  from_proxy body r ctx s h e =
      bind-go _ _ s h λ ctx' s₁ passed h₁. mtls-go w r ctx ctx' (lift-go w _ s passed).0 e

  -- What the middleware of the group has seen to, and where the handler starts.
  admitted :
      (c : VaultCall) (r : Request) (s : Store w.redis.Cache) {a : Response}
      {t : Store w.redis.Cache}
      → answer w cfg pings (vault c) r s ≡ (go a, t)
      → (starts_with (text "Bearer ") r.authorization ≡ true)
        × (tenant_id_pattern r.x_tenant_id ≡ true)
        × ((tenant : Tenant) × (find (is_named r.x_tenant_id) s.tenants ≡ some tenant)
            × (tenant.status ≡ TenantStatus.active))
        × ((ctx : Context) × (u : Store w.redis.Cache) × (serve_vault w cfg pings c r ctx u
              ≡ (go a, t))
            × (ctx.service_identity ≡ before_colon (drop 7 r.authorization)))
  unfolding answer serve_call
  admitted c r s h = bind-go _ _ s h λ ctx s₁ named h₁. bind-go _ _ s₁ h₁ λ known s₂ bearer h₂.
      bind-go _ _ s₂ h₂ λ scoped s₃ tenanted h₃.
        let (passed, stays) = lift-go w _ s₁ bearer in
        let (has_bearer, e) = bearer_auth-go w r ctx known passed in
        let (pattern, (tenant, found, active, e₂)) = require_tenant-go w r known s₂ tenanted in
        let named_by : scoped.service_identity ≡ before_colon (drop 7 r.authorization) =
          ap (λ (x : Context). x.service_identity) e₂
          ∙ ap (λ (x : Context). x.service_identity) e in
        let same : s₂.tenants ≡ s.tenants =
          ap (λ (x : Store w.redis.Cache). x.tenants) (sym stays)
          ∙ correlation-go w r background s named in
        (
          has_bearer,
          pattern,
          (tenant, ap (find (is_named r.x_tenant_id)) (sym same) ∙ found, active),
          (scoped, s₃, h₃, named_by),
        )

  -- A tenant-scoped call that ran to its end, no error written by a middleware or by the handler's
  -- checks, had a Bearer header and a tenant id in the pattern that names an active tenant of the table.
  pub vault_call_allowed :
      (c : VaultCall) (r : Request) (s : Store w.redis.Cache) {a : Response}
      {t : Store w.redis.Cache}
      → answer w cfg pings (vault c) r s ≡ (go a, t)
      → (starts_with (text "Bearer ") r.authorization ≡ true)
        × (tenant_id_pattern r.x_tenant_id ≡ true)
        × ((tenant : Tenant) × (find (is_named r.x_tenant_id) s.tenants ≡ some tenant)
            × (tenant.status ≡ TenantStatus.active))
  vault_call_allowed c r s h =
      let (bearer, pattern, tenant, _) = admitted c r s h in (bearer, pattern, tenant)

  -- A detokenize call that ran to its end presented a client certificate for proxy, or none at all and
  -- a bearer token whose text before the colon, which nothing verifies, is "proxy".
  pub detokenize_call_names_proxy :
      (body : Option Text) (r : Request) (s : Store w.redis.Cache) {a : Response}
      {t : Store w.redis.Cache}
      → answer w cfg pings (vault (detokenize_call body)) r s ≡ (go a, t)
      → IsProxy r
  detokenize_call_names_proxy body r s h =
      let (_, _, _, (ctx, u, served, e)) = admitted (detokenize_call body) r s h in
      from_proxy body r ctx u served e
