-- ===== src/Routes/Passes.antt =====
-- A reveal call with everything that the middleware asks for reaches its handler.
use vaulty.Prelude.{
  inl, inr, Bool-cases, ℕ, true, false, some, [], ◌∷◌, ◌≡◌, refl, ◌∙◌, ap, Text, text, text_eq,
  text_eq_refl, find, arith, drop,
}
use vaulty.Model.{Tenant, TenantStatus}
use vaulty.World.{World}
use vaulty.Store.{Store, go, tick, ◌>>=◌, lift, pure}
use vaulty.Store.Invert.{bind-of_go}
use vaulty.Repository
use vaulty.Repository.Rows.{query}
use vaulty.Repository.Tenants.{is_named}
use vaulty.Pattern.{tenant_id_pattern}
use vaulty.Crypto.{hex}
use vaulty.Auth.{
  read_or_zero, Request, Context, background, starts_with, before_colon, bearer_auth,
  require_mtls_cert, correlation_id_middleware, require_tenant,
}
use vaulty.Handler.Tokenize.{TokenizeConfig}
use vaulty.Handler.Detokenize.{detokenize}
use vaulty.Handler.Health.{Pings}
use vaulty.Routes.Guards.{IsProxy}
use vaulty.Routes.{vault, detokenize_call, serve_call, serve_vault, answer}

-- A call that names the proxy, by a client certificate, or without one by its bearer token, and an
-- active tenant.
pub record IsProxyCall (w : World) (r : Request) (tenant : Tenant) (s : Store w.redis.Cache)
    : Type 0 where
  pub bearer : starts_with (text "Bearer ") r.authorization ≡ true
  pub caller : IsProxy r
  pub pattern : tenant_id_pattern r.x_tenant_id ≡ true
  pub found : find (is_named r.x_tenant_id) s.tenants ≡ some tenant
  pub active : tenant.status ≡ TenantStatus.active

pub pattern-named : (t : Text) → tenant_id_pattern t ≡ true → text_eq t [] ≡ false
unfolding tenant_id_pattern text_eq
pattern-named [] h = ground arith
pattern-named (b ∷ t) h = refl

module _ (w : World) (up : (n : ℕ) → w.db_fails n ≡ false) where
  bearer_auth-passes :
      (r : Request) (ctx : Context)
      → starts_with (text "Bearer ") r.authorization ≡ true
      → bearer_auth r ctx
        ≡ go (record ctx { service_identity = before_colon (drop 7 r.authorization) })
  unfolding bearer_auth text_eq
  bearer_auth-passes r ctx h = ground arith

  pub mtls-passes :
      (r : Request) (ctx : Context)
      → IsProxy r
      → ctx.service_identity ≡ before_colon (drop 7 r.authorization)
      → require_mtls_cert (text "proxy") r ctx ≡ go ctx
  unfolding require_mtls_cert
  mtls-passes r ctx (inl given) e = ground (arith, given, text_eq_refl (text "proxy"))
  mtls-passes r ctx (inr (missing, named)) e =
      let q : ctx.service_identity ≡ text "proxy" = e ∙ named in
      ground (arith, missing, q, text_eq_refl (text "proxy"))

  require_tenant-passes :
      (r : Request) (ctx : Context) (tenant : Tenant) (s : Store w.redis.Cache)
      → IsProxyCall w r tenant s
      → require_tenant w r ctx s ≡ (go (record ctx { tenant = some tenant }), tick s)
  unfolding require_tenant Repository.Tenants.find_by_tenant_id query ◌>>=◌ tenant_id_pattern
      text_eq
  require_tenant-passes r ctx tenant s h =
      ground
        (arith, up s.calls, h.pattern, pattern-named r.x_tenant_id h.pattern, h.found, h.active)

  pub seen :
      {r : Request} {tenant : Tenant} {s u : Store w.redis.Cache}
      → IsProxyCall w r tenant s
      → u.tenants ≡ s.tenants
      → IsProxyCall w r tenant u
  seen h e = record {
    bearer = h.bearer;
    caller = h.caller;
    pattern = h.pattern;
    found = rw e h.found;
    active = h.active;
  }

  correlated :
      (r : Request) (s : Store w.redis.Cache)
      → (c : Context) × (t : Store w.redis.Cache) × (correlation_id_middleware w r background s
          ≡ (go c, t))
        × (t.tenants ≡ s.tenants)
        × (t.tokens ≡ s.tokens)
        × (t.vault_entries ≡ s.vault_entries)
  unfolding correlation_id_middleware pure
  correlated r s = elim (Bool-cases (text_eq r.x_correlation_id [])) [
    | inl missing ↦ (
      record background { correlation_id = hex (read_or_zero (w.rand_read s.calls 16)) },
      tick s,
      rw missing refl,
      refl,
      refl,
      refl,
    )
    | inr given ↦ (
      record background { correlation_id = r.x_correlation_id },
      s,
      rw given refl,
      refl,
      refl,
      refl,
    )
  ]

  -- The call's context is the proxy's, for the tenant.
  pub served_by_handler :
      (cfg : TokenizeConfig) (pings : Pings) (token_id : Text) (r : Request) (tenant : Tenant)
      (s : Store w.redis.Cache)
      → IsProxyCall w r tenant s
      → (ctx : Context) × (u : Store w.redis.Cache) × (ctx.tenant ≡ some tenant)
        × (u.tenants ≡ s.tenants)
        × (u.tokens ≡ s.tokens)
        × (u.vault_entries ≡ s.vault_entries)
        × (answer w cfg pings (vault (detokenize_call (some token_id))) r s
            ≡ detokenize w ctx (some token_id) u)
  unfolding answer serve_call serve_vault lift
  served_by_handler cfg pings token_id r tenant s h =
      let (c, s₁, named, e, e', e'') = correlated r s in
      let known : Context = record c { service_identity = before_colon (drop 7 r.authorization) } in
      let scoped : Context = record known { tenant = some tenant } in
      (
        scoped,
        tick s₁,
        refl,
        e,
        e',
        e'',
        bind-of_go _ _ s named
            ∙ bind-of_go _ _ s₁ (ap (λ o. (o, s₁)) (bearer_auth-passes r c h.bearer))
            ∙ bind-of_go _ _ s₁ (require_tenant-passes r known tenant s₁ (seen h e))
            ∙ bind-of_go _ _ (tick s₁)
                (ap (λ o. (o, tick s₁)) (mtls-passes r scoped h.caller refl)),
      )
