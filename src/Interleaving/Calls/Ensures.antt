-- ===== src/Interleaving/Calls/Ensures.antt =====
-- What a detokenize call answers while other calls make statements between its own.
use vaulty.Interleaving.Actions.Ensures.{Faults, Ensures-query}
use vaulty.Repository.Tenants.{is_named}
use vaulty.Pattern.{tenant_id_pattern}
use mathlib.Core.Path.{subst}
use vaulty.Prelude.{
  Bool-cases, ◌||◌, Option, none, refl, not, find, drop, text_eq, inl, inr, [], ◌⊎◌, ◌≢◌, Bool,
  true, false, some, ◌≡◌, ◌∙◌, sym, Text, text, arith,
}
use vaulty.Server.{Response}
use vaulty.Model.{is_active_tenant, Tenant}
use vaulty.World.{World}
use vaulty.Store.{Store, Outcome, go, reply, response_of}
use vaulty.Auth.{starts_with, before_colon, Context, Request, bearer_auth, require_mtls_cert}
use vaulty.Handler.Health.{Pings}
use vaulty.Handler.Tokenize.{TokenizeConfig}
use vaulty.Handler.Keeps.{Scope}
use vaulty.Routes.{vault, detokenize_call}
use vaulty.Routes.Guards.{mtls-tenant}
use vaulty.Interleaving.Program.Ensures.{
  Ensures, OnGo, Ensures-bind, Ensures-or_reply, Ensures-present, Ensures-require, Ensures-step,
  Ensures-returned, Ensures-pure, Ensures-next,
}
use vaulty.Interleaving.Program.Known.Ensures.{Ensures-bind_lift, Ensures-bind_checked}
use vaulty.Interleaving.Handlers.{OwnTenant}
use vaulty.Interleaving.Handlers.Ensures.{IsPan, detokenize-Ensures}
use vaulty.Interleaving.Calls.{
  is_of, May, correlation_or_random-Runs, correlation-Runs, require_tenant-Runs, serve_vault-Runs,
  serve_call-Runs, serve-Runs, tenant_of_test,
}
use vaulty.Vaulted.{IsVaulted}

-- A tenant row that is fit to serve the call, or why there is none.
abbrev pub IsFit : Type 0 → Text → Option Tenant → Type 0
IsFit Fault tenant_id none = Fault
IsFit Fault tenant_id (some t) =
    (text_eq t.tenant_id tenant_id ≡ true) × (is_active_tenant t.status ≡ false → Fault)

-- What follows where the middleware refuses the request, one field for each refusal.
pub record Refusals (w : World) (r : Request) (P : Store w.redis.Cache → Type 0) (Fault : Type 0)
    : Type 0 where
  pub bearer :
      (text_eq r.authorization [] || not (starts_with (text "Bearer ") r.authorization)) ≡ true
      → Fault
  pub proxy :
      (ctx : Context)
      → ctx.service_identity ≡ before_colon (drop 7 r.authorization)
      → OnGo Fault (λ c. Unit) (require_mtls_cert (text "proxy") r ctx)
  pub named : not (text_eq r.x_tenant_id []) ≡ false → Fault
  pub pattern : tenant_id_pattern r.x_tenant_id ≡ false → Fault
  pub tenant :
      (s : Store w.redis.Cache)
      → P s
      → IsFit Fault r.x_tenant_id (find (is_named r.x_tenant_id) s.tenants)

module _ (w : World) (cfg : TokenizeConfig) (pings : Pings) (scope : Scope)
    (changes : Text → Text → Type 0) (P : Store w.redis.Cache → Type 0) (Fault : Type 0)
    (faults : Faults w Fault) (r : Request) (refusals : Refusals w r P Fault) where
  correlation_or_random-Ensures :
      (missing : Bool) (ctx : Context)
      → Ensures w scope changes P Fault
          (OnGo Fault λ c. Unit)
          (correlation_or_random-Runs w cfg pings scope changes missing r ctx).code
  unfolding correlation_or_random-Runs
  correlation_or_random-Ensures true ctx = Ensures-step w scope changes P Fault _ _ λ s p. tt
  correlation_or_random-Ensures false ctx = Ensures-returned w scope changes P Fault _ _ tt

  bearer-go :
      (ctx : Context)
      → OnGo Fault
          (λ c. c.service_identity ≡ before_colon (drop 7 r.authorization))
          (bearer_auth r ctx)
  unfolding bearer_auth
  bearer-go ctx =
      elim (Bool-cases
        (text_eq r.authorization [] || not (starts_with (text "Bearer ") r.authorization))) [
          | inl bad ↦ rw bad ((λ h. omega (arith, h)), refusals.bearer bad)
          | inr good ↦ rw good refl
        ]

  bearer-unit :
      (Q : Context → Type 0) (o : Outcome Context) → OnGo Fault Q o → OnGo Fault (λ c. Unit) o
  bearer-unit Q (go c) h = tt
  bearer-unit Q (reply q) h = h

  bearer-known :
      (Q : Context → Type 0) (o : Outcome Context) (c : Context) → OnGo Fault Q o → o ≡ go c → Q c
  bearer-known Q o c h e = subst (OnGo Fault Q) e h

  -- The context that the tenant middleware hands on
  abbrev IsScoped : Context → Context → Type 0
  IsScoped known c =
      (is_of r.x_tenant_id c ≡ true)
      × (c.tenant ≡ none → Fault)
      × (c.service_identity ≡ known.service_identity)

  require_tenant-Ensures :
      (ctx : Context)
      → Ensures w scope changes P Fault
          (OnGo Fault (IsScoped ctx))
          (require_tenant-Runs w cfg pings scope changes r ctx).code
  unfolding require_tenant-Runs
  require_tenant-Ensures ctx =
      Ensures-bind w scope changes P Fault (λ u. Unit) (IsScoped ctx) _ _
        (Ensures-require w scope changes P Fault _ _ (λ h. omega (arith, h)) refusals.named)
        λ u named.
          Ensures-bind w scope changes P Fault (λ u. Unit) (IsScoped ctx) _ _
            (Ensures-require w scope changes P Fault _ _ (λ h. omega (arith, h)) refusals.pattern)
            λ u fits.
              Ensures-bind w scope changes P Fault (IsFit Fault r.x_tenant_id) (IsScoped ctx) _ _
                (Ensures-or_reply w scope changes P Fault (IsFit Fault r.x_tenant_id) _ _
                  (λ h. omega (arith, h))
                  (Ensures-query w cfg scope changes P Fault faults (IsFit Fault r.x_tenant_id) _
                    refusals.tenant))
                λ o found.
                  Ensures-bind w scope changes P Fault (λ t. IsFit Fault r.x_tenant_id (some t))
                    (IsScoped ctx) _ _
                    (Ensures-present w scope changes P Fault
                      (λ t. IsFit Fault r.x_tenant_id (some t)) _ _ (λ h. omega (arith, h))
                      (λ e. subst (IsFit Fault r.x_tenant_id) e found)
                      λ t e. subst (IsFit Fault r.x_tenant_id) e found)
                    λ t (own, active).
                      Ensures-bind w scope changes P Fault (λ u. Unit) (IsScoped ctx) _ _
                        (Ensures-require w scope changes P Fault _ _ (λ h. omega (arith, h)) active)
                        λ u on.
                          Ensures-pure w scope changes P Fault (IsScoped ctx) _
                            (own, (λ h. absurd (cc)), refl)

  module _ (token_id pan : Text)
      (vaulted : (s : Store w.redis.Cache) → P s → IsVaulted w r.x_tenant_id token_id pan s) where
    serve_vault-Ensures :
        (ctx : Context) (own : OwnTenant w cfg scope changes ctx) (may : Unit)
        → ctx.service_identity ≡ before_colon (drop 7 r.authorization)
        → (ctx.tenant ≡ none → Fault)
        → ((t : Tenant) → ctx.tenant ≡ some t → t.tenant_id ≡ r.x_tenant_id)
        → Ensures w scope changes P Fault
            (OnGo Fault (IsPan pan))
            (serve_vault-Runs w cfg pings scope changes
              (detokenize_call (some token_id))
              r
              ctx
              own
              may).code
    unfolding serve_vault-Runs
    serve_vault-Ensures ctx own may identity known same =
        Ensures-bind_lift w scope changes P Fault (IsPan pan) _ _ _ (refusals.proxy ctx identity)
          λ ctx' e.
            let kept : ctx'.tenant ≡ ctx.tenant = mtls-tenant r ctx ctx' e in
            detokenize-Ensures w cfg scope changes P Fault faults pan ctx' r.x_tenant_id token_id _
              vaulted (λ missing. known (sym kept ∙ missing)) λ t has. same t (sym kept ∙ has)

    serve_call-Ensures :
        (ctx : Context) (may : May scope changes (vault (detokenize_call (some token_id))) r)
        → Ensures w scope changes P Fault
            (OnGo Fault (IsPan pan))
            (serve_call-Runs w cfg pings scope changes
              (vault (detokenize_call (some token_id)))
              r
              ctx
              may).code
    unfolding serve_call-Runs
    serve_call-Ensures ctx (own, may) =
        Ensures-bind_lift w scope changes P Fault (IsPan pan) _ _ _
          (bearer-unit _ (bearer_auth r ctx) (bearer-go ctx))
          λ known e.
            Ensures-bind_checked w scope changes P Fault (IsScoped known) (IsPan pan) _ _ _ _ _
              (λ h. omega (arith, h))
              (λ c q off. absurd (let is : is_of r.x_tenant_id c ≡ true = q.0 in cc))
              (require_tenant-Ensures known)
              λ scoped h (is, has, kept).
                serve_vault-Ensures scoped _ may
                  (kept ∙ bearer-known _ (bearer_auth r ctx) known (bearer-go ctx) e) has
                  (tenant_of_test w cfg pings scope changes r.x_tenant_id scoped h)

    -- A detokenize call in the tenant's name answers with the PAN, or not with 200 after a fault or a
    -- refusal.
    pub serve-Ensures :
        (may : May scope changes (vault (detokenize_call (some token_id))) r)
        → Ensures w scope changes P Fault
            (λ resp. IsPan pan resp ⊎ (resp.status ≢ 200) × Fault)
            (serve-Runs w cfg pings scope changes
              (vault (detokenize_call (some token_id)))
              r
              may).code
    unfolding serve-Runs correlation-Runs
    serve-Ensures may =
        Ensures-next w scope changes P Fault (OnGo Fault (IsPan pan))
          (λ resp. IsPan pan resp ⊎ (resp.status ≢ 200) × Fault) _ _
          (Ensures-bind w scope changes P Fault (λ c. Unit) (IsPan pan) _ _
            (correlation_or_random-Ensures _ _) λ ctx u. serve_call-Ensures ctx may)
          λ o h. Ensures-returned w scope changes P Fault _ _ (on o h)
      where
        on :
            (o : Outcome Response)
            → OnGo Fault (IsPan pan) o
            → IsPan pan (response_of o) ⊎ ((response_of o).status ≢ 200) × Fault
        on (go resp) h = inl h
        on (reply resp) h = inr h
