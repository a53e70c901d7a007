-- ===== src/Interleaving/Calls.antt =====
-- The code of a call, from its request to its response.
pub mod Ensures
use vaulty.Prelude.{
  ℕ, Bool, true, false, Option, none, some, List, [], ◌∷◌, Text, text, text_eq, text_eq_iff,
  text_eq_refl, ◌≡◌, refl, sym, ◌∙◌, ap, if◌then◌else◌, arith,
}
use vaulty.Server.{Response, internal_error}
use vaulty.Model.{Tenant}
use vaulty.World.{World}
use vaulty.Store.{Store, Action, Handler, tick, go, reply, Outcome, pure, lift, response_of}
use vaulty.Repository
use vaulty.Crypto.{hex}
use vaulty.Auth.{
  require_mtls_cert, Context, Request, background, require_tenant, correlation_id_middleware,
  read_or_zero, bearer_auth,
}
use vaulty.Handler.Health.{Pings, check, health, health_response}
use vaulty.Handler.Tokenize.{TokenizeConfig}
use vaulty.Handler.Keeps.{Scope}
use vaulty.Routes.Guards.{require_tenant-own, mtls-tenant}
use vaulty.Routes.{
  AdminCall, create_tenant, list_tenants, get_tenant, deactivate_tenant, VaultCall, tokenize_call,
  status_call, deactivate_call, audit_call, detokenize_call, Call, health_call, admin, vault,
  serve_admin, serve_vault, serve_call, answer, serve,
}
use vaulty.Interleaving.Code.{Code, Statement, done, step, run, external}
use vaulty.Interleaving.Program.{
  Program-call, Program, Program-step, Program-next, Program-returned, Program-pure,
  Program-or_reply, Program-present, Program-require, Program-bind,
}
use vaulty.Interleaving.Program.Known.{Program-bind_checked, Program-bind_lift}
use vaulty.Interleaving.Actions.{Program-query}
use vaulty.Interleaving.Handlers.Tenants.{
  create_tenant-Runs, get_tenant-Runs, list_tenants-Runs, deactivate_tenant-Runs,
}
use vaulty.Interleaving.Handlers.{
  OwnTenant, tokenize-Runs, detokenize-Runs, get_status-Runs, get_audit_trail-Runs, deactivate-Runs,
}

module _ (scope : Scope) (changes : Text → Text → Type 0) where
  -- A call that deactivates a token may do so.
  abbrev pub MayChange : VaultCall → Type 0
  MayChange (deactivate_call token_id) = (a : Text) → scope.tenant a → changes a token_id
  MayChange _ = Unit

  abbrev pub May : Call → Request → Type 0
  May (vault c) r = scope.tenant r.x_tenant_id × MayChange c
  May (admin c) r = scope.admin
  May health_call r = Unit

-- Whether the tenant of the context, if there is one, has the id.
abbrev is_of : Text → Context → Bool
is_of tenant_id ctx = elim ctx.tenant [ none ↦ true | some t ↦ text_eq t.tenant_id tenant_id ]

module _ (w : World) (cfg : TokenizeConfig) (pings : Pings) (scope : Scope)
    (changes : Text → Text → Type 0) where
  abbrev Runs : {R : Type 0} → Action w.redis.Cache R → Type 1
  Runs m = Program w scope changes m

  correlation_or_random-Runs :
      (missing : Bool) (r : Request) (ctx : Context)
      → Runs (
          if missing
          then (λ s.
              pure
                (record ctx { correlation_id = hex (read_or_zero (w.rand_read s.calls 16)) })
                (tick s))
          else pure (record ctx { correlation_id = r.x_correlation_id }))
  unfolding pure
  correlation_or_random-Runs true r ctx =
      Program-step _
        (external λ n. go (record ctx { correlation_id = hex (read_or_zero (w.rand_read n 16)) }))
  correlation_or_random-Runs false r ctx = Program-returned _

  correlation-Runs : (r : Request) (ctx : Context) → Runs (correlation_id_middleware w r ctx)
  unfolding correlation_id_middleware pure
  correlation-Runs r ctx = correlation_or_random-Runs (text_eq r.x_correlation_id []) r ctx

  require_tenant-Runs : (r : Request) (ctx : Context) → Runs (require_tenant w r ctx)
  unfolding require_tenant Repository.Tenants.find_by_tenant_id
  require_tenant-Runs r ctx = Program-bind _ _ (Program-require _ _) λ named.
      Program-bind _ _ (Program-require _ _) λ fits.
        Program-bind _ _ (Program-or_reply _ _ (Program-query w cfg scope changes _)) λ found.
          Program-bind _ _ (Program-present _ _)
            λ tenant. Program-bind _ _ (Program-require _ _) λ active. Program-pure _

  serve_admin-Runs :
      (c : AdminCall) (ctx : Context) → scope.admin → Runs (serve_admin w cfg pings c ctx)
  unfolding serve_admin
  serve_admin-Runs (create_tenant body) ctx may =
      create_tenant-Runs w cfg scope changes ctx body may
  serve_admin-Runs (list_tenants l o) ctx may = list_tenants-Runs w cfg scope changes ctx l o
  serve_admin-Runs (get_tenant id) ctx may = get_tenant-Runs w cfg scope changes ctx id
  serve_admin-Runs (deactivate_tenant id) ctx may =
      deactivate_tenant-Runs w cfg scope changes ctx id may

  serve_vault-Runs :
      (c : VaultCall) (r : Request) (ctx : Context)
      → OwnTenant w cfg scope changes ctx
      → MayChange scope changes c
      → Runs (serve_vault w cfg pings c r ctx)
  unfolding serve_vault
  serve_vault-Runs (tokenize_call body) r ctx own may =
      tokenize-Runs w cfg scope changes ctx body own
  serve_vault-Runs (status_call t) r ctx own may = get_status-Runs w cfg scope changes ctx t own
  serve_vault-Runs (deactivate_call t) r ctx own may =
      deactivate-Runs w cfg scope changes ctx t own may
  serve_vault-Runs (audit_call t l o) r ctx own may =
      get_audit_trail-Runs w cfg scope changes ctx t l o
  serve_vault-Runs (detokenize_call body) r ctx own may = Program-bind_lift _ _ λ ctx' e.
      detokenize-Runs w cfg scope changes ctx' body
        λ tenant has. own tenant (sym (mtls-tenant r ctx ctx' e) ∙ has)

  tenant_of_test :
      (tenant_id : Text) (ctx : Context)
      → is_of tenant_id ctx ≡ true
      → (t : Tenant) → ctx.tenant ≡ some t
      → t.tenant_id ≡ tenant_id
  tenant_of_test tenant_id ctx h t has =
      (text_eq_iff t.tenant_id tenant_id).0 (ground (arith, has, h))

  own_of_test :
      (r : Request) (ctx : Context)
      → scope.tenant r.x_tenant_id
      → is_of r.x_tenant_id ctx ≡ true
      → OwnTenant w cfg scope changes ctx
  own_of_test r ctx own h t has = rw (tenant_of_test r.x_tenant_id ctx h t has) own

  passes_test :
      (r : Request) (ctx : Context) (s : Store w.redis.Cache) (ctx' : Context)
      (t : Store w.redis.Cache)
      → require_tenant w r ctx s ≡ (go ctx', t)
      → is_of r.x_tenant_id ctx' ≡ true
  passes_test r ctx s ctx' t h = on ctx'.tenant refl
    where
      on :
          (o : Option Tenant)
          → ctx'.tenant ≡ o
          → elim o [ none ↦ true | some u ↦ text_eq u.tenant_id r.x_tenant_id ] ≡ true
      on none e = refl
      on (some u) e = rw (require_tenant-own w r ctx s h u e) (text_eq_refl r.x_tenant_id)

  check-Runs : (ping : Option (ℕ → Bool)) → Runs (check ping)
  unfolding check
  check-Runs none = Program-returned none
  check-Runs (some answers) = Program-step _ (external λ n. some (answers n))

  health-Runs : Runs (health pings)
  unfolding health
  health-Runs = Program-next _ _ (check-Runs pings.database) λ database.
      Program-next _ _ (check-Runs pings.redis) λ redis.
        Program-next _ (λ kms s. (health_response database redis kms, s)) (check-Runs pings.kms)
          λ kms. Program-returned _

  serve_call-Runs :
      (c : Call) (r : Request) (ctx : Context)
      → May scope changes c r
      → Runs (serve_call w cfg pings c r ctx)
  unfolding serve_call
  serve_call-Runs health_call r ctx may = Program-call _ health-Runs
  serve_call-Runs (admin c) r ctx may = Program-bind_lift _ _ λ ctx' e. serve_admin-Runs c ctx' may
  serve_call-Runs (vault c) r ctx (own, may) = Program-bind_lift _ _ λ known e.
      Program-bind_checked _ _ (is_of r.x_tenant_id) (internal_error ctx.correlation_id)
        (passes_test r known) (require_tenant-Runs r known)
        λ scoped h. serve_vault-Runs c r scoped (own_of_test r scoped own h) may

  pub serve-Runs : (c : Call) (r : Request) → May scope changes c r → Runs (serve w cfg pings c r)
  unfolding serve answer
  serve-Runs c r may =
      Program-next (answer w cfg pings c r) (λ o s. (response_of o, s))
        (Program-bind _ _ (correlation-Runs r background) λ ctx. serve_call-Runs c r ctx may)
        λ o. Program-returned _
