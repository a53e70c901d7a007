-- ===== src/Routes.antt =====
-- cmd/tokenizer/main.go and cmd/proxy/main.go: which handler serves which route, behind which
-- middleware. chi's matching of methods and paths is not modelled: a call is a request that was
-- matched, with its path parameter, its query and its decoded body.

pub mod Guards
pub mod Keeps
pub mod Passes
pub mod Logged
use vaulty.Prelude.{Option, none, some, Text, text}
use vaulty.Json.{Fields}
use vaulty.Server.{Response, ok}
use vaulty.World.{World}
use vaulty.Store.{call, Store, Handler, Action, Outcome, go, reply, ◌>>=◌, pure, lift, response_of}
use vaulty.Auth.{
  Request, Context, background, bearer_auth, require_mtls_cert, extract_tenant_header,
  correlation_id_middleware, require_tenant,
}
use vaulty.Handler.Tokenize.{TokenizeConfig, tokenize}
use vaulty.Handler.Detokenize.{detokenize}
use vaulty.Handler.TokenManage.{get_status, deactivate, get_audit_trail}
use vaulty.Handler.Tenant.{CreateTenantRequest}
use vaulty.Handler
use vaulty.Handler.Health.{Pings, health, proxy_pings}
use vaulty.Proxy.{Network}
use vaulty.Proxy.Revealer.{Revealer}
use vaulty.Proxy.ForwardHandler.{ForwardRequest, forward_handler}

-- The group without tenant middleware
pub data AdminCall : Type 0 where
  create_tenant : Option CreateTenantRequest → AdminCall
  list_tenants : Text → Text → AdminCall
  get_tenant deactivate_tenant : Text → AdminCall

-- The tenant-scoped group
pub data VaultCall : Type 0 where
  tokenize_call : Option Fields → VaultCall
  status_call deactivate_call : Text → VaultCall
  audit_call : Text → Text → Text → VaultCall
  detokenize_call : Option Text → VaultCall

pub data Call : Type 0 where
  health_call : Call
  admin : AdminCall → Call
  vault : VaultCall → Call

module _ (w : World) (cfg : TokenizeConfig) (pings : Pings) where
  unfoldable pub serve_admin : AdminCall → Context → Handler w.redis.Cache Response
  serve_admin (create_tenant body) ctx = Handler.Tenant.create w ctx body
  serve_admin (list_tenants limit offset) ctx = Handler.Tenant.list_tenants w ctx limit offset
  serve_admin (get_tenant id) ctx = Handler.Tenant.get w ctx id
  serve_admin (deactivate_tenant id) ctx = Handler.Tenant.deactivate w ctx id

  unfoldable pub serve_vault : VaultCall → Request → Context → Handler w.redis.Cache Response
  serve_vault (tokenize_call body) r ctx = tokenize w cfg ctx body
  serve_vault (status_call token_id) r ctx = get_status w ctx token_id
  serve_vault (deactivate_call token_id) r ctx = deactivate w ctx token_id
  serve_vault (audit_call token_id limit offset) r ctx = get_audit_trail w ctx token_id limit offset
  serve_vault (detokenize_call body) r ctx = do
    ctx' ← lift (require_mtls_cert (text "proxy") r ctx)
    detokenize w ctx' body

  unfoldable pub serve_call : Call → Request → Context → Handler w.redis.Cache Response
  serve_call health_call r ctx = call (health pings)
  serve_call (admin call) r ctx = do ctx' ← lift (bearer_auth r ctx); serve_admin call ctx'
  serve_call (vault call) r ctx = do
    named ← lift (bearer_auth r ctx)
    scoped ← require_tenant w r named
    serve_vault call r scoped

  unfoldable pub answer : Call → Request → Handler w.redis.Cache Response
  unfolding serve_call
  answer c r = do ctx ← correlation_id_middleware w r background; serve_call c r ctx

  -- The tokenizer service answers a call.
  unfoldable pub serve : Call → Request → Action w.redis.Cache Response
  serve c r s = let (o, s') = answer c r s in (response_of o, s')

-- The route /proxy/forward of the proxy service, with the request's correlation ID in the context.
unfoldable pub serve_forward :
    (net : Network)
    → Revealer
    → Context
    → Request
    → Option ForwardRequest
    → net.State
    → Response × net.State
serve_forward net rv ctx r body s = elim (bearer_auth r ctx) [
  | reply refused ↦ (refused, s)
  | go named ↦ elim (extract_tenant_header r named) [
    | reply refused ↦ (refused, s)
    | go scoped ↦ forward_handler net rv scoped body s
  ]
]

-- /health of the proxy service
unfoldable pub serve_proxy_health : {C : Type 0} → Action C Response
serve_proxy_health = health proxy_pings
