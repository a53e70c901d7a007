-- ===== src/Routes/Logged.antt =====
-- NewRouter and structuredLoggingMiddleware of internal/server/router.go: the request log of a call.
use vaulty.Prelude.{Bool-cases, inl, inr, text_eq, [], ℕ, ◌-◌, ◌/◌, ◌++◌, Text, text, ◌≡◌, refl}
use vaulty.Server.{Response}
use vaulty.World.{World}
use vaulty.Store.{pure, Store, Handler, Action, go, ◌>>=◌, call, response_of}
use vaulty.Auth.{Request, Context, background, correlation_id_middleware}
use vaulty.Handler.Health.{Pings}
use vaulty.Handler.Tokenize.{TokenizeConfig}
use vaulty.Routes.{
  AdminCall, create_tenant, list_tenants, get_tenant, deactivate_tenant, VaultCall, tokenize_call,
  status_call, deactivate_call, audit_call, detokenize_call, Call, health_call, admin, vault,
  serve_call, answer, serve,
}

-- The line "request" of the process log
pub record RequestLog : Type 0 where
  pub method : Text
  pub path : Text
  pub status : ℕ
  pub duration_ms : ℕ
  pub correlation_id : Text

module _ (w : World) where
  unfoldable pub structured_logging_middleware :
      Text
      → Text
      → Context
      → Action w.redis.Cache Response
      → Action w.redis.Cache (Response × RequestLog)
  structured_logging_middleware method path ctx next s =
      let (resp, t) = next s in
      (
        (
          resp,
          record {
            method = method;
            path = path;
            status = resp.status;
            duration_ms = (w.now t.calls - w.now s.calls) / 1000000;
            correlation_id = ctx.correlation_id;
          },
        ),
        t,
      )

  -- What chi calls for a request: the middleware in their order, then the route's own part. A panic,
  -- which Recoverer would catch, is no part of the model.
  unfoldable pub new_router :
      Text
      → Text
      → Request
      → (Context → Handler w.redis.Cache Response)
      → Handler w.redis.Cache (Response × RequestLog)
  unfolding structured_logging_middleware
  new_router method path r next = do
    ctx ← correlation_id_middleware w r background
    call (
        structured_logging_middleware method path ctx
          λ s. let (o, t) = next ctx s in (response_of o, t))

-- The method and the path of a call, if the path has no escapes.
unfoldable pub admin_route : AdminCall → Text × Text
admin_route (create_tenant body) = (text "POST", text "/admin/tenants")
admin_route (list_tenants limit offset) = (text "GET", text "/admin/tenants")
admin_route (get_tenant id) = (text "GET", text "/admin/tenants/" ++ id)
admin_route (deactivate_tenant id) = (text "DELETE", text "/admin/tenants/" ++ id)

unfoldable pub vault_route : VaultCall → Text × Text
vault_route (tokenize_call body) = (text "POST", text "/vault/tokenize")
vault_route (status_call token_id) = (text "GET", text "/vault/tokens/" ++ token_id)
vault_route (deactivate_call token_id) = (text "DELETE", text "/vault/tokens/" ++ token_id)
vault_route (audit_call token_id limit offset) =
    (text "GET", text "/vault/tokens/" ++ (token_id ++ text "/audit"))
vault_route (detokenize_call body) = (text "POST", text "/internal/detokenize")

unfoldable pub route : Call → Text × Text
unfolding admin_route vault_route
route health_call = (text "GET", text "/health")
route (admin c) = admin_route c
route (vault c) = vault_route c

module _ (w : World) (cfg : TokenizeConfig) (pings : Pings) where
  -- The call as the router serves it.
  unfoldable pub routed : Call → Request → Handler w.redis.Cache (Response × RequestLog)
  unfolding route new_router
  routed c r = new_router w (route c).0 (route c).1 r (serve_call w cfg pings c r)

  -- The answer and the store are those of serve; the log holds the status of the answer and the whole
  -- path.
  pub routed-serve :
      (c : Call) (r : Request) (s : Store w.redis.Cache)
      → let (resp, t) = serve w cfg pings c r s in
        (line : RequestLog) × (routed c r s ≡ (go (resp, line), t))
        × (line.status ≡ resp.status)
        × (line.path ≡ (route c).1)
  unfolding routed answer serve ◌>>=◌ call structured_logging_middleware correlation_id_middleware
      pure
  routed-serve c r s = elim (Bool-cases (text_eq r.x_correlation_id [])) [
    | inl missing ↦ rw missing (_, refl, refl, refl)
    | inr given ↦ rw given (_, refl, refl, refl)
  ]
