-- ===== src/Proxy/ForwardHandler.antt =====
-- internal/handler/forward.go: POST /proxy/forward.
-- The encoding of the answer is left out: Go cannot encode a destination's body that is no JSON.
pub mod Order
use vaulty.Prelude.{Option, none, some, List, [], ◌++◌, Text, text, text_eq, if◌then◌else◌}
use vaulty.Json.{Json}
use vaulty.Model.{Tenant}
use vaulty.Server.{Response, Body, bad_request, not_found, bad_gateway}
use vaulty.Server
use vaulty.Auth.{Context}
use vaulty.Proxy.Http.{Network}
use vaulty.Proxy.Revealer.{Revealer, ok, err, scan_and_reveal}
use vaulty.Proxy.Forwarder.{forward}

pub record ForwardRequest : Type 0 where
  pub destination : Text
  pub method : Text
  pub headers : List (Text × Text)
  pub payload : Json

-- The tenant that the reveal calls name, "" without one
abbrev pub tenant_id_of : Option Tenant → Text
tenant_id_of none = []
tenant_id_of (some t) = t.tenant_id

-- `if req.Method == "" { req.Method = http.MethodPost }`
abbrev pub method_of : ForwardRequest → Text
method_of req = if text_eq req.method [] then text "POST" else req.method

module _ (net : Network) (rv : Revealer) where
  unfoldable pub send_on : Context → ForwardRequest → Json → net.State → Response × net.State
  send_on ctx req revealed s =
      let (r, s') = forward net req.destination (method_of req) req.headers revealed s in
      elim r [
        | err e ↦ (bad_gateway (text "Destination provider error: " ++ e) ctx.correlation_id, s')
        | ok result ↦ (Server.ok (Body.forwarded result), s')
      ]

  unfoldable pub reveal_and_send : Context → ForwardRequest → net.State → Response × net.State
  reveal_and_send ctx req s =
      let (r, s') = scan_and_reveal net rv (tenant_id_of ctx.tenant) req.payload s in
      elim r [
        | err e ↦ (not_found (text "DETOKENIZE_FAILED") e ctx.correlation_id, s')
        | ok revealed ↦ send_on ctx req revealed s'
      ]

  -- ForwardHandler.ServeHTTP
  unfoldable pub forward_handler :
      Context → Option ForwardRequest → net.State → Response × net.State
  forward_handler ctx none s =
      (bad_request (text "INVALID_JSON") (text "Invalid request body") ctx.correlation_id, s)
  forward_handler ctx (some req) s =
      if text_eq req.destination []
      then (
        bad_request (text "MISSING_DESTINATION") (text "Destination URL is required")
            ctx.correlation_id,
        s,
      )
      else reveal_and_send ctx req s
