-- ===== src/Proxy/ForwardHandler/Order.antt =====
-- Nothing is forwarded before the whole payload is revealed.
use vaulty.Prelude.{
  some, none, ◌++◌, ◌≡◌, ◌≢◌, refl, [], Text, text, text_eq_ne, arith, List, ap, ◌∙◌,
}
use vaulty.Json.{Json}
use vaulty.Server
use vaulty.Server.{Response, Body, not_found, bad_gateway}
use vaulty.Proxy.Header.{set_header, set_headers}
use vaulty.Proxy.Forwarder.{forward}
use vaulty.Auth.{Context}
use vaulty.Proxy.Http.{Network, HttpRequest, Answer, no_answer, answered}
use vaulty.Proxy.Revealer.{Revealer, Result, ok, err, map_result, scan_and_reveal}
use vaulty.Proxy.Revealer.Refinement.{tokens, fill, reveal_all, scan_and_reveal-refines}
use vaulty.Proxy.ForwardHandler.{
  ForwardRequest, method_of, tenant_id_of, send_on, reveal_and_send, forward_handler,
}

module _ (net : Network) (rv : Revealer) (ctx : Context) (req : ForwardRequest) where
  -- The request to the destination, with the values in the tokens' places.
  abbrev pub outgoing : List Text → HttpRequest
  outgoing values = record {
    method = method_of req;
    url = req.destination;
    headers =
        set_headers req.headers (set_header (text "Content-Type") (text "application/json") []);
    body = fill req.payload values;
  }

  abbrev pub provider_error : Text → Text → Response
  provider_error step e =
      bad_gateway (text "Destination provider error: " ++ (step ++ e)) ctx.correlation_id

  -- What the caller is answered for the destination's answer.
  abbrev pub relayed : Answer → Response
  relayed (no_answer e) = provider_error (text "forward request: ") e
  relayed (answered resp) = elim resp.read_error [
    | some e ↦ provider_error (text "read response: ") e
    | none ↦ Server.ok (
        Body.forwarded
          (record { status_code = resp.status; headers = resp.headers; body = resp.body }))
  ]

  -- One request with the values, unless its method or URL cannot be used.
  abbrev pub deliver : List Text → net.State → Response × net.State
  deliver values s = elim (net.bad_request (method_of req) req.destination) [
    | some e ↦ (provider_error (text "create request: ") e, s)
    | none ↦ let (a, t) = net.send (outgoing values) s in (relayed a, t)
  ]

  -- What is done with the values of the payload's tokens.
  abbrev pub then_send : Result (List Text) × net.State → Response × net.State
  then_send (err e, s) = (not_found (text "DETOKENIZE_FAILED") e ctx.correlation_id, s)
  then_send (ok values, s) = deliver values s

  relayed-send_on :
      (values : List Text) (s : net.State)
      → send_on net rv ctx req (fill req.payload values) s ≡ deliver values s
  unfolding send_on forward
  relayed-send_on values s = ground arith

  abbrev sent : Result Json × net.State → Response × net.State
  sent (err e, s) = (not_found (text "DETOKENIZE_FAILED") e ctx.correlation_id, s)
  sent (ok revealed, s) = send_on net rv ctx req revealed s

  filled-sent :
      (x : Result (List Text) × net.State)
      → sent (map_result (fill req.payload) x.0, x.1) ≡ then_send x
  filled-sent (err e, s) = refl
  filled-sent (ok values, s) = relayed-send_on values s

  reveal_and_send-sent :
      (s : net.State)
      → reveal_and_send net rv ctx req s
        ≡ sent (scan_and_reveal net rv (tenant_id_of ctx.tenant) req.payload s)
  unfolding reveal_and_send
  reveal_and_send-sent s = ground arith

  -- For a request with a destination, forward reveals the payload's tokens for the request's tenant,
  -- one after the other: at the first that fails it answers 404 DETOKENIZE_FAILED and sends nothing
  -- more, and only if all succeed it sends the destination one request, by the request's method, POST if
  -- none, with its headers over the JSON content type and the payload with each value in its token's
  -- place; it answers 200 with the destination's status, headers and body, or 502 if the request could
  -- not be made or sent or the answer not be read.
  pub forward_handler-refines :
      (s : net.State)
      → req.destination ≢ []
      → forward_handler net rv ctx (some req) s
        ≡ then_send (reveal_all net rv (tenant_id_of ctx.tenant) (tokens req.payload) s)
  unfolding forward_handler
  forward_handler-refines s named = rw (text_eq_ne req.destination [] named) (
      reveal_and_send-sent s
      ∙ ap sent (scan_and_reveal-refines net rv (tenant_id_of ctx.tenant) req.payload s)
      ∙ filled-sent (reveal_all net rv (tenant_id_of ctx.tenant) (tokens req.payload) s))
