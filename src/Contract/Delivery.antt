-- ===== src/Contract/Delivery.antt =====
-- A forwarded payload: from POST /proxy/forward through the tokenizer to the destination.
use vaulty.Prelude.{some, List, [], ◌∷◌, ◌≡◌, ◌≢◌, refl, ◌∙◌, ap, Text, arith}
use vaulty.Model.{Tenant}
use vaulty.Server.{Response}
use vaulty.World.{World}
use vaulty.Auth.{Context}
use vaulty.Handler.Health.{Pings}
use vaulty.Handler.Tokenize.{TokenizeConfig}
use vaulty.Routes.{vault, detokenize_call, serve}
use vaulty.Routes.Passes.{IsProxyCall}
use vaulty.Proxy
use vaulty.Proxy.{Network, HttpResponse, answered}
use vaulty.Proxy.Revealer.{Revealer, Result, detokenize_request, wrap_error, map_result}
use vaulty.Proxy.Revealer.Refinement.{reveal_all}
use vaulty.Vaulted.{IsVaulted}
use vaulty.Proxy.Revealer.Refinement.{tokens}
use vaulty.Proxy.ForwardHandler.{ForwardRequest, tenant_id_of, forward_handler}
use vaulty.Proxy.ForwardHandler.Order.{deliver, then_send, forward_handler-refines}
use vaulty.Contract.Reveal.{
  IsUp, Carries, proxy_request, AllVaulted, serve_vaulted, served-AllVaulted, served-IsProxyCall,
}

module _ (w : World) (up : IsUp w) (cfg : TokenizeConfig) (pings : Pings) (tenant : Tenant)
    (net : Network) (rv : Revealer) (c : Carries w cfg pings net rv) where
  -- One reveal call.
  revealed :
      (tenant_id token pan : Text) (n : net.State)
      → IsProxyCall w (proxy_request rv tenant_id) tenant (c.store n)
      → IsVaulted w tenant_id token pan (c.store n)
      → (Proxy.Revealer.detokenize net rv tenant_id token n).0 ≡ Result.ok pan
  unfolding Proxy.Revealer.detokenize
  revealed tenant_id token pan n call v =
      let (resp, sent, _, status, decoded) = c.answers tenant_id token n in
      let served =
        serve_vaulted w up cfg pings tenant (proxy_request rv tenant_id) token pan (c.store n) call
          v in
      ground (
        arith,
        c.url_accepted,
        sent,
        status,
        ap (λ (x : Response). x.status) served,
        decoded pan (ap (λ (x : Response). x.body) served),
      )

  -- Afterwards the network holds the store that the call has left.
  revealed_store :
      (tenant_id token : Text) (n : net.State)
      → c.store (Proxy.Revealer.detokenize net rv tenant_id token n).1
        ≡ (serve w cfg pings
            (vault (detokenize_call (some token)))
            (proxy_request rv tenant_id)
            (c.store n)).1
  unfolding Proxy.Revealer.detokenize
  revealed_store tenant_id token n =
      let (_, _, after, _, _) = c.answers tenant_id token n in ground (arith, c.url_accepted, after)

  all_revealed :
      (tenant_id : Text) (ts ps : List Text) (n : net.State)
      → IsProxyCall w (proxy_request rv tenant_id) tenant (c.store n)
      → AllVaulted w tenant_id ts ps (c.store n)
      → (reveal_all net rv tenant_id ts n).0 ≡ Result.ok ps
  unfolding reveal_all
  all_revealed tenant_id [] [] n call h = refl
  all_revealed tenant_id (t ∷ ts) (p ∷ ps) n call (v, vs) =
      let next = (Proxy.Revealer.detokenize net rv tenant_id t n).1 in
      let e = revealed_store tenant_id t n in
      let rest : (reveal_all net rv tenant_id ts next).0 ≡ Result.ok ps =
        all_revealed tenant_id ts ps next
          (rw e (
            served-IsProxyCall w up cfg pings tenant (proxy_request rv tenant_id) t (c.store n)
              call))
          (rw e (
            served-AllVaulted w up cfg pings tenant (proxy_request rv tenant_id) t tenant_id ts ps
              (c.store n) vs)) in
      ground (arith, revealed tenant_id t p n call v, rest)
  all_revealed tenant_id [] (p ∷ ps) n call h = absurd h
  all_revealed tenant_id (t ∷ ts) [] n call h = absurd h

  -- Where the proxy reaches the tokenizer, without a client certificate as its client does, nothing
  -- fails, its bearer token names the proxy, and each token of a payload is vaulted for the request's
  -- active tenant, forward sends the destination one request with the payload that has each PAN in its
  -- token's place, and answers 200 with the destination's status, headers and body, or 502 if that
  -- request could not be made or sent or its answer not be read.
  pub forward_delivers :
      (ctx : Context) (named : Tenant) (req : ForwardRequest) (pans : List Text) (n : net.State)
      → ctx.tenant ≡ some named
      → req.destination ≢ []
      → IsProxyCall w (proxy_request rv named.tenant_id) tenant (c.store n)
      → AllVaulted w named.tenant_id (tokens req.payload) pans (c.store n)
      → forward_handler net rv ctx (some req) n
        ≡ deliver net rv ctx req pans (reveal_all net rv named.tenant_id (tokens req.payload) n).1
  forward_delivers ctx named req pans n has to call h =
      let e : tenant_id_of ctx.tenant ≡ named.tenant_id = ap tenant_id_of has in
      forward_handler-refines net rv ctx req n to
      ∙ ap (λ a. then_send net rv ctx req (reveal_all net rv a (tokens req.payload) n)) e
      ∙ sent_filled _ (all_revealed named.tenant_id (tokens req.payload) pans n call h)
    where
      sent_filled :
          (x : Result (List Text) × net.State)
          → x.0 ≡ Result.ok pans
          → then_send net rv ctx req x ≡ deliver net rv ctx req pans x.1
      sent_filled (Result.ok ps, s) q = ground arith
      sent_filled (Result.err e, s) q = ground arith
