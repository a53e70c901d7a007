-- ===== src/Tests/Delivered.antt =====
-- A proxy whose client talks to the tokenizer directly, and to a destination that answers 201.
use vaulty.Prelude.{
  inr, Option, none, some, [], ◌∷◌, ◌++◌, ◌≡◌, refl, List, Text, text, text_eq, if◌then◌else◌,
  arith, replicate,
}
use vaulty.Json.{Json, str, obj, field, end}
use vaulty.Server.{ok, Response, Body}
use vaulty.Store.{Store}
use vaulty.Auth.{Request, before_colon}
use vaulty.Pattern.{token_pattern, tenant_id_pattern}
use vaulty.Routes.{vault, detokenize_call, serve}
use vaulty.Routes.Passes.{IsProxyCall}
use vaulty.Vaulted.{IsVaulted}
use vaulty.Proxy.{Network, HttpRequest, HttpResponse, Answer, answered}
use vaulty.Proxy.Header.{canonical, set_header}
use vaulty.Proxy.Revealer.{detokenize_request}
use vaulty.Proxy.Revealer.Refinement.{tokens, reveal_all}
use vaulty.Proxy.ForwardHandler.Order.{deliver}
use vaulty.Proxy.ForwardHandler.{forward_handler}
use vaulty.Contract.Reveal.{serve_vaulted, IsUp, Carries, proxy_request, AllVaulted}
use vaulty.Contract.Delivery.{forward_delivers}
use vaulty.Tests.World.{calm, map_redis, cfg, pings, ctx, visa, merchant, fresh}
use vaulty.Tests.Tokens.{known}
use vaulty.Tests.Proxy.{rv, payload, forwarded, zeros}

pub calm-IsUp : IsUp calm
calm-IsUp = record { database = λ n. refl; kms = λ n m arn {dek} {blob} made failed. ground arith }

abbrev Vault : Type 0
Vault = Store map_redis.Cache

header_of : Text → List (Text × Text) → Text
header_of key [] = []
header_of key ((k, v) ∷ hs) = if text_eq k key then v else header_of key hs

abbrev token_in : Json → Option Text
token_in (obj (field k (str t) end)) = some t
token_in _ = none

abbrev received : HttpRequest → Request
received r = record {
  authorization = header_of (text "Authorization") r.headers;
  x_tenant_id = header_of (text "X-Tenant-Id") r.headers;
  x_correlation_id = [];
  peer_common_name = none;
}

abbrev value_in : Body → Text
value_in (Body.value v) = v
value_in _ = []

abbrev over_http : Response → HttpResponse
over_http r = record { status = r.status; headers = []; body = value_in r.body; read_error = none }

abbrev accepted : HttpResponse
accepted = record { status = 201; headers = []; body = text "{}"; read_error = none }

abbrev send : HttpRequest → Vault → Answer × Vault
send r s =
    if text_eq r.url rv.detokenize_url
    then (let (resp, s') =
          serve calm cfg pings (vault (detokenize_call (token_in r.body))) (received r) s in
        (answered (over_http resp), s'))
    else (answered accepted, s)

abbrev direct : Network
direct = record {
  State = Vault;
  send = send;
  bad_request = λ method url. none;
  decode_value = λ r. some r.body;
  decode_error = λ r. [];
}

received-proxy_request :
    (tenant_id token : Text)
    → received (detokenize_request rv tenant_id token) ≡ proxy_request rv tenant_id
unfolding header_of set_header canonical text_eq
received-proxy_request [] token = refl
received-proxy_request (b ∷ bs) token = refl

direct_carries : Carries calm cfg pings direct rv
unfolding text_eq
direct_carries = record {
  store = λ s. s;
  url_accepted = refl;
  answers = λ tenant_id token s.
      let request = proxy_request rv tenant_id in
      let r = serve calm cfg pings (vault (detokenize_call (some token))) request s in
      let e = received-proxy_request tenant_id token in
      (over_http r.0, ground (arith, e), ground (arith, e), refl, λ v h. ground arith);
}

abbrev pub zero_token : Text
zero_token = text "tok_" ++ zeros 40

-- The wrapped key is the fifth of KMS.
abbrev pub vault_store : Vault
vault_store = record fresh {
  tokens = record known { token_id = zero_token } ∷ [];
  vault_entries =
      record {
        id = [];
        tenant_id = text "merchant_1";
        token_id = zero_token;
        pan_ciphertext = visa;
        iv = [];
        auth_tag = replicate 16 0;
        dek_encrypted = 5 ∷ [];
        kms_key_id = text "arn";
        created_at = 0;
      }
      ∷ [];
}

pub zero_token-IsVaulted : IsVaulted calm (text "merchant_1") zero_token visa vault_store
unfolding text_eq
zero_token-IsVaulted = record {
  token = _;
  found = refl;
  active = refl;
  entry = _;
  entry_found = refl;
  opens = λ n dek h. refl;
  issued = (5, text "arn", replicate 32 5, refl);
}

merchant-IsProxyCall : IsProxyCall calm (proxy_request rv (text "merchant_1")) merchant vault_store
unfolding text_eq before_colon tenant_id_pattern
merchant-IsProxyCall = record {
  bearer = refl;
  caller = inr (refl, refl);
  pattern = refl;
  found = refl;
  active = refl;
}

payload-AllVaulted :
    AllVaulted calm (text "merchant_1") (tokens payload) (visa ∷ visa ∷ []) vault_store
unfolding tokens token_pattern text_eq
payload-AllVaulted = (zero_token-IsVaulted, (zero_token-IsVaulted, tt))

forward_delivers_example :
    forward_handler direct rv ctx (some forwarded) vault_store
    ≡ deliver direct rv ctx forwarded
        (visa ∷ visa ∷ [])
        (reveal_all direct rv (text "merchant_1") (tokens payload) vault_store).1
unfolding direct_carries
forward_delivers_example =
    forward_delivers calm calm-IsUp cfg pings merchant direct rv direct_carries ctx merchant
      forwarded (visa ∷ visa ∷ []) vault_store refl (λ h. ground arith) merchant-IsProxyCall
      payload-AllVaulted

serve_vaulted_example :
    (serve calm cfg pings
      (vault (detokenize_call (some zero_token)))
      (proxy_request rv (text "merchant_1"))
      vault_store).0
    ≡ ok (Body.value visa)
serve_vaulted_example =
    serve_vaulted calm calm-IsUp cfg pings merchant (proxy_request rv (text "merchant_1"))
      zero_token visa vault_store merchant-IsProxyCall zero_token-IsVaulted
