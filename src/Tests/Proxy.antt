-- ===== src/Tests/Proxy.antt =====
-- A payload is revealed over a network that answers every request with the token's first bytes.
use vaulty.Prelude.{arith, ℕ, zero, suc, ◌+◌, [], ◌∷◌, ◌++◌, ◌≡◌, none, some, Text, text}
use vaulty.Json.{Json, str, num, obj, arr, nil, cons, field, end}
use vaulty.Proxy.{Network, answered}
use vaulty.Proxy.Revealer.{Revealer, map_result, new_revealer, scan_and_reveal}
use vaulty.Proxy.ForwardHandler.{ForwardRequest, forward_handler, tenant_id_of}
use vaulty.Proxy.ForwardHandler.Order.{then_send, forward_handler-refines}
use vaulty.Tests.World.{ctx}
use vaulty.Proxy.Revealer.Refinement.{tokens, fill, reveal_all, scan_and_reveal-refines}

-- The state counts the requests; the answer is the count's digit.
abbrev counting : Network
counting = record {
  State = ℕ;
  send = λ r n.
      (answered (record { status = 200; headers = []; body = n ∷ []; read_error = none }), n + 1);
  bad_request = λ method url. none;
  decode_value = λ r. some r.body;
  decode_error = λ r. [];
}

abbrev pub rv : Revealer
rv = new_revealer (text "http://tokenizer") (text "Bearer proxy:x")

abbrev pub zeros : ℕ → Text
zeros zero = []
zeros (suc n) = b'0' ∷ zeros n

abbrev pub payload : Json
payload = obj (
    field (text "pan") (str (text "tok_" ++ zeros 40)) (
      field (text "lines") (arr (cons (num (text "1")) (cons (str (text "tok_" ++ zeros 40)) nil)))
        end))

scan_and_reveal-refines_example : scan_and_reveal counting rv (text "merchant_1") payload 48 ≡ (
    let (r, s') = reveal_all counting rv (text "merchant_1") (tokens payload) 48 in
    (map_result (fill payload) r, s'))
scan_and_reveal-refines_example = scan_and_reveal-refines counting rv (text "merchant_1") payload 48

abbrev pub forwarded : ForwardRequest
forwarded = record { destination = text "http://psp"; method = []; headers = []; payload = payload }

forward_handler-refines_example :
    forward_handler counting rv ctx (some forwarded) 48
    ≡ then_send counting rv ctx forwarded
        (reveal_all counting rv (tenant_id_of ctx.tenant) (tokens payload) 48)
forward_handler-refines_example =
    forward_handler-refines counting rv ctx forwarded 48 (λ h. ground arith)
