-- ===== src/Proxy/Forwarder.antt =====
-- internal/proxy/forwarder.go: the revealed payload is sent on. The request's bytes are wiped after
-- the response was read, which no value of the model shows.
use vaulty.Prelude.{Option, none, some, List, [], ◌++◌, Text, text}
use vaulty.Json.{Json}
use vaulty.Server.{ForwardResult}
use vaulty.Proxy.Http.{HttpRequest, HttpResponse, Answer, no_answer, answered, Network}
use vaulty.Proxy.Header.{set_header, set_headers}
use vaulty.Proxy.Revealer.{Result, ok, err}

-- The caller's headers come after the content type, which they may replace.
abbrev pub forward_request : Text → Text → List (Text × Text) → Json → HttpRequest
forward_request destination method headers payload = record {
  method = method;
  url = destination;
  headers = set_headers headers (set_header (text "Content-Type") (text "application/json") []);
  body = payload;
}

abbrev read_body : HttpResponse → Option Text → Result ForwardResult
read_body resp (some e) = err (text "read response: " ++ e)
read_body resp none =
    ok (record { status_code = resp.status; headers = resp.headers; body = resp.body })

abbrev read_forwarded : Answer → Result ForwardResult
read_forwarded (no_answer e) = err (text "forward request: " ++ e)
read_forwarded (answered resp) = read_body resp resp.read_error

-- Forwarder.Forward
unfoldable pub forward :
    (net : Network)
    → Text
    → Text
    → List (Text × Text)
    → Json
    → net.State
    → Result ForwardResult × net.State
forward net destination method headers payload s = elim (net.bad_request method destination) [
  | some e ↦ (err (text "create request: " ++ e), s)
  | none ↦
      let (answer, s') = net.send (forward_request destination method headers payload) s in
      (read_forwarded answer, s')
]
