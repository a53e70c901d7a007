-- ===== src/Proxy/Revealer.antt =====
-- internal/proxy/revealer.go: tokens in a JSON payload are replaced by what they stand for.
pub mod Refinement
pub use vaulty.Prelude.{Result, ok, err, map_result}
use vaulty.Prelude.{
  ℕ, ◌+◌, ◌/◌, ◌%◌, Bool, Option, none, some, List, [], ◌∷◌, ◌++◌, Text, text, text_eq, take, ◌==◌,
  if◌then◌else◌,
}
use vaulty.Json.{Json, null, bool, num, str, arr, obj, Items, nil, cons, Fields, end, field}
use vaulty.Pattern.{token_pattern}
use vaulty.Proxy.Http.{HttpRequest, HttpResponse, Answer, no_answer, answered, Network}
use vaulty.Proxy.Header.{set_header}

pub record Revealer : Type 0 where
  pub detokenize_url : Text
  pub auth_header : Text

-- NewRevealer
abbrev pub new_revealer : Text → Text → Revealer
new_revealer base_url auth_header = record {
  detokenize_url = base_url ++ text "/internal/detokenize";
  auth_header = auth_header;
}

-- `%d` of a status, which net/http makes sure has three digits.
abbrev status_digits : ℕ → Text
status_digits n = (b'0' + n / 100 % 10) ∷ (b'0' + n / 10 % 10) ∷ (b'0' + n % 10) ∷ []

abbrev set_unless_empty : Text → Text → List (Text × Text) → List (Text × Text)
set_unless_empty key v hs = if text_eq v [] then hs else set_header key v hs

-- The request to the tokenizer.
abbrev pub detokenize_request : Revealer → Text → Text → HttpRequest
detokenize_request rv tenant_id token = record {
  method = text "POST";
  url = rv.detokenize_url;
  headers = set_unless_empty (text "X-Tenant-ID") tenant_id (
      set_unless_empty (text "Authorization") rv.auth_header
        (set_header (text "Content-Type") (text "application/json") []));
  body = obj (field (text "token") (str token) end);
}

module _ (net : Network) (rv : Revealer) where
  abbrev read_value : HttpResponse → Result Text
  read_value resp =
      if resp.status == 200
      then elim (net.decode_value resp) [
        | none ↦ err (text "decode detokenize response: " ++ net.decode_error resp)
        | some v ↦ ok v
      ]
      else err
          (text "detokenize returned " ++ (status_digits resp.status ++ (text ": " ++ resp.body)))

  abbrev read_answer : Answer → Result Text
  read_answer (no_answer e) = err (text "detokenize request: " ++ e)
  read_answer (answered resp) = read_value resp

  unfoldable pub detokenize : Text → Text → net.State → Result Text × net.State
  detokenize tenant_id token s = elim (net.bad_request (text "POST") rv.detokenize_url) [
    | some e ↦ (err e, s)
    | none ↦
        let (answer, s') = net.send (detokenize_request rv tenant_id token) s in
        (read_answer answer, s')
  ]

  abbrev pub wrap_error : Text → Result Text → Result Text
  wrap_error token (ok v) = ok v
  wrap_error token (err e) = err (text "detokenize " ++ (take 12 token ++ (text "...: " ++ e)))

  abbrev look_up : Text → Text → net.State → Result Json × net.State
  look_up tenant_id t s =
      let (r, s') = detokenize tenant_id t s in (map_result str (wrap_error t r), s')

  -- A string that matches the pattern is looked up; the error names its first 12 bytes.
  unfoldable pub reveal_string : Text → Text → net.State → Result Json × net.State
  reveal_string tenant_id t s = if token_pattern t then look_up tenant_id t s else (ok (str t), s)

  -- Revealer.ScanAndReveal, the loops over a map and over a slice included
  unfoldable mutual
    pub scan_and_reveal : Text → Json → net.State → Result Json × net.State
    scan_and_reveal tenant_id null s = (ok null, s)
    scan_and_reveal tenant_id (bool b) s = (ok (bool b), s)
    scan_and_reveal tenant_id (num n) s = (ok (num n), s)
    scan_and_reveal tenant_id (str t) s = reveal_string tenant_id t s
    scan_and_reveal tenant_id (arr xs) s =
        let (r, s') = scan_items tenant_id xs s in (map_result arr r, s')
    scan_and_reveal tenant_id (obj fs) s =
        let (r, s') = scan_fields tenant_id fs s in (map_result obj r, s')

    pub scan_items : Text → Items → net.State → Result Items × net.State
    scan_items tenant_id nil s = (ok nil, s)
    scan_items tenant_id (cons x xs) s =
        let (r, s₁) = scan_and_reveal tenant_id x s in
        elim r [
          | err e ↦ (err e, s₁)
          | ok x' ↦ let (rest, s₂) = scan_items tenant_id xs s₁ in (map_result (cons x') rest, s₂)
        ]

    pub scan_fields : Text → Fields → net.State → Result Fields × net.State
    scan_fields tenant_id end s = (ok end, s)
    scan_fields tenant_id (field k v fs) s =
        let (r, s₁) = scan_and_reveal tenant_id v s in
        elim r [
          | err e ↦ (err e, s₁)
          | ok v' ↦
              let (rest, s₂) = scan_fields tenant_id fs s₁ in (map_result (field k v') rest, s₂)
        ]
