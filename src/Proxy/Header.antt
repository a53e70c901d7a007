-- ===== src/Proxy/Header.antt =====
-- http.Header.Set: a map by canonical keys.
use vaulty.Prelude.{
  ℕ, ◌+◌, ◌-◌, Bool, true, ◌&&◌, ◌||◌, List, [], ◌∷◌, Text, text, text_eq, leb, ◌==◌, any, all,
  if◌then◌else◌,
}
use vaulty.Pattern.{is_alphanumeric}

abbrev is_header_byte : ℕ → Bool
is_header_byte b = is_alphanumeric b || any (λ c. c == b) (text "!#$%&'*+-.^_`|~")

abbrev upper : ℕ → ℕ
upper b = if leb b'a' b && leb b b'z' then b - 32 else b

abbrev lower : ℕ → ℕ
lower b = if leb b'A' b && leb b b'Z' then b + 32 else b

-- A letter is upper case at the start and after a dash.
title : Bool → Text → Text
title start [] = []
title start (b ∷ bs) = (if start then upper b else lower b) ∷ title (b == b'-') bs

-- textproto.CanonicalMIMEHeaderKey: a key with another byte stays as it is.
unfoldable pub canonical : Text → Text
unfolding title
canonical key = if all is_header_byte key then title true key else key

unfoldable pub set_header : Text → Text → List (Text × Text) → List (Text × Text)
set_header key v [] = (canonical key, v) ∷ []
set_header key v ((k, u) ∷ hs) =
    if text_eq k (canonical key) then (k, v) ∷ hs else (k, u) ∷ set_header key v hs

-- `for k, v := range headers { req.Header.Set(k, v) }`
unfoldable pub set_headers : List (Text × Text) → List (Text × Text) → List (Text × Text)
set_headers [] hs = hs
set_headers ((k, v) ∷ more) hs = set_headers more (set_header k v hs)
