-- ===== src/Proxy/Http.antt =====
-- The HTTP client and the JSON decoder, which the proxy calls: parameters.
use vaulty.Prelude.{ℕ, Text, Option, List}
use vaulty.Json.{Json}

-- A request's body is the JSON value that was marshalled; a value that was decoded always can be.
pub record HttpRequest : Type 0 where
  pub method : Text
  pub url : Text
  pub headers : List (Text × Text)
  pub body : Json

-- The headers are each key's first value; `read_error` is what reading the body ended with, if not
-- with its end.
pub record HttpResponse : Type 0 where
  pub status : ℕ
  pub headers : List (Text × Text)
  pub body : Text
  pub read_error : Option Text

-- What client.Do returns: an error's text, or a response.
pub data Answer : Type 0 where
  no_answer : Text → Answer
  answered : HttpResponse → Answer

pub record Network : Type 1 where
  -- all that stands behind the client, the tokenizer included
  pub State : Type 0
  pub send : HttpRequest → State → Answer × State
  -- http.NewRequest's error for a method and a URL, if any
  pub bad_request : Text → Text → Option Text
  -- decoding a body as `{"value": …}`: the value, or an error's text
  pub decode_value : HttpResponse → Option Text
  pub decode_error : HttpResponse → Text
