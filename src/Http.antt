-- ===== src/Http.antt =====
-- services/gateway/core/utils.py, and what the gateway reads of an HTTP response. httpx is a
-- library: a response is its status, its headers by lower-case name, the bytes of its body, and
-- what `response.json()` returns or raises.
pub mod Value
pub mod Parse
mod Tests
use edge_serverless_box.Base.{
  ℕ, zero, suc, ◌+◌, ◌-◌, ◌*◌, ◌≤◌, ◌<◌, ◌≡◌, ◌≢◌, ◌⊎◌, inl, inr, ◌↔◌, refl, sym, ap, ◌∙◌, subst,
  String, Bool, true, false, not, ◌&&◌, ◌||◌, Option, none, some, List, [], ◌∷◌, ◌++◌, map, arith,
  eq_iff, length, length-append, keep_if, any_of, str_eq, str_eq_refl, ltb, leb, ◌==◌,
  if◌then◌else◌, Bool-cases, Option-cases, Result, ok, err,
}
use edge_serverless_box.Base.Dict.{Dict, lookup}
use Value.{Json, null, boolean, number, text, array, object, Fields, end, field, get, has_key}

-- What `response.json()` returns or raises.
pub data Decoded : Type 0 where
  value : Json → Decoded
  -- `json.JSONDecodeError`
  not_json : Decoded
  -- `UnicodeDecodeError`: the bytes of the body are no text
  not_text : Decoded

pub record Response : Type 0 where
  pub status_code : ℕ
  pub headers : Dict String
  pub content : List ℕ
  pub json : Decoded

-- What `parse_lambda_response` returns.
pub data Parsed : Type 0 where
  -- `status_code`, `content` and `headers`
  structured : Json → Json → Json → Parsed
  -- the response as it is, with `raw_content`
  raw : ℕ → List ℕ → Dict String → Parsed

abbrev get_or_default : Option Json → Json → Json
get_or_default none d = d
get_or_default (some j) d = j

abbrev or_text : Option Json → String → Json
or_text none s = text s
or_text (some j) s = j

-- `json.loads`, as a parameter
module _ (loads : String → Option Json) where
  -- A body that is a text is decoded, or stays a text if it is not JSON.
  unfoldable pub decode_body : Json → Json
  decode_body (text s) = or_text (loads s) s
  decode_body null = null
  decode_body (boolean b) = boolean b
  decode_body (number n) = number n
  decode_body (array xs) = array xs
  decode_body (object fs) = object fs

  -- A JSON object with `statusCode` is an API Gateway response.
  unfoldable pub parse_object : Fields → Parsed
  unfolding decode_body
  parse_object fs =
      if has_key "statusCode" fs
      then structured (get_or_default (get "statusCode" fs) (number "200"))
          (decode_body (get_or_default (get "body" fs) (text "")))
          (get_or_default (get "headers" fs) (object end))
      else structured (number "200") (object fs) (object end)

  unfoldable pub parse_json : Json → Parsed
  unfolding parse_object
  parse_json (object fs) = parse_object fs
  parse_json null = structured (number "200") null (object end)
  parse_json (boolean b) = structured (number "200") (boolean b) (object end)
  parse_json (number n) = structured (number "200") (number n) (object end)
  parse_json (text s) = structured (number "200") (text s) (object end)
  parse_json (array xs) = structured (number "200") (array xs) (object end)

  -- `parse_lambda_response`, over what `response.json()` gives; `none` is the `UnicodeDecodeError`,
  -- which its `except` clause does not name.
  unfoldable pub parse_reply : Response → Decoded → Option Parsed
  unfolding parse_json
  parse_reply r (value j) = some (parse_json j)
  parse_reply r not_json = some (raw r.status_code r.content r.headers)
  parse_reply r not_text = none

  unfoldable pub parse_lambda_response : Response → Option Parsed
  unfolding parse_reply
  parse_lambda_response r = parse_reply r r.json
