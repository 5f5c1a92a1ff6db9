-- ===== src/Events.antt =====
-- services/gateway/core/event_builder.py and services/gateway/models/aws_v1.py: the event that a
-- Lambda function receives for a request. The codecs of texts and bytes are a library's.
pub mod Values
pub mod Body
mod Tests
use edge_serverless_box.Base.{
  ℕ, zero, suc, ◌+◌, ◌-◌, ◌*◌, ◌≤◌, ◌<◌, ◌≡◌, ◌≢◌, ◌⊎◌, inl, inr, ◌↔◌, refl, sym, ap, ◌∙◌, subst,
  String, Bool, true, false, not, ◌&&◌, ◌||◌, Option, none, some, List, [], ◌∷◌, ◌++◌, map, arith,
  eq_iff, length, length-append, keep_if, any_of, str_eq, str_eq_refl, ltb, leb, ◌==◌,
  if◌then◌else◌, Bool-cases, Option-cases, Result, ok, err,
}
use edge_serverless_box.Base.Dict.{Dict, lookup, insert}
use edge_serverless_box.Base.Text.{append, is_empty}

-- Bytes are numbers. `decode_utf8` of bytes that are no text raises, which `none` stands for.
pub record Codecs : Type 0 where
  pub b64encode : List ℕ → String
  pub b64decode : String → List ℕ
  pub decode_utf8 : List ℕ → Option String
  pub encode_utf8 : String → List ℕ
  pub lower : String → String
  -- `needle in text`
  pub contains : String → String → Bool

-- What is read of a request: headers and query parameters have a value for each occurrence.
pub record Request : Type 0 where
  pub method : String
  pub path : String
  pub headers : List (String × String)
  pub query_params : List (String × String)
  pub client_host : Option String
  pub http_version : Option String
  pub body : List ℕ

-- `getlist(key)`
unfoldable pub getlist : String → List (String × String) → List String
getlist key [] = []
getlist key ((k, v) ∷ rest) =
    let values = getlist key rest in if str_eq k key then v ∷ values else values

-- `values[-1] if values else ""`
abbrev pub last_or_empty : List String → String
last_or_empty [] = ""
last_or_empty (v ∷ []) = v
last_or_empty (v ∷ w ∷ ws) = last_or_empty (w ∷ ws)

-- The loop over the keys, for the dictionaries of last values and of all values.
unfoldable pub collect_values :
    List (String × String)
    → List (String × String)
    → Dict String × Dict (List String)
    → Dict String × Dict (List String)
collect_values [] all found = found
collect_values ((key, v) ∷ keys) all (single, multi) =
    collect_values keys all
      (insert key (last_or_empty (getlist key all)) single, insert key (getlist key all) multi)

unfoldable pub values_of : List (String × String) → Dict String × Dict (List String)
unfolding collect_values
values_of all = collect_values all all ([], [])

pub record Identity : Type 0 where
  pub source_ip : String
  pub user_agent : Option String

pub record Authorizer : Type 0 where
  pub claims : Dict String
  pub cognito_username : String

pub record RequestContext : Type 0 where
  pub identity : Identity
  pub authorizer : Authorizer
  pub request_id : String
  pub stage : String
  pub path : String
  pub protocol : String

-- A field that is `none` is left out of the event.
pub record ProxyEvent : Type 0 where
  pub resource : String
  pub path : String
  pub http_method : String
  pub headers : Dict String
  pub multi_value_headers : Dict (List String)
  pub query_string_parameters : Option (Dict String)
  pub multi_value_query_string_parameters : Option (Dict (List String))
  pub path_parameters : Option (Dict String)
  pub request_context : RequestContext
  pub body : Option String
  pub is_base64_encoded : Bool

-- `d if d else None`
abbrev pub unless_empty {ℓ} : {V : Type ℓ} → Dict V → Option (Dict V)
unless_empty [] = none
unless_empty (entry ∷ d) = some (entry ∷ d)

abbrev text_or : Option String → String → String
text_or none d = d
text_or (some t) d = t

-- `get_request_id()`, or a new id if there is none
abbrev known_id : Option String → String → String
known_id none new_id = new_id
known_id (some i) new_id = if str_eq i "" then new_id else i

-- `request.headers.get(name)`: the first occurrence
abbrev first_value : List String → Option String
first_value [] = none
first_value (v ∷ vs) = some v

abbrev pub header : String → Request → Option String
header name r = first_value (getlist name r.headers)

module _ (codecs : Codecs) where
  unfoldable pub is_gzip : Request → Bool
  is_gzip r = codecs.contains "gzip" (codecs.lower (text_or (header "content-encoding" r) ""))

  abbrev pub text_or_base64 : List ℕ → Option String → String × Bool
  text_or_base64 body none = (codecs.b64encode body, true)
  text_or_base64 body (some text) = (text, false)

  -- The body's text, and whether that is base64.
  unfoldable pub body_content : Request → String × Bool
  unfolding is_gzip
  body_content r =
      if is_gzip r
      then (codecs.b64encode r.body, true)
      else text_or_base64 r.body (codecs.decode_utf8 r.body)

  -- `build`; the request id is the context's, or a new one if that has none.
  unfoldable pub build :
      Request → String → Dict String → String → Option String → String → ProxyEvent
  unfolding body_content
  build r user_id path_params route_path context_id new_id =
      let (single_query, multi_query) = values_of r.query_params in
      let (single_headers, multi_headers) = values_of r.headers in
      let (content, is_base64) = body_content r in
      record {
        resource = route_path;
        path = r.path;
        http_method = r.method;
        headers = single_headers;
        multi_value_headers = multi_headers;
        query_string_parameters = unless_empty single_query;
        multi_value_query_string_parameters = unless_empty multi_query;
        path_parameters = unless_empty path_params;
        request_context = record {
          identity = record {
            source_ip = text_or r.client_host "unknown";
            user_agent = header "user-agent" r;
          };
          authorizer = record {
            claims = ("cognito:username", user_id) ∷ ("username", user_id) ∷ [];
            cognito_username = user_id;
          };
          request_id = known_id context_id new_id;
          stage = "prod";
          path = r.path;
          protocol = append "HTTP/" (text_or r.http_version "1.1");
        };
        body = if str_eq content "" then none else some content;
        is_base64_encoded = is_base64;
      }
