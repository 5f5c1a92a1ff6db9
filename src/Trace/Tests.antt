-- ===== src/Trace/Tests.antt =====
-- Runs of services/common/core/trace.py.
use edge_serverless_box.Base.{ℕ, ◌≡◌, refl, String, true, none, some, [], str_eq, ok}
use edge_serverless_box.Base.Dict.{lookup, insert}
use edge_serverless_box.Base.Text.{append, has_char, strip, split, split_once}
use edge_serverless_box.Trace.{
  TraceId, parts_of, root_of, parse, parse_parts, to_text, set_trace_id,
}
use edge_serverless_box.Trace.RoundTrip.{IsPlain, parse-to_text}
use edge_serverless_box.Http.Value.{object, end}
use edge_serverless_box.Hooks.{Codec, Context, text_context, get_current_trace_id, hydrate}
use edge_serverless_box.Hooks.Trace.{ReadsBack, traced}
use edge_serverless_box.Trace.Journey.{post_headers, gateway-hydrates}
use edge_serverless_box.Trace.Middleware.{
  trace_id_str, Response, trace_propagation_middleware, middleware-propagates,
}

abbrev root : String
root = "1-5759e988-bd862e3fe1be46a994272793"

-- A header that is no list of fields is taken for the root.
raw_id : set_trace_id (append " " root) ≡ append "Root=" (append root ";Sampled=1")
unfolding set_trace_id parse parse_parts parts_of split split_once root_of to_text strip insert
    lookup has_char
raw_id = refl

abbrev id : TraceId
id = record { root = root; parent = some "53995c3f42cd8ad8"; sampled = "0" }

root_IsPlain : IsPlain root
unfolding has_char strip
root_IsPlain = record { some_text = refl; no_separator = refl; trimmed = refl }

parent_IsPlain : IsPlain "53995c3f42cd8ad8"
unfolding has_char strip
parent_IsPlain = record { some_text = refl; no_separator = refl; trimmed = refl }

sampled_IsPlain : IsPlain "0"
unfolding has_char strip
sampled_IsPlain = record { some_text = refl; no_separator = refl; trimmed = refl }

parse-to_text_example : parse (to_text id) ≡ id
parse-to_text_example = parse-to_text id root_IsPlain parent_IsPlain sampled_IsPlain

abbrev page : Response String
page = record { status_code = 200; headers = []; body = "page" }

middleware-propagates_example :
    let (answer, left) =
      trace_propagation_middleware ℕ String (λ c. ok page) (some (to_text id)) id "r1" in
    ((after : Response String) × ((answer ≡ ok after)
        × ((lookup "X-Amzn-Trace-Id" after.headers ≡ some (to_text id))
            × (lookup "x-amzn-RequestId" after.headers ≡ some "r1"))))
    × ((left.trace_id ≡ none) × (left.request_id ≡ none))
middleware-propagates_example =
    middleware-propagates ℕ String (λ c. ok page) id id "r1" page root_IsPlain parent_IsPlain
      sampled_IsPlain refl

-- A codec that knows one context.
abbrev codec : Codec
codec = record {
  dumps = λ v. "{custom}";
  loads = λ s. some (object (traced (to_text id) end end));
  b64encode = λ s. "e30=";
  b64decode = λ s. some "{custom}";
  is_nonzero = λ n. true;
  contains = λ needle s. str_eq needle s;
}

codec-ReadsBack : ReadsBack codec (object (traced (to_text id) end end))
codec-ReadsBack = record { loads-dumps = refl; b64decode-encode = refl; dumps_text = refl }

gateway-hydrates_example :
    let headers = post_headers codec (some (set_trace_id (trace_id_str (some (to_text id)) id))) in
    (sent : String) × ((lookup "X-Amz-Client-Context" headers ≡ some sent)
      × ((lookup "X-Amzn-Trace-Id" headers ≡ some (to_text id))
          × ((handed : String) × ((codec.b64decode sent ≡ some handed)
                × ((invoke_id : String) (callee : Context)
                    → let c = hydrate codec (text_context handed) invoke_id callee in
                      (get_current_trace_id c ≡ some (to_text id))
                      × (c.current_request_id ≡ some invoke_id))))))
gateway-hydrates_example =
    gateway-hydrates codec id id root_IsPlain parent_IsPlain sampled_IsPlain codec-ReadsBack
