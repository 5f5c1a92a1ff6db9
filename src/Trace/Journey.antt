-- ===== src/Trace/Journey.antt =====
-- A trace id on its way: from a request of services/gateway/main.py, through the post of
-- services/gateway/services/lambda_invoker.py, into the function's container with
-- tools/generator/runtime/site-packages/sitecustomize.py.
use edge_serverless_box.Base.{
  ◌≡◌, refl, ap, ◌∙◌, String, false, Option, none, some, [], ◌∷◌, str_eq, if◌then◌else◌,
}
use edge_serverless_box.Base.Dict.{Dict, lookup}
use edge_serverless_box.Base.Text.{is_empty, str_eq-nonempty}
use edge_serverless_box.Http.Value.{text, object, end, field, set_key}
use edge_serverless_box.Hooks.{Codec, Context, text_context, get_current_trace_id, hydrate, encode}
use edge_serverless_box.Hooks.Trace.{ReadsBack, traced, trace_of-traced, hydrate-text}
use edge_serverless_box.Trace.{TraceId, to_text, set_trace_id}
use edge_serverless_box.Trace.RoundTrip.{IsPlain, IsPlainParent, parse-to_text}
use edge_serverless_box.Trace.Middleware.{trace_id_str, given}

-- The headers with which the invoker posts to a container, for the request's trace id.
unfoldable pub post_headers : Codec → Option String → Dict String
post_headers codec none = ("Content-Type", "application/json") ∷ []
post_headers codec (some trace_id) =
    if is_empty trace_id
    then ("Content-Type", "application/json") ∷ []
    else ("Content-Type", "application/json")
      ∷ ("X-Amzn-Trace-Id", trace_id)
      ∷ (
        "X-Amz-Client-Context",
        encode codec (field "custom" (object (field "trace_id" (text trace_id) end)) end),
      )
      ∷ []

to_text-nonempty : (t : TraceId) → is_empty (to_text t) ≡ false
unfolding to_text
to_text-nonempty t = refl

set_trace_id-to_text :
    (t : TraceId)
    → IsPlain t.root
    → IsPlainParent t.parent
    → IsPlain t.sampled
    → set_trace_id (to_text t) ≡ to_text t
unfolding set_trace_id
set_trace_id-to_text t root parent sampled = ap to_text (parse-to_text t root parent sampled)

-- A request with the text of a trace id reaches the function's container under that id: the invoker
-- posts it with a header for the client context, and the container, which is handed that context
-- decoded, takes the id as that of its invocation, whatever the invocations before it have left. The
-- id's parts must be plain texts, and JSON and base64 must read the context back.
pub gateway-hydrates :
    (codec : Codec) (t generated : TraceId)
    → IsPlain t.root
    → IsPlainParent t.parent
    → IsPlain t.sampled
    → ReadsBack codec (object (traced (to_text t) end end))
    → let headers =
        post_headers codec (some (set_trace_id (trace_id_str (some (to_text t)) generated))) in
      (sent : String) × ((lookup "X-Amz-Client-Context" headers ≡ some sent)
        × ((lookup "X-Amzn-Trace-Id" headers ≡ some (to_text t))
            × ((handed : String) × ((codec.b64decode sent ≡ some handed)
                  × ((invoke_id : String) (callee : Context)
                      → let c = hydrate codec (text_context handed) invoke_id callee in
                        (get_current_trace_id c ≡ some (to_text t))
                        × (c.current_request_id ≡ some invoke_id))))))
unfolding post_headers lookup set_key
gateway-hydrates codec t generated root parent sampled reads = (
  encode codec (traced (to_text t) end end),
  (
    ap (lookup "X-Amz-Client-Context") headers,
    (
      ap (lookup "X-Amzn-Trace-Id") headers,
      (
        codec.dumps (object (traced (to_text t) end end)),
        (
          reads.b64decode-encode,
          λ invoke_id callee.
              let h =
                hydrate-text codec
                  (text_context (codec.dumps (object (traced (to_text t) end end)))) (to_text t)
                  invoke_id callee full (trace_of-traced codec (to_text t) end end reads full) in
              (h.0, h.1),
        ),
      ),
    ),
  ),
)
  where
    full : str_eq (to_text t) "" ≡ false
    full = str_eq-nonempty (to_text t) (to_text-nonempty t)

    headers :
        post_headers codec (some (set_trace_id (trace_id_str (some (to_text t)) generated)))
        ≡ ("Content-Type", "application/json")
          ∷ ("X-Amzn-Trace-Id", to_text t)
          ∷ ("X-Amz-Client-Context", encode codec (traced (to_text t) end end))
          ∷ []
    headers =
        ap (λ s. post_headers codec (some (set_trace_id s))) (given t generated)
        ∙ ap (λ s. post_headers codec (some s)) (set_trace_id-to_text t root parent sampled)
        ∙ rw (to_text-nonempty t)
