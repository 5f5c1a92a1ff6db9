-- ===== src/Trace/Middleware.antt =====
-- `trace_propagation_middleware` of services/gateway/main.py, and the context of a request of
-- services/common/core/request_context.py.
use edge_serverless_box.Base.{
  ℕ, ◌≡◌, refl, sym, ap, ◌∙◌, subst, String, Option, none, some, if◌then◌else◌, Result, ok, err,
}
use edge_serverless_box.Base.Dict.{Dict, lookup, insert, lookup-insert}
use edge_serverless_box.Base.Text.{is_empty}
use edge_serverless_box.Trace.{TraceId, to_text, set_trace_id}
use edge_serverless_box.Trace.RoundTrip.{IsPlain, IsPlainParent, parse-to_text}

-- `_trace_id_var` and `_request_id_var`
pub record RequestContext : Type 0 where
  pub trace_id : Option String
  pub request_id : Option String

pub record Response {ℓ} (Body : Type ℓ) : Type ℓ where
  pub status_code : ℕ
  pub headers : Dict String
  pub body : Body

-- The text that is passed on: the header, or a new id if there is none. A header is always parsed:
-- `TraceId.parse` takes any text, and the exception that the code provides for does not come.
unfoldable pub trace_id_str : Option String → TraceId → String
unfolding to_text
trace_id_str none generated = to_text generated
trace_id_str (some header) generated = if is_empty header then to_text generated else header

-- `clear_trace_id`
abbrev pub clear_trace_id : RequestContext
clear_trace_id = record { trace_id = none; request_id = none }

pub given : (t generated : TraceId) → trace_id_str (some (to_text t)) generated ≡ to_text t
unfolding trace_id_str to_text
given t generated = refl

module _ {ℓ κ} (E : Type κ) (Body : Type ℓ)
    (call_next : RequestContext → Result E (Response Body)) where
  unfoldable pub attach : String → String → Result E (Response Body) → Result E (Response Body)
  unfolding insert
  attach trace req_id (err e) = err e
  attach trace req_id (ok r) = ok (record r {
    headers = insert "x-amzn-RequestId" req_id (insert "X-Amzn-Trace-Id" trace r.headers);
  })

  -- The response, or the exception that passes, and the context that is left. The new trace id and the
  -- new request id are arguments.
  unfoldable pub trace_propagation_middleware :
      Option String → TraceId → String → Result E (Response Body) × RequestContext
  unfolding trace_id_str set_trace_id attach
  trace_propagation_middleware header generated req_id =
      let trace = trace_id_str header generated in
      (
        attach trace req_id
            (call_next (record { trace_id = some (set_trace_id trace); request_id = some req_id })),
        clear_trace_id,
      )

  attach-headers :
      (trace req_id : String) (answer : Result E (Response Body)) (r : Response Body)
      → answer ≡ ok r
      → (after : Response Body) × ((attach trace req_id answer ≡ ok after)
          × ((lookup "X-Amzn-Trace-Id" after.headers ≡ some trace)
              × (lookup "x-amzn-RequestId" after.headers ≡ some req_id)))
  unfolding attach
  attach-headers trace req_id answer r e = (
    record r {
      headers = insert "x-amzn-RequestId" req_id (insert "X-Amzn-Trace-Id" trace r.headers);
    },
    (
      ap (attach trace req_id) e,
      (
        lookup-insert "x-amzn-RequestId" "X-Amzn-Trace-Id" req_id
              (insert "X-Amzn-Trace-Id" trace r.headers)
            ∙ lookup-insert "X-Amzn-Trace-Id" "X-Amzn-Trace-Id" trace r.headers,
        lookup-insert "x-amzn-RequestId" "x-amzn-RequestId" req_id
            (insert "X-Amzn-Trace-Id" trace r.headers),
      ),
    ),
  )

  -- A request that comes with the text of a trace id is handled under exactly that id, and its
  -- response has it too, with the id of the request; nothing is left of the request afterwards. The
  -- id's parts must be plain texts, and the handler must return a response.
  pub middleware-propagates :
      (t generated : TraceId) (req_id : String) (r : Response Body)
      → IsPlain t.root
      → IsPlainParent t.parent
      → IsPlain t.sampled
      → call_next (record { trace_id = some (to_text t); request_id = some req_id }) ≡ ok r
      → let (answer, left) = trace_propagation_middleware (some (to_text t)) generated req_id in
        ((after : Response Body) × ((answer ≡ ok after)
            × ((lookup "X-Amzn-Trace-Id" after.headers ≡ some (to_text t))
                × (lookup "x-amzn-RequestId" after.headers ≡ some req_id))))
        × ((left.trace_id ≡ none) × (left.request_id ≡ none))
  unfolding trace_propagation_middleware trace_id_str set_trace_id
  middleware-propagates t generated req_id r root parent sampled handled = (
    subst
        (λ (s : String).
          (after : Response Body) × ((attach s req_id
                (call_next (record { trace_id = some (set_trace_id s); request_id = some req_id }))
              ≡ ok after)
            × ((lookup "X-Amzn-Trace-Id" after.headers ≡ some (to_text t))
                × (lookup "x-amzn-RequestId" after.headers ≡ some req_id))))
        (sym (given t generated))
        (attach-headers (to_text t) req_id _ r (
          ap (λ (s : String). call_next (record { trace_id = some s; request_id = some req_id }))
            (ap to_text (parse-to_text t root parent sampled))
          ∙ handled)),
    (refl, refl),
  )
