-- ===== src/Hooks/Trace.antt =====
-- The trace id of tools/generator/runtime/site-packages/sitecustomize.py, from a function that calls
-- another to the one that is called.
use edge_serverless_box.Base.{
  ◌≡◌, inl, inr, ap, ◌∙◌, String, false, Option, none, some, str_eq, if◌then◌else◌, Bool-cases,
}
use mathlib.Core.Option.{none-ne-some, some-injective}
use edge_serverless_box.Base.Chain.{taken, not_taken}
use edge_serverless_box.Base.Dict.{lookup, insert, lookup-insert}
use edge_serverless_box.Http.Value.{
  Json, null, boolean, number, text, array, object, Fields, end, get, has_key, set_key, get-set_key,
}
use edge_serverless_box.Hooks.{
  Codec, Context, ClientContext, text_context, trace_key, get_current_trace_id, keep_trace,
  trace_of, hydrate, existing_context, encode, with_trace, inject_some, inject_into, updated,
  inject_client_context_hook,
}

-- What JSON and base64 do for one value: it can be read again.
pub record ReadsBack (codec : Codec) (v : Json) : Type 0 where
  pub loads-dumps : codec.loads (codec.dumps v) ≡ some v
  pub b64decode-encode : codec.b64decode (codec.b64encode (codec.dumps v)) ≡ some (codec.dumps v)
  pub dumps_text : str_eq (codec.dumps v) "" ≡ false

-- The custom section of a context, if it is a mapping without a trace id or not there.
abbrev pub free_section : Option Json → Option Fields
free_section none = some end
free_section (some (object custom)) = if has_key "trace_id" custom then none else some custom
free_section (some v) = none

-- The context with the trace id in its custom section.
abbrev pub traced : String → Fields → Fields → Fields
traced t custom ctx = set_key "custom" (object (set_key "trace_id" (text t) custom)) ctx

with_trace-free :
    (codec : Codec) (t : String) (ctx custom : Fields) (o : Option Json)
    → free_section o ≡ some custom
    → with_trace codec t ctx o ≡ some (some (encode codec (traced t custom ctx)))
unfolding with_trace set_key
with_trace-free codec t ctx custom none e =
    ap (λ s. some (some (encode codec (traced t s ctx)))) (some-injective _ _ e)
with_trace-free codec t ctx custom (some (object section)) e =
    elim (Bool-cases (has_key "trace_id" section)) [
      | inl there ↦ absurd (none-ne-some custom (taken _ _ _ _ there e))
      | inr free ↦ rw free (
          ap (λ s. some (some (encode codec (traced t s ctx))))
            (some-injective _ _ (not_taken _ _ _ _ free e)))
    ]
with_trace-free codec t ctx custom (some null) e = absurd (none-ne-some custom e)
with_trace-free codec t ctx custom (some (boolean b)) e = absurd (none-ne-some custom e)
with_trace-free codec t ctx custom (some (number n)) e = absurd (none-ne-some custom e)
with_trace-free codec t ctx custom (some (text s)) e = absurd (none-ne-some custom e)
with_trace-free codec t ctx custom (some (array vs)) e = absurd (none-ne-some custom e)

-- A trace id that a custom section has is the one that is read.
pub trace_of-traced :
    (codec : Codec) (t : String) (custom ctx : Fields)
    → ReadsBack codec (object (traced t custom ctx))
    → str_eq t "" ≡ false
    → trace_of codec (text_context (codec.dumps (object (traced t custom ctx)))) ≡ text t
unfolding trace_of
trace_of-traced codec t custom ctx reads full = rw reads.dumps_text (
    rw reads.loads-dumps (
      rw (get-set_key "custom" "custom" (object (set_key "trace_id" (text t) custom)) ctx)
        (rw (get-set_key "trace_id" "trace_id" (text t) custom) (rw full))))

pub hydrate-text :
    (codec : Codec) (handed : ClientContext) (t invoke_id : String) (callee : Context)
    → str_eq t "" ≡ false
    → trace_of codec handed ≡ text t
    → let c = hydrate codec handed invoke_id callee in
      (get_current_trace_id c ≡ some t)
      × (c.current_request_id ≡ some invoke_id)
      × (lookup trace_key c.environ ≡ some t)
unfolding hydrate get_current_trace_id
hydrate-text codec handed t invoke_id callee full e =
    let kept : hydrate codec handed invoke_id callee ≡ record {
      current_trace_id = some t;
      current_request_id = some invoke_id;
      environ = insert trace_key t callee.environ;
    } =
      ap (λ v. keep_trace codec v (record callee { current_request_id = some invoke_id })) e
      ∙ rw full in
    (
      ap get_current_trace_id kept ∙ rw full,
      ap (λ (c : Context). c.current_request_id) kept,
      ap (λ (c : Context). lookup trace_key c.environ) kept
          ∙ lookup-insert trace_key trace_key t callee.environ,
    )

-- A function that calls another gives it its trace id: the call's parameters get a client context
-- that holds the id, unless they have a custom section that is no mapping or has an id of its own;
-- and the function that is called, which is handed the decoded text, takes the id as its own, with
-- the id of its invocation. JSON and base64 must read that context back.
pub hydrate-inject :
    (codec : Codec) (caller : Context) (before : Option String) (t : String) (ctx custom : Fields)
    → get_current_trace_id caller ≡ some t
    → str_eq t "" ≡ false
    → existing_context codec before ≡ object ctx
    → free_section (get "custom" ctx) ≡ some custom
    → ReadsBack codec (object (traced t custom ctx))
    → (after : String) × ((inject_client_context_hook codec caller before ≡ some (some after))
        × ((handed : String) × ((codec.b64decode after ≡ some handed)
              × ((invoke_id : String) (callee : Context)
                  → let c = hydrate codec (text_context handed) invoke_id callee in
                    (get_current_trace_id c ≡ some t)
                    × (c.current_request_id ≡ some invoke_id)
                    × (lookup trace_key c.environ ≡ some t)))))
unfolding inject_client_context_hook get_current_trace_id hydrate
hydrate-inject codec caller before t ctx custom has_trace full existing free reads = (
  encode codec (traced t custom ctx),
  (
    injected,
    (
      codec.dumps (object (traced t custom ctx)),
      (
        reads.b64decode-encode,
        λ invoke_id callee.
            hydrate-text codec (text_context (codec.dumps (object (traced t custom ctx)))) t
              invoke_id callee full (trace_of-traced codec t custom ctx reads full),
      ),
    ),
  ),
)
  where
    injected :
        inject_client_context_hook codec caller before
        ≡ some (some (encode codec (traced t custom ctx)))
    injected =
        ap (λ o. inject_some codec o before) has_trace
        ∙ rw full (
            ap (λ v. updated codec before (inject_into codec t v)) existing
            ∙ ap (updated codec before)
                (with_trace-free codec t ctx custom (get "custom" ctx) free))

-- An invocation whose client context has no trace id runs under the trace id that the invocation
-- before it has left, if there is one, though under its own request id.
pub hydrate-stale :
    (codec : Codec) (handed : ClientContext) (invoke_id : String) (callee : Context)
    → trace_of codec handed ≡ null
    → (get_current_trace_id (hydrate codec handed invoke_id callee) ≡ get_current_trace_id callee)
      × ((hydrate codec handed invoke_id callee).current_request_id ≡ some invoke_id)
unfolding hydrate get_current_trace_id
hydrate-stale codec handed invoke_id callee e = (
  ap
      (λ v.
        get_current_trace_id
          (keep_trace codec v (record callee { current_request_id = some invoke_id })))
      e,
  ap
      (λ v.
        (keep_trace codec v
          (record callee { current_request_id = some invoke_id })).current_request_id)
      e,
)
