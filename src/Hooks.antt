-- ===== src/Hooks.antt =====
-- tools/generator/runtime/site-packages/sitecustomize.py: what a function's container adds to the
-- Lambda runtime. Here: the ids of the invocation under way, how they arrive with an invocation, and
-- how they are passed on with a call of another function.
pub mod Trace
pub mod Logs
pub mod Forward
pub mod Kept
pub mod Clients
pub mod Handlers
pub mod Invocation
mod Tests
use edge_serverless_box.Base.{
  ℕ, zero, suc, ◌+◌, ◌-◌, ◌*◌, ◌≤◌, ◌<◌, ◌≡◌, ◌≢◌, ◌⊎◌, inl, inr, ◌↔◌, refl, sym, ap, ◌∙◌, subst,
  String, Bool, true, false, not, ◌&&◌, ◌||◌, Option, none, some, List, [], ◌∷◌, ◌++◌, map, arith,
  eq_iff, length, length-append, keep_if, any_of, str_eq, str_eq_refl, ltb, leb, ◌==◌,
  if◌then◌else◌, Bool-cases, Option-cases, Result, ok, err,
}
use edge_serverless_box.Base.Dict.{Dict, lookup, insert}
use edge_serverless_box.Http.Value.{
  Json, null, boolean, number, text, array, object, Items, nil, cons, Fields, end, field, get,
  has_key, truthy, set_key,
}

-- JSON and base64, and Python's tests of numbers and of parts of texts. `none` is an exception.
pub record Codec : Type 0 where
  pub dumps : Json → String
  pub loads : String → Option Json
  pub b64encode : String → String
  pub b64decode : String → Option String
  pub is_nonzero : String → Bool
  -- `needle in text`
  pub contains : String → String → Bool

-- `_trace_context` of one thread, and `os.environ`.
pub record Context : Type 0 where
  pub current_trace_id : Option String
  pub current_request_id : Option String
  pub environ : Dict String

abbrev pub trace_key : String
trace_key = "_X_AMZN_TRACE_ID"

abbrev unless_blank : Option String → Option String → Option String
unless_blank none other = other
unless_blank (some t) other = if str_eq t "" then other else some t

-- `_get_current_trace_id`
unfoldable pub get_current_trace_id : Context → Option String
unfolding lookup
get_current_trace_id c = unless_blank c.current_trace_id (lookup trace_key c.environ)

-- The client context as the runtime hands it over: none, a text, a mapping, or an object with a
-- field `custom`.
pub data ClientContext : Type 0 where
  absent : ClientContext
  text_context : String → ClientContext
  mapping_context : Fields → ClientContext
  object_context : Json → ClientContext

module _ (codec : Codec) where
  -- `custom.get("trace_id") or custom.get("_X_AMZN_TRACE_ID")`, for a mapping
  abbrev pub custom_trace : Option Json → Json
  custom_trace (some (object custom)) = first_of (get "trace_id" custom) (get trace_key custom)
    where
      value_or_null : Option Json → Json
      value_or_null none = null
      value_or_null (some v) = v

      first_of : Option Json → Option Json → Json
      first_of none other = value_or_null other
      first_of (some v) other = if truthy codec.is_nonzero v then v else value_or_null other
  custom_trace other = null

  abbrev pub decoded : Option Json → Json
  decoded (some (object ctx)) = custom_trace (get "custom" ctx)
  decoded other = null

  -- The trace id that a client context carries, or null.
  unfoldable pub trace_of : ClientContext → Json
  unfolding get truthy
  trace_of absent = null
  trace_of (text_context t) = if str_eq t "" then null else decoded (codec.loads t)
  trace_of (mapping_context ctx) = custom_trace (get "custom" ctx)
  trace_of (object_context custom) = custom_trace (some custom)

  abbrev pub keep_trace : Json → Context → Context
  keep_trace (text t) c =
      if str_eq t ""
      then c
      else record c { current_trace_id = some t; environ = insert trace_key t c.environ }
  keep_trace other c = c

  -- The hydration in `patched_handle_event_request`. A trace id that is no text cannot be put into
  -- the environment: that exception is caught, and the id is not kept.
  unfoldable pub hydrate : ClientContext → String → Context → Context
  unfolding trace_of insert
  hydrate ctx invoke_id c =
      keep_trace (trace_of ctx) (record c { current_request_id = some invoke_id })

  -- The existing context, `{}` if there is none or if it cannot be decoded.
  abbrev pub existing_context : Option String → Json
  existing_context none = object end
  existing_context (some encoded) = loaded (codec.b64decode encoded)
    where
      or_empty : Option Json → Json
      or_empty none = object end
      or_empty (some v) = v

      loaded : Option String → Json
      loaded none = object end
      loaded (some t) = or_empty (codec.loads t)

  unfoldable pub has_item : String → Items → Bool
  has_item s nil = false
  has_item s (cons (text t) vs) = str_eq t s || has_item s vs
  has_item s (cons v vs) = has_item s vs

  abbrev pub encode : Fields → String
  encode ctx = codec.b64encode (codec.dumps (object ctx))

  -- The custom section gets the trace id, if it has none. A section that is no mapping is left if
  -- "trace_id" is in it, and an exception otherwise. The result is the new context, if it changes.
  unfoldable pub with_trace : String → Fields → Option Json → Option (Option String)
  unfolding get has_key set_key has_item
  with_trace trace ctx none =
      some (some (encode (set_key "custom" (object (field "trace_id" (text trace) end)) ctx)))
  with_trace trace ctx (some (object custom)) =
      if has_key "trace_id" custom
      then some none
      else some
          (some (encode (set_key "custom" (object (set_key "trace_id" (text trace) custom)) ctx)))
  with_trace trace ctx (some (text t)) = if codec.contains "trace_id" t then some none else none
  with_trace trace ctx (some (array vs)) = if has_item "trace_id" vs then some none else none
  with_trace trace ctx (some v) = none

  abbrev pub inject_into : String → Json → Option (Option String)
  inject_into trace (object ctx) = with_trace trace ctx (get "custom" ctx)
  inject_into trace v = none

  abbrev pub updated : Option String → Option (Option String) → Option (Option String)
  updated before none = none
  updated before (some none) = some before
  updated before (some (some after)) = some (some after)

  abbrev pub inject_some : Option String → Option String → Option (Option String)
  inject_some none before = some before
  inject_some (some trace) before =
      if str_eq trace ""
      then some before
      else updated before (inject_into trace (existing_context before))

  -- `_inject_client_context_hook`, on the `ClientContext` among a call's parameters.
  unfoldable pub inject_client_context_hook : Context → Option String → Option (Option String)
  unfolding get_current_trace_id with_trace get
  inject_client_context_hook c before = inject_some (get_current_trace_id c) before
