-- ===== src/Logging.antt =====
-- services/common/core/logging_config.py: the JSON of a log record, and the handler that sends it to
-- VictoriaLogs.
pub mod Sent
pub mod Lambda
mod Tests
use edge_serverless_box.Base.{
  ℕ, zero, suc, ◌+◌, ◌-◌, ◌*◌, ◌≤◌, ◌<◌, ◌≡◌, ◌≢◌, ◌⊎◌, inl, inr, ◌↔◌, refl, sym, ap, ◌∙◌, subst,
  String, Bool, true, false, not, ◌&&◌, ◌||◌, Option, none, some, List, [], ◌∷◌, ◌++◌, map, arith,
  eq_iff, length, length-append, keep_if, any_of, str_eq, str_eq_refl, ltb, leb, ◌==◌,
  if◌then◌else◌, Bool-cases, Option-cases, Result, ok, err,
}
use Prim.Native.String
use Prim.Native.Char.{code}
use edge_serverless_box.Base.Dict.{Dict, lookup}
use edge_serverless_box.Base.Text.{append, join}
use edge_serverless_box.Http.Value.{
  Json, null, boolean, number, text, array, object, Items, nil, cons, Fields, end, field, get,
  has_key, truthy, set_key, default_key,
}

-- A `LogRecord`: `fields` are the entries of its `__dict__`, `message` what `getMessage` gives, and
-- `exception` the text of its exception, if it has one.
pub record LogRecord : Type 0 where
  pub created : String
  pub levelname : String
  pub name : String
  pub message : String
  pub fields : Fields
  pub exception : Option String

abbrev pub standard_attrs : List String
standard_attrs =
    "args" ∷ "asctime" ∷ "created" ∷ "exc_info" ∷ "exc_text" ∷ "filename" ∷ "funcName" ∷ "levelname"
    ∷ "levelno" ∷ "lineno" ∷ "module" ∷ "msecs" ∷ "message" ∷ "msg" ∷ "name" ∷ "pathname"
    ∷ "process" ∷ "processName" ∷ "relativeCreated" ∷ "stack_info" ∷ "thread" ∷ "threadName" ∷ []

-- `key.startswith("_")`
abbrev pub is_hidden : String → Bool
is_hidden String.[] = false
is_hidden (String.◌∷◌ c s) = code c == b'_'

-- Whether an attribute of a record goes into its entry.
unfoldable pub is_extra : String → Bool
unfolding any_of
is_extra key = not (any_of (λ a. str_eq a key) standard_attrs) && not (is_hidden key)

-- The loop over the attributes.
unfoldable pub with_extras : Fields → Fields → Fields
unfolding is_extra set_key
with_extras end log_data = log_data
with_extras (field key v rest) log_data =
    with_extras rest (if is_extra key then set_key key v log_data else log_data)

module _ (is_nonzero : String → Bool) where
  abbrev id_text : Option String → Json
  id_text none = null
  id_text (some t) = text t

  -- The record's id, or the request's.
  unfoldable pub resolve_id : Option Json → Option String → Json
  unfolding truthy
  resolve_id none context = id_text context
  resolve_id (some v) context = if truthy is_nonzero v then v else id_text context

  abbrev put_id : String → Json → Fields → Fields
  put_id key v log_data = if truthy is_nonzero v then set_key key v log_data else log_data

  abbrev put_exception : Option String → Fields → Fields
  put_exception none log_data = log_data
  put_exception (some t) log_data = set_key "exception" (text t) log_data

  -- `CustomJsonFormatter.format`, before it is printed as JSON; the ids of the request under way are
  -- arguments.
  unfoldable pub format : Option String → Option String → LogRecord → Fields
  unfolding resolve_id with_extras get set_key truthy
  format trace_id request_id r = put_exception r.exception (
      with_extras r.fields (
        put_id "aws_request_id" (resolve_id (get "aws_request_id" r.fields) request_id) (
          put_id "trace_id" (resolve_id (get "trace_id" r.fields) trace_id) (
            field "_time" (text r.created) (
              field "level" (text r.levelname)
                (field "logger" (text r.name) (field "message" (text r.message) end)))))))

-- How a request to VictoriaLogs ends: it is answered, it fails (`OSError`, `URLError`), or another
-- exception is raised.
pub data Post : Type 0 where
  answered : Post
  failed : String → Post
  raised : Post

-- What `emit` does with a record.
pub data Emitted : Type 0 where
  delivered : List (String × String) → Fields → Emitted
  -- written to the standard error stream, where the stream takes it
  fell_back : Fields → Emitted
  handle_error : Emitted

-- The loop over the handler's own fields.
unfoldable pub merge_stream_fields : Dict String → Fields → Fields
unfolding default_key
merge_stream_fields [] entry = entry
merge_stream_fields ((key, v) ∷ rest) entry =
    merge_stream_fields rest (default_key key (text v) entry)

abbrev pub keys : Dict String → List String
keys [] = []
keys ((key, v) ∷ rest) = key ∷ keys rest

-- The parameters of the URL.
unfoldable pub url_params : Dict String → List (String × String)
unfolding join
url_params stream_fields =
    ("_stream_fields", join "," (keys stream_fields))
    ∷ ("_msg_field", "message")
    ∷ ("_time_field", "_time")
    ∷ stream_fields

abbrev pub fallback : String → Fields → Fields
fallback error entry =
    field "fallback" (text "victorialogs_failed")
      (field "error" (text error) (field "original_log" (object entry) end))

-- The entry of a message: its JSON, or a mapping made for it.
abbrev pub log_entry : String → String → Option Json → Json
log_entry msg levelname (some v) = v
log_entry msg levelname none =
    object (field "message" (text msg) (field "level" (text levelname) end))

module _ (loads : String → Option Json) (post : List (String × String) → Fields → Post)
    (stream_fields : Dict String) where
  unfoldable pub send : Fields → Emitted
  unfolding merge_stream_fields url_params
  send entry =
      let merged = merge_stream_fields stream_fields entry in
      go (post (url_params stream_fields) merged) merged
    where
      go : Post → Fields → Emitted
      go answered merged = delivered (url_params stream_fields) merged
      go (failed error) merged = fell_back (fallback error merged)
      go raised merged = handle_error

  abbrev pub emit_entry : Json → Option Emitted
  emit_entry (object entry) = some (send entry)
  emit_entry v = none

  abbrev pub or_error : Option Emitted → Emitted
  or_error none = handle_error
  or_error (some e) = e

  -- `VictoriaLogsHandler.emit`, on the formatted message. JSON that is no mapping, which the formatter
  -- above never gives, is taken for an exception, which `handleError` gets.
  unfoldable pub emit : String → String → Emitted
  unfolding send
  emit msg levelname = or_error (emit_entry (log_entry msg levelname (loads msg)))

-- The fields of the handler that `configure_queue_logging` makes.
abbrev pub queue_stream_fields : String → Dict String
queue_stream_fields service_name = ("container_name", service_name) ∷ ("job", "services") ∷ []
