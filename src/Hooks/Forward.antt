-- ===== src/Hooks/Forward.antt =====
-- `VictoriaLogsStdoutHook` of tools/generator/runtime/site-packages/sitecustomize.py: what a function
-- prints is sent to VictoriaLogs as well, line by line.
use edge_serverless_box.Base.{
  String, Bool, true, not, ◌&&◌, ◌||◌, Option, none, some, List, [], ◌∷◌, str_eq, if◌then◌else◌,
}
use edge_serverless_box.Base.Text.{append, is_empty, strip, rstrip, splitlines}
use edge_serverless_box.Http.Value.{
  Json, text, array, object, Fields, end, field, get, has_key, set_key, pop_key, default_key,
}
use edge_serverless_box.Hooks.{Codec, Context, get_current_trace_id, has_item}

-- The level that a line is given, from the words in it.
unfoldable pub infer_level : (String → String → Bool) → String → String
infer_level contains line =
    if contains "DEBUG" line || contains "TRACE" line
    then "DEBUG"
    else if contains "WARN" line
    then "WARNING"
    else if contains "ERROR" line || contains "CRIT" line
    then "ERROR"
    else "INFO"

-- An id that is added unless the entry has one, and left out if there is none.
abbrev pub default_id : String → Option String → Fields → Fields
default_id key none entry = entry
default_id key (some i) entry = if str_eq i "" then entry else default_key key (text i) entry

abbrev pub moved_time : String → Option Json → Fields → Fields
moved_time now none entry = set_key "_time" (text now) entry
moved_time now (some v) entry = set_key "_time" v (pop_key "timestamp" entry)

unfoldable pub with_time : String → Fields → Fields
unfolding has_key set_key pop_key get
with_time now entry =
    if has_key "_time" entry then entry else moved_time now (get "timestamp" entry) entry

module _ (codec : Codec) (upper : String → String) (container_name : String) where
  -- The fields that are added to a mapping.
  unfoldable pub completed : Context → String → Fields → Fields
  unfolding default_key with_time get_current_trace_id
  completed c now entry = with_time now (
      default_id "aws_request_id" c.current_request_id (
        default_id "trace_id" (get_current_trace_id c) (
          default_key "job" (text "lambda")
            (default_key "container_name" (text container_name) entry))))

  abbrev is_blank : Option String → Bool
  is_blank none = true
  is_blank (some i) = str_eq i ""

  -- A list or a text is sent as it is if nothing has to be added; to add to it is an exception.
  abbrev unchanged : Context → (String → Bool) → Json → Option Json
  unchanged c has v =
      if has "container_name"
        && has "job"
        && (has "trace_id" || is_blank (get_current_trace_id c))
        && (has "aws_request_id" || is_blank c.current_request_id)
        && has "_time"
      then some v
      else none

  -- `log_entry`: the line's JSON, or a mapping made for the line.
  unfoldable pub log_entry : String → String → Option Json → Json
  unfolding infer_level
  log_entry now line (some v) = v
  log_entry now line none = object (
      field "_time" (text now) (
        field "level" (text (infer_level codec.contains (upper line)))
          (field "message" (text line) end)))

  -- What is sent of an entry. An exception is caught, and then nothing is.
  unfoldable pub payload : Context → String → Json → Option Json
  unfolding completed has_item
  payload c now (object entry) = some (object (completed c now entry))
  payload c now (array vs) = unchanged c (λ key. has_item codec key vs) (array vs)
  payload c now (text t) = unchanged c (λ key. codec.contains key t) (text t)
  payload c now v = none

  unfoldable pub send_to_victorialogs : Context → String → String → Option Json
  unfolding payload log_entry
  send_to_victorialogs c now line = payload c now (log_entry now line (codec.loads line))

  abbrev add_sent : Option Json → List Json → List Json
  add_sent none rest = rest
  add_sent (some v) rest = v ∷ rest

  unfoldable pub send_lines : Context → String → List String → List Json
  unfolding send_to_victorialogs strip
  send_lines c now [] = []
  send_lines c now (line ∷ lines) =
      let rest = send_lines c now lines in
      if is_empty (strip line) then rest else add_sent (send_to_victorialogs c now line) rest

  -- `write`: the text behind what the stream had, and what is sent.
  unfoldable pub write : Context → String → String → String → String → String × List Json
  unfolding send_lines strip rstrip splitlines
  write c url now written buf = (
    append written buf,
    if not (is_empty url) && not (is_empty (strip buf))
        then send_lines c now (splitlines (rstrip buf))
        else [],
  )
