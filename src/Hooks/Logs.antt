-- ===== src/Hooks/Logs.antt =====
-- `LocalLogHandler` of tools/generator/runtime/site-packages/sitecustomize.py: calls of CloudWatch
-- Logs, which are printed and sent to VictoriaLogs.
use edge_serverless_box.Base.{
  ℕ, ◌≡◌, refl, String, Option, none, some, List, [], ◌∷◌, str_eq, ltb, ◌==◌, if◌then◌else◌,
}
use Prim.Native.Char.{code}
use edge_serverless_box.Base.Dict.{Dict, lookup}
use edge_serverless_box.Base.Text.{append, lstrip}
use edge_serverless_box.Hooks.{Context, get_current_trace_id}

-- A log event of a `PutLogEvents` call; a time is in milliseconds.
pub record LogEvent : Type 0 where
  pub message : Option String
  pub timestamp : Option ℕ

pub record LogEntry : Type 0 where
  pub time : ℕ
  pub level : String
  pub message : String
  pub log_group : String
  pub log_stream : String
  pub container_name : String
  pub trace_id : Option String
  pub aws_request_id : Option String

-- `LOG_LEVEL_MAP`, in the order in which its keys come.
abbrev pub log_level_map : Dict ℕ
log_level_map =
    ("DEBUG", 10) ∷ ("INFO", 20) ∷ ("WARNING", 30) ∷ ("ERROR", 40) ∷ ("CRITICAL", 50) ∷ []

abbrev pub number_or : Option ℕ → ℕ → ℕ
number_or none d = d
number_or (some n) d = n

abbrev pub text_or : Option String → String → String
text_or none d = d
text_or (some t) d = t

-- `LOG_LEVEL_MAP.get(level, 20)`
unfoldable pub rank : String → ℕ
unfolding lookup
rank level = number_or (lookup level log_level_map) 20

-- `text[len(prefix):]` if the text starts with the prefix
unfoldable pub after_prefix : String → String → Option String
after_prefix String.[] s = some s
after_prefix (String.◌∷◌ c p) String.[] = none
after_prefix (String.◌∷◌ c p) (String.◌∷◌ d s) =
    let rest = after_prefix p s in if code c == code d then rest else none

abbrev pub tag_of : String → String
tag_of level = append "[" (append level "]")

abbrev pub clean : String → Option String → String × String → String × String
clean level none other = other
clean level (some rest) other = (level, lstrip rest)

-- The loop over the levels: the level that a message begins with, and the message behind it.
unfoldable pub level_and_message : Dict ℕ → String → String × String
unfolding after_prefix lstrip
level_and_message [] msg = ("INFO", msg)
level_and_message ((level, n) ∷ levels) msg =
    let other = level_and_message levels msg in clean level (after_prefix (tag_of level) msg) other

module _ (upper : String → String) (group : Option String) (stream : Option String) (now : ℕ) where
  -- `_estimate_container_name`
  unfoldable pub estimate_container_name : Context → String
  unfolding lookup
  estimate_container_name c = text_or (lookup "AWS_LAMBDA_FUNCTION_NAME" c.environ) "UNKNOWN"

  unfoldable pub threshold : Context → ℕ
  unfolding lookup rank
  threshold c = rank (upper (text_or (lookup "LOG_LEVEL" c.environ) "INFO"))

  -- The entry for an event.
  unfoldable pub entry_of : Context → LogEvent → LogEntry
  unfolding level_and_message estimate_container_name get_current_trace_id
  entry_of c event =
      let (level, message) = level_and_message log_level_map (text_or event.message "") in
      record {
        time = number_or event.timestamp now;
        level = level;
        message = message;
        log_group = text_or group "unknown";
        log_stream = text_or stream "unknown";
        container_name = estimate_container_name c;
        trace_id = get_current_trace_id c;
        aws_request_id = c.current_request_id;
      }

  -- The loop over the events: the entries that are printed.
  unfoldable pub entries_from : Context → List LogEvent → List LogEntry
  unfolding entry_of threshold rank
  entries_from c [] = []
  entries_from c (event ∷ events) =
      let entry = entry_of c event in
      let rest = entries_from c events in
      if ltb (rank entry.level) (threshold c) then rest else entry ∷ rest

  abbrev sent_to : Option String → List LogEntry → List LogEntry
  sent_to none entries = []
  sent_to (some url) entries = if str_eq url "" then [] else entries

  -- `handle_put_log_events`: what is printed, and what is sent to VictoriaLogs.
  unfoldable pub handle_put_log_events : Context → List LogEvent → List LogEntry × List LogEntry
  unfolding entries_from lookup
  handle_put_log_events c events =
      let entries = entries_from c events in
      (entries, sent_to (lookup "VICTORIALOGS_URL" c.environ) entries)

-- A message that begins with the tag of a level has that level and is what stands behind the tag,
-- less white space.
pub level_and_message-tagged :
    (s : String)
    → (level_and_message log_level_map (append "[DEBUG]" s) ≡ ("DEBUG", lstrip s))
      × (level_and_message log_level_map (append "[INFO]" s) ≡ ("INFO", lstrip s))
      × (level_and_message log_level_map (append "[WARNING]" s) ≡ ("WARNING", lstrip s))
      × (level_and_message log_level_map (append "[ERROR]" s) ≡ ("ERROR", lstrip s))
      × (level_and_message log_level_map (append "[CRITICAL]" s) ≡ ("CRITICAL", lstrip s))
unfolding level_and_message after_prefix
level_and_message-tagged s = (refl, refl, refl, refl, refl)
