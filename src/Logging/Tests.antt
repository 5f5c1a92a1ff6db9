-- ===== src/Logging/Tests.antt =====
-- Runs of services/common/core/logging_config.py.
use edge_serverless_box.Base.{◌≡◌, refl, String, true, none, some, List, [], ◌∷◌, any_of}
use edge_serverless_box.Http.Value.{
  Json, null, text, object, Fields, end, field, get, has_key, set_key, truthy, default_key,
}
use edge_serverless_box.Logging.{
  LogRecord, Post, failed, fell_back, is_extra, with_extras, resolve_id, format,
  merge_stream_fields, url_params, fallback, send, emit, queue_stream_fields,
}
use edge_serverless_box.Logging.Lambda.{
  victoria_logs, other_handler, Stream, process_stream, to_logger, Process, write, log_lines,
  add_handler, set_up, wrapper, calls,
}
use edge_serverless_box.Base.Text.{strip, lstrip, rstrip, splitlines, is_space, is_line_break}
use edge_serverless_box.Logging.Sent.{Kept, emit-Kept}

abbrev log_record : LogRecord
log_record = record {
  created = "12:00";
  levelname = "INFO";
  name = "gateway.access";
  message = "GET / 200";
  fields =
      field "msg" (text "GET / 200")
        (field "_hidden" null (field "trace_id" (text "t1") (field "status" (text "200") end)));
  exception = none;
}

-- The record's own trace id, the request's other id, and the one attribute that is no standard one.
formatted :
    format (λ n. true) (some "t0") (some "r0") log_record
    ≡ field "_time" (text "12:00") (
        field "level" (text "INFO") (
          field "logger" (text "gateway.access") (
            field "message" (text "GET / 200") (
              field "trace_id"
                (text "t1")
                (field "aws_request_id" (text "r0") (field "status" (text "200") end))))))
unfolding format resolve_id with_extras is_extra any_of get set_key truthy
formatted = refl

abbrev entry : Fields
entry = field "message" (text "hi") (field "job" (text "mine") end)

abbrev down : List (String × String) → Fields → Post
down params merged = failed "refused"

-- The handler's own job is not put over the message's.
written :
    emit (λ t. some (object entry)) down (queue_stream_fields "gateway") "msg" "INFO"
    ≡ fell_back (
        fallback "refused" (
          field "message"
            (text "hi")
            (field "job" (text "mine") (field "container_name" (text "gateway") end))))
unfolding emit send merge_stream_fields default_key has_key set_key
written = refl

emit-Kept_example :
    (merged : Fields) × (Kept
        (url_params (queue_stream_fields "gateway"))
        merged
        (failed "refused")
        (emit (λ t. some (object entry)) down (queue_stream_fields "gateway") "msg" "INFO")
      × ((k : String) (v : Json) → get k entry ≡ some v → get k merged ≡ some v))
emit-Kept_example =
    emit-Kept (λ t. some (object entry)) down (queue_stream_fields "gateway") "msg" "INFO" entry
      refl

abbrev process : Process
process = record {
  handlers = other_handler "console" ∷ [];
  level = 30;
  stdout = process_stream "stdout";
  stderr = process_stream "stderr";
}

-- A handler that is called twice: it sees the redirected streams, and a sender is added once.
called_twice : (calls Stream (λ p. (p.stderr, p)) 2 (some "http://logs") "echo" process) ≡ (
  to_logger "stderr" 40 ∷ to_logger "stderr" 40 ∷ [],
  record process { handlers = other_handler "console" ∷ victoria_logs "echo" ∷ []; level = 20 },
)
unfolding calls wrapper set_up add_handler any_of
called_twice = refl

logged : write 20 "  one  \n\ntwo\n" ≡ (20, "  one") ∷ (20, "two") ∷ []
unfolding write log_lines strip rstrip splitlines is_space is_line_break lstrip
logged = refl
