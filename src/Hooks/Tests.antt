-- ===== src/Hooks/Tests.antt =====
-- Runs of tools/generator/runtime/site-packages/sitecustomize.py.
use edge_serverless_box.Base.{
  ◌≡◌, refl, String, true, false, Option, none, some, List, [], ◌∷◌, ◌++◌, map, arith, str_eq,
  if◌then◌else◌,
}
use edge_serverless_box.Base.Dict.{lookup}
use edge_serverless_box.Http.Value.{
  Json, number, text, object, Fields, end, field, get, has_key, set_key,
}
use edge_serverless_box.Hooks.{
  Codec, Context, ClientContext, absent, text_context, trace_key, get_current_trace_id, hydrate,
  with_trace, inject_client_context_hook,
}
use edge_serverless_box.Hooks.Trace.{ReadsBack, traced, hydrate-inject}
use edge_serverless_box.Hooks.Logs.{LogEvent, handle_put_log_events}
use edge_serverless_box.Hooks.Forward.{payload, send_to_victorialogs}
use edge_serverless_box.Hooks.Kept.{send-keeps}
use edge_serverless_box.Hooks.Handlers.{
  Root, patch_logging, remove_all, remove_handler, nth, every_second, patch_logging-every_second,
}
use edge_serverless_box.Hooks.Invocation.{original, World, serve, Served, serve-Served}
use edge_serverless_box.Hooks.Clients.{configure_service_endpoint, retry_config}

abbrev trace_id : String
trace_id = "Root=1-5f-ab"

abbrev caller : Context
caller = record { current_trace_id = some trace_id; current_request_id = none; environ = [] }

-- The context that the caller sends.
abbrev sent_context : Json
sent_context = object (field "custom" (object (field "trace_id" (text trace_id) end)) end)

abbrev line_entry : Fields
line_entry = field "message" (text "ready") (field "level" (text "INFO") end)

-- A codec that knows the two texts of these runs.
abbrev codec : Codec
codec = record {
  dumps = λ v. "{custom}";
  loads = λ t.
      if str_eq t "{custom}"
      then some sent_context
      else if str_eq t "{line}"
      then some (object line_entry)
      else none;
  b64encode = λ t. "e30=";
  b64decode = λ t. some "{custom}";
  is_nonzero = λ n. true;
  contains = λ needle t. str_eq needle t;
}

injected : inject_client_context_hook codec caller none ≡ some (some "e30=")
unfolding inject_client_context_hook get_current_trace_id with_trace get
injected = refl

hydrate-inject_example :
    (after : String) × ((inject_client_context_hook codec caller none ≡ some (some after))
      × ((handed : String) × ((codec.b64decode after ≡ some handed)
            × ((invoke_id : String) (callee : Context)
                → let c = hydrate codec (text_context handed) invoke_id callee in
                  (get_current_trace_id c ≡ some trace_id)
                  × (c.current_request_id ≡ some invoke_id)
                  × (lookup trace_key c.environ ≡ some trace_id)))))
unfolding set_key
hydrate-inject_example =
    hydrate-inject codec caller none trace_id end end (unfold get_current_trace_id in refl) refl
      refl (unfold get in refl) reads
  where
    reads : ReadsBack codec (object (traced trace_id end end))
    reads = record { loads-dumps = refl; b64decode-encode = refl; dumps_text = refl }

abbrev warning_level : Context
warning_level = record caller {
  environ = ("LOG_LEVEL", "WARNING") ∷ ("VICTORIALOGS_URL", "http://logs") ∷ [];
}

abbrev log_events : List LogEvent
log_events =
    record { message = some "[ERROR] failed"; timestamp = some 5 }
    ∷ record { message = some "started"; timestamp = none }
    ∷ []

-- Of the two events only the first has the level WARNING or more; it is printed and sent.
warning_sent :
    let (printed, sent) = handle_put_log_events (λ t. t) none none 9 warning_level log_events in
    (map (λ e. e.level) printed ≡ "ERROR" ∷ []) × (sent ≡ printed)
unfolding handle_put_log_events
warning_sent = (refl, refl)

send-keeps_example :
    (sent : Fields) × ((send_to_victorialogs codec (λ t. t) "hello" caller "12:00" "{line}"
        ≡ some (object sent))
      × (((k : String) (v : Json)
            → get k line_entry ≡ some v
            → str_eq "timestamp" k ≡ false
            → get k sent ≡ some v)
          × (has_key "container_name" line_entry ≡ false
              → get "container_name" sent ≡ some (text "hello"))))
send-keeps_example = send-keeps codec (λ t. t) "hello" caller "12:00" "{line}" line_entry refl

-- A line that is a number is not sent.
number_dropped : payload codec (λ t. t) "hello" caller "12:00" (number "42") ≡ none
unfolding payload
number_dropped = refl

abbrev root : Root
root = record { handlers = "runtime" ∷ "file" ∷ "memory" ∷ []; level = "WARNING" }

-- One of three handlers survives.
survivor : (patch_logging (λ t. t) [] "json" root).handlers ≡ "file" ∷ "json" ∷ []
unfolding patch_logging remove_all nth remove_handler
survivor = refl

patch_logging-every_second_example :
    ((patch_logging (λ t. t) [] "json" root).handlers ≡ every_second root.handlers ++ "json" ∷ [])
    × (remove_all 9 0 root.handlers ≡ every_second root.handlers)
patch_logging-every_second_example =
    patch_logging-every_second (λ t. t) [] "json" root 9 refl (ground arith)

-- A handler that tells its request id, and loses the process's output.
abbrev handler : World → Option String × World
handler w = (w.context.current_request_id, record w { stdout = original "closed" })

abbrev container : World
container = record {
  context = warning_level;
  stdout = original "stdout";
  stderr = original "stderr";
}

abbrev invocations : List (ClientContext × String)
invocations = (text_context "{custom}", "r1") ∷ (absent, "r2") ∷ []

serve-Served_example :
    let (results, final) = serve (Option String) codec handler invocations container in
    Served (Option String) codec handler container invocations results
    × ((final.stdout ≡ container.stdout) × (final.stderr ≡ container.stderr))
serve-Served_example = serve-Served (Option String) codec handler container invocations

redirected :
    configure_service_endpoint
      (λ c d. d)
      (λ name a. none)
      (("S3_ENDPOINT", "") ∷ ("DYNAMODB_ENDPOINT", "http://db") ∷ [])
      "dynamodb"
      record { endpoint_url = none; verify = none; config = none }
    ≡ record { endpoint_url = some "http://db"; verify = some false; config = some retry_config }
unfolding configure_service_endpoint lookup
redirected = refl
