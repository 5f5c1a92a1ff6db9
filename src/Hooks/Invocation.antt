-- ===== src/Hooks/Invocation.antt =====
-- `patched_handle_event_request` of tools/generator/runtime/site-packages/sitecustomize.py: the ids
-- and the streams under which a function's handler runs.
use edge_serverless_box.Base.{
  ℕ, suc, ◌≤◌, ◌≡◌, refl, ap, String, Option, none, some, List, [], ◌∷◌, arith, str_eq,
  if◌then◌else◌,
}
use edge_serverless_box.Base.Dict.{Dict, lookup}
use edge_serverless_box.Hooks.{Codec, Context, ClientContext, trace_of, keep_trace, hydrate}
use edge_serverless_box.Http.Value.{Json, null, boolean, number, text, array, object}

-- A stream of the process, or a `VictoriaLogsStdoutHook` before one.
pub data Stream : Type 0 where
  original : String → Stream
  hook : Stream → String → String → Stream

pub record World : Type 0 where
  pub context : Context
  pub stdout : Stream
  pub stderr : Stream

abbrev text_or : Option String → String → String
text_or none d = d
text_or (some t) d = t

-- `sys.stdout` or `sys.stderr` while the handler runs.
unfoldable pub hooked : Dict String → Stream → Stream
unfolding lookup
hooked environ stream =
    let url = text_or (lookup "VICTORIALOGS_URL" environ) "" in
    if str_eq url ""
    then stream
    else hook stream (text_or (lookup "AWS_LAMBDA_FUNCTION_NAME" environ) "lambda-unknown") url

module _ (R : Type 0) (codec : Codec) (handler : World → R × World) where
  -- What the handler finds.
  unfoldable pub prepared : ClientContext → String → World → World
  unfolding hydrate hooked
  prepared client_context invoke_id w = record {
    context = hydrate codec client_context invoke_id w.context;
    stdout = hooked w.context.environ w.stdout;
    stderr = hooked w.context.environ w.stderr;
  }

  -- The streams are restored whether the handler returns or raises: R has both.
  unfoldable pub patched_handle_event_request : ClientContext → String → World → R × World
  unfolding prepared
  patched_handle_event_request client_context invoke_id w =
      let (result, after) = handler (prepared client_context invoke_id w) in
      (result, record after { stdout = w.stdout; stderr = w.stderr })

  -- The invocations that a container serves, one after the other.
  unfoldable pub serve : List (ClientContext × String) → World → List R × World
  unfolding patched_handle_event_request
  serve [] w = ([], w)
  serve ((client_context, invoke_id) ∷ invocations) w =
      let (result, after) = patched_handle_event_request client_context invoke_id w in
      let (results, final) = serve invocations after in (result ∷ results, final)

  -- How many hooks are before a stream.
  abbrev pub hooks : Stream → ℕ
  hooks (original name) = 0
  hooks (hook stream name url) = suc (hooks stream)

  -- Each result is that of the handler, run under the invocation's own id, with one more hook than
  -- the container's streams have at most.
  abbrev pub Served : World → List (ClientContext × String) → List R → Type 0
  Served w [] [] = Unit
  Served w ((client_context, invoke_id) ∷ invocations) (result ∷ results) =
      ((found : World) × ((found.context.current_request_id ≡ some invoke_id)
          × ((hooks found.stdout ≤ suc (hooks w.stdout))
              × ((hooks found.stderr ≤ suc (hooks w.stderr)) × (result ≡ (handler found).0)))))
      × Served w invocations results
  Served w other results = ⊥

  hydrate-request :
      (v : Json) (c : Context) → (keep_trace codec v c).current_request_id ≡ c.current_request_id
  hydrate-request null c = refl
  hydrate-request (boolean b) c = refl
  hydrate-request (number n) c = refl
  hydrate-request (text t) c = ground arith
  hydrate-request (array vs) c = refl
  hydrate-request (object fs) c = refl

  hooks-hooked : (environ : Dict String) (s : Stream) → hooks (hooked environ s) ≤ suc (hooks s)
  unfolding hooked
  hooks-hooked environ s = ground arith

  serve-from :
      (w v : World) (invocations : List (ClientContext × String))
      → v.stdout ≡ w.stdout
      → v.stderr ≡ w.stderr
      → let (results, final) = serve invocations v in
        Served w invocations results × ((final.stdout ≡ w.stdout) × (final.stderr ≡ w.stderr))
  unfolding serve patched_handle_event_request prepared hydrate
  serve-from w v [] out err' = (tt, (out, err'))
  serve-from w v ((client_context, invoke_id) ∷ invocations) out err' =
      let after = (patched_handle_event_request client_context invoke_id v).1 in
      let (served, restored) = serve-from w after invocations out err' in
      (
        (
          (
            prepared client_context invoke_id v,
            (
              hydrate-request (trace_of codec client_context)
                  (record v.context { current_request_id = some invoke_id }),
              (
                omega (arith, hooks-hooked v.context.environ v.stdout, ap hooks out),
                (omega (arith, hooks-hooked v.context.environ v.stderr, ap hooks err'), refl),
              ),
            ),
          ),
          served,
        ),
        restored,
      )

  -- A container that serves invocations runs the handler of each under the invocation's own request
  -- id, whatever the handlers before it have done, and with its output forwarded at most once; when
  -- all are done, its streams are as they were.
  pub serve-Served :
      (w : World) (invocations : List (ClientContext × String))
      → let (results, final) = serve invocations w in
        Served w invocations results × ((final.stdout ≡ w.stdout) × (final.stderr ≡ w.stderr))
  serve-Served w invocations = serve-from w w invocations refl refl
