-- ===== src/Invoker.antt =====
-- services/gateway/services/lambda_invoker.py: one invocation of a function. The backend, which
-- hands out workers, and the HTTP client are parameters of a run: what they answer is an argument.
-- The backend's `release_worker` and `evict_worker` are its calls on the worker that it handed out;
-- that the task is cancelled while `evict_worker` runs is an argument too. The breaker's two sections
-- stand next to each other.
pub mod Discipline
pub mod Outcomes
mod Tests
use edge_serverless_box.Base.{
  ℕ, zero, suc, ◌+◌, ◌-◌, ◌*◌, ◌≤◌, ◌<◌, ◌≡◌, ◌≢◌, ◌⊎◌, inl, inr, ◌↔◌, refl, sym, ap, ◌∙◌, subst,
  String, Bool, true, false, not, ◌&&◌, ◌||◌, Option, none, some, List, [], ◌∷◌, ◌++◌, map, arith,
  eq_iff, length, length-append, keep_if, any_of, str_eq, str_eq_refl, ltb, leb, ◌==◌,
  if◌then◌else◌, Bool-cases, Option-cases, Result, ok, err,
}
use edge_serverless_box.Base.Dict.{Dict, lookup, insert}
use edge_serverless_box.Worker.{WorkerInfo}
use edge_serverless_box.Registry.{FunctionConfig, FunctionRegistry, get_function_config}
use edge_serverless_box.Breaker.{CircuitBreaker, init, admit, succeed, fail}
use edge_serverless_box.Http.Value.{Json, null, boolean, number, text, array, object, has_key}
use edge_serverless_box.Http.{Response, Decoded, value, not_json, not_text}

-- The exceptions that an invocation can meet.
pub data Failure : Type 0 where
  container_start_error : Failure
  lambda_execution_error : Failure
  circuit_breaker_open_error : Failure
  connect_error : Failure
  request_error : Failure
  http_status_error : Failure
  -- any other `Exception`
  other_error : Failure
  -- `asyncio.CancelledError`, which is no `Exception`
  cancelled_error : Failure

abbrev is_error_object : Json → Bool
is_error_object (object fs) = has_key "errorType" fs || has_key "errorMessage" fs
is_error_object null = false
is_error_object (boolean b) = false
is_error_object (number n) = false
is_error_object (text s) = false
is_error_object (array xs) = false

abbrev holds_error : Decoded → Bool
holds_error (value j) = is_error_object j
holds_error not_json = false
holds_error not_text = false

-- `response.headers.get("X-Amz-Function-Error")` as a test: a text that is not empty
abbrev truthy : Option String → Bool
truthy none = false
truthy (some s) = not (str_eq s "")

-- Whether a response counts as a failure.
unfoldable pub is_failure : Response → Bool
is_failure r =
    leb 500 r.status_code
    || truthy (lookup "x-amz-function-error" r.headers)
    || (r.status_code == 200 && ltb (length r.content) (1024 * 10) && holds_error r.json)

-- `do_post`: what the HTTP client answers or raises, judged. A failure is raised as
-- `httpx.HTTPStatusError`, by `raise_for_status` or by the code itself.
unfoldable pub do_post : Result Failure Response → Result Failure Response
do_post (err e) = err e
do_post (ok r) = if is_failure r then err http_status_error else ok r

pub record LambdaInvoker : Type 0 where
  pub lambda_port : ℕ
  pub breaker_threshold : ℕ
  pub breaker_recovery_timeout : ℕ
  pub breakers : Dict CircuitBreaker

-- `_get_breaker`, over what the table has under the name
unfoldable pub found_or_new : LambdaInvoker → Option CircuitBreaker → CircuitBreaker
found_or_new v (some b) = b
found_or_new v none = init v.breaker_threshold v.breaker_recovery_timeout

unfoldable pub get_breaker : LambdaInvoker → String → CircuitBreaker
unfolding found_or_new
get_breaker v name = found_or_new v (lookup name v.breakers)

-- The breaker's second section. A cancellation is no `Exception`, and leaves no mark.
unfoldable pub settle_after : ℕ → Result Failure Response → CircuitBreaker → CircuitBreaker
settle_after later (ok r) b = succeed b
settle_after later (err cancelled_error) b = b
settle_after later (err e) b = fail later b

-- `breaker.call(do_post)`, over what the breaker's first section says
unfoldable pub guarded_by :
    ℕ
    → Result Failure Response
    → CircuitBreaker
    → Option CircuitBreaker
    → CircuitBreaker × Result Failure Response
unfolding settle_after
guarded_by later outcome b none = (b, err circuit_breaker_open_error)
guarded_by later outcome b (some b') = (settle_after later outcome b', outcome)

-- The inner `except Exception` around the acquisition.
abbrev pub start_failure : Failure → Failure
start_failure cancelled_error = cancelled_error
start_failure e = container_start_error

-- The `except` clauses of `invoke_function`, in their order.
abbrev pub handled : Failure → Failure
handled circuit_breaker_open_error = lambda_execution_error
handled connect_error = lambda_execution_error
handled request_error = lambda_execution_error
handled http_status_error = lambda_execution_error
handled cancelled_error = cancelled_error
handled e = lambda_execution_error

-- How an invocation ends, and what it did on the way: the host and the port of the request that was
-- sent, the worker that was given back to the backend, and the one whose eviction was begun.
pub record Invocation : Type 0 where
  pub invoker : LambdaInvoker
  pub result : Result Failure Response
  pub posted : Option (String × ℕ)
  pub released : Option WorkerInfo
  pub evicted : Option WorkerInfo

-- `worker.port or self.config.LAMBDA_PORT`
abbrev pub port_of : LambdaInvoker → WorkerInfo → ℕ
port_of v w = if w.port == 0 then v.lambda_port else w.port

-- The request was sent exactly if the breaker let the call through.
abbrev request_to : LambdaInvoker → WorkerInfo → Option CircuitBreaker → Option (String × ℕ)
request_to v w none = none
request_to v w (some b) = some (w.ip_address, port_of v w)

-- The handler of a connection error, with the `finally` clause. If the task is cancelled while
-- `evict_worker` runs, `worker = None` is not reached, and the worker is released as well.
unfoldable pub evict_dead : LambdaInvoker → WorkerInfo → Option (String × ℕ) → Bool → Invocation
evict_dead v w posted false = record {
  invoker = v;
  result = err (handled connect_error);
  posted = posted;
  released = none;
  evicted = some w;
}
evict_dead v w posted true = record {
  invoker = v;
  result = err cancelled_error;
  posted = posted;
  released = some w;
  evicted = some w;
}

-- The handlers and the `finally` clause, with a worker at hand: a connection error evicts it, and
-- every other end releases it.
unfoldable pub finish :
    LambdaInvoker → WorkerInfo → Option (String × ℕ) → Bool → Result Failure Response → Invocation
unfolding evict_dead
finish v w posted interrupted (ok r) = record {
  invoker = v;
  result = ok r;
  posted = posted;
  released = some w;
  evicted = none;
}
finish v w posted interrupted (err connect_error) = evict_dead v w posted interrupted
finish v w posted interrupted (err e) = record {
  invoker = v;
  result = err (handled e);
  posted = posted;
  released = some w;
  evicted = none;
}

abbrev no_worker : LambdaInvoker → Failure → Invocation
no_worker v e = record {
  invoker = v;
  result = err e;
  posted = none;
  released = none;
  evicted = none;
}

-- The invocation from the acquisition on. `reply` is what the HTTP client answers if it is asked;
-- `interrupted` says whether the task is cancelled while `evict_worker` runs, which raises nothing
-- of its own in either backend.
unfoldable pub with_breaker :
    LambdaInvoker
    → String
    → CircuitBreaker
    → Result Failure WorkerInfo
    → ℕ
    → ℕ
    → Result Failure Response
    → Bool
    → Invocation
with_breaker v name b (err e) now later reply interrupted =
    no_worker (record v { breakers = insert name b v.breakers }) (handled (start_failure e))
with_breaker v name b (ok w) now later reply interrupted =
    let (b', outcome) = guarded_by later (do_post reply) b (admit now b) in
    finish (record v { breakers = insert name b' v.breakers }) w (request_to v w (admit now b))
      interrupted outcome

-- `invoke_function`, over the function's configuration
unfoldable pub invoke_configured :
    LambdaInvoker
    → String
    → Option FunctionConfig
    → Result Failure WorkerInfo
    → ℕ
    → ℕ
    → Result Failure Response
    → Bool
    → Invocation
invoke_configured v name none acquired now later reply interrupted =
    no_worker v lambda_execution_error
invoke_configured v name (some c) acquired now later reply interrupted =
    with_breaker v name (get_breaker v name) acquired now later reply interrupted

unfoldable pub invoke_function :
    FunctionRegistry
    → LambdaInvoker
    → String
    → Result Failure WorkerInfo
    → ℕ
    → ℕ
    → Result Failure Response
    → Bool
    → Invocation
invoke_function r v name acquired now later reply interrupted =
    invoke_configured v name (get_function_config r name) acquired now later reply interrupted
