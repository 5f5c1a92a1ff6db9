-- ===== src/Api.antt =====
-- services/gateway/main.py: the two endpoints that invoke a function. FastAPI is a library: a
-- handler is given the request's parts, and returns the reply or the exception that it raises.
pub mod Errors
mod Tests
use edge_serverless_box.Base.{
  ℕ, zero, suc, ◌+◌, ◌-◌, ◌*◌, ◌≤◌, ◌<◌, ◌≡◌, ◌⊎◌, ◌↔◌, sym, ap, ◌∙◌, subst, String, Bool, true,
  false, not, ◌&&◌, ◌||◌, Option, none, some, List, [], ◌∷◌, ◌++◌, map, arith, eq_iff, length,
  length-append, keep_if, any_of, str_eq, str_eq_refl, ltb, leb, ◌==◌, if◌then◌else◌, Result, ok,
  err,
}
use edge_serverless_box.Base.Dict.{Dict, lookup, insert}
use edge_serverless_box.Worker.{WorkerInfo}
use edge_serverless_box.Registry.{FunctionConfig, FunctionRegistry, get_function_config}
use edge_serverless_box.Breaker.{CircuitBreaker, init, admit, succeed, fail}
use edge_serverless_box.Http.{Response}
use edge_serverless_box.Invoker.{
  Failure, container_start_error, lambda_execution_error, circuit_breaker_open_error, connect_error,
  request_error, http_status_error, other_error, cancelled_error, do_post, LambdaInvoker,
  get_breaker, guarded_by, finish, Invocation, with_breaker, invoke_configured, invoke_function,
  handled, start_failure, is_failure,
}
use edge_serverless_box.Http.{not_text, Parsed, parse_lambda_response}
use edge_serverless_box.Http.Value.{Json}

pub data Reply : Type 0 where
  -- `JSONResponse(status_code=…, content={"message": …})`
  message : ℕ → Reply
  -- `Response(status_code=202)`
  accepted : Reply
  -- the function's response, passed through
  passed : Response → Reply
  -- the function's response, transformed by `parse_lambda_response`
  transformed : Parsed → Reply

-- What a handler does: its reply, and the invocation that it makes, now or as a background task.
pub record Handled : Type 0 where
  pub reply : Result Failure Reply
  pub invoked : Bool
  pub background : Bool

-- The `except` clauses of `invoke_lambda_api`.
unfoldable pub api_failure : Failure → Result Failure Reply
api_failure container_start_error = ok (message 503)
api_failure lambda_execution_error = ok (message 502)
api_failure e = err e

-- The `except` clauses of `gateway_handler`; a connection error is a request error.
unfoldable pub gateway_failure : Failure → Result Failure Reply
gateway_failure request_error = ok (message 502)
gateway_failure connect_error = ok (message 502)
gateway_failure container_start_error = ok (message 503)
gateway_failure lambda_execution_error = ok (message 502)
gateway_failure e = err e

unfoldable pub api_reply : Result Failure Response → Result Failure Reply
api_reply (ok r) = ok (passed r)
api_reply (err e) = api_failure e

-- The gateway's use of `parse_lambda_response`, whose `UnicodeDecodeError` no clause catches.
unfoldable pub reply_of : Option Parsed → Result Failure Reply
reply_of (some p) = ok (transformed p)
reply_of none = err other_error

unfoldable pub gateway_reply :
    (String → Option Json) → Result Failure Response → Result Failure Reply
gateway_reply loads (ok r) = reply_of (parse_lambda_response loads r)
gateway_reply loads (err e) = gateway_failure e

abbrev when_known : Option FunctionConfig → Handled → Handled
when_known none h = record { reply = ok (message 404); invoked = false; background = false }
when_known (some c) h = h

-- `invocation_type == "Event"`, with the header's default
abbrev is_event : Option String → Bool
is_event none = false
is_event (some t) = str_eq t "Event"

-- `invoke_lambda_api`; `invocation_type` is the header `X-Amz-Invocation-Type`.
unfoldable pub invoke_lambda_api :
    FunctionRegistry
    → LambdaInvoker
    → String
    → Option String
    → Result Failure WorkerInfo
    → ℕ
    → ℕ
    → Result Failure Response
    → Bool
    → Handled
invoke_lambda_api r v name invocation_type acquired now later reply interrupted =
    when_known (get_function_config r name) (
      if is_event invocation_type
      then record { reply = ok accepted; invoked = true; background = true }
      else record {
        reply = api_reply (invoke_function r v name acquired now later reply interrupted).result;
        invoked = true;
        background = false;
      })

-- `gateway_handler`, of an authenticated request that was routed to this function.
unfoldable pub gateway_handler :
    (String → Option Json)
    → FunctionRegistry
    → LambdaInvoker
    → String
    → Result Failure WorkerInfo
    → ℕ
    → ℕ
    → Result Failure Response
    → Bool
    → Result Failure Reply
gateway_handler loads r v name acquired now later reply interrupted =
    gateway_reply loads (invoke_function r v name acquired now later reply interrupted).result

-- What the Lambda API answers to an invocation that ends with the second result, if its request
-- would be answered by the first: a response of the function that counts as no failure as it is,
-- 502 to `LambdaExecutionError`, and nothing if the task is cancelled.
abbrev pub Passes :
    Result Failure Response → Result Failure Response → Result Failure Reply → Type 0
Passes reply (ok r) answer = (answer ≡ ok (passed r)) × (reply ≡ ok r) × (is_failure r ≡ false)
Passes reply (err lambda_execution_error) answer = answer ≡ ok (message 502)
Passes reply (err cancelled_error) answer = answer ≡ err cancelled_error
Passes reply (err e) answer = ⊥

-- What the gateway makes of a response: it is transformed, or its bytes are no text and the
-- exception leaves the handler.
abbrev pub Transformed : (String → Option Json) → Response → Result Failure Reply → Type 0
Transformed loads r answer =
    ((p : Parsed) × (parse_lambda_response loads r ≡ some p) × (answer ≡ ok (transformed p)))
    ⊎ (r.json ≡ not_text) × (answer ≡ err other_error)

-- What the gateway answers, in the same cases.
abbrev pub Transforms :
    (String → Option Json)
    → Result Failure Response
    → Result Failure Response
    → Result Failure Reply
    → Type 0
Transforms loads reply (ok r) answer =
    Transformed loads r answer × (reply ≡ ok r) × (is_failure r ≡ false)
Transforms loads reply (err lambda_execution_error) answer = answer ≡ ok (message 502)
Transforms loads reply (err cancelled_error) answer = answer ≡ err cancelled_error
Transforms loads reply (err e) answer = ⊥
