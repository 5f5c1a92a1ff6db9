-- ===== src/Backend.antt =====
-- services/gateway/services/grpc_backend.py: the backend that asks the agent for a worker with each
-- invocation, under the function's throttle. The agent's stub and the network are parameters.
pub mod Slots
mod Tests
use edge_serverless_box.Base.{
  ℕ, zero, suc, ◌+◌, ◌-◌, ◌*◌, ◌≤◌, ◌<◌, ◌≡◌, ◌≢◌, ◌⊎◌, inl, inr, ◌↔◌, refl, sym, ap, ◌∙◌, subst,
  String, Bool, true, false, not, ◌&&◌, ◌||◌, Option, none, some, List, [], ◌∷◌, ◌++◌, map, arith,
  eq_iff, length, length-append, keep_if, any_of, str_eq, str_eq_refl, ltb, leb, ◌==◌,
  if◌then◌else◌, Bool-cases, Option-cases, Result, ok, err,
}
use edge_serverless_box.Base.Dict.{Dict}
use edge_serverless_box.Worker.{WorkerInfo}
use edge_serverless_box.Registry.{FunctionConfig, FunctionRegistry, get_function_config, or_empty}
use edge_serverless_box.Throttle.{FunctionThrottle, Entry, entered, queued, enter}
use edge_serverless_box.Throttle
use edge_serverless_box.Provision.{EnsureRequest, EnsureReply, Network, text_or}
use edge_serverless_box.Readiness.{wait_for_readiness}

-- What the backend's calls raise. `cancelled_error` is no `Exception` in Python.
pub data BackendError : Type 0 where
  orchestrator_unreachable_error : BackendError
  orchestrator_timeout_error : BackendError
  container_start_error : BackendError
  rpc_error : BackendError
  cancelled_error : BackendError

-- The status codes that are told apart.
pub data StatusCode : Type 0 where
  unavailable deadline_exceeded resource_exhausted other_code : StatusCode

unfoldable pub handle_grpc_error : StatusCode → BackendError
handle_grpc_error unavailable = orchestrator_unreachable_error
handle_grpc_error deadline_exceeded = orchestrator_timeout_error
handle_grpc_error resource_exhausted = container_start_error
handle_grpc_error other_code = rpc_error

-- How a call of the stub ends.
pub data Answer {ℓ} (A : Type ℓ) : Type ℓ where
  replied : A → Answer A
  failed : StatusCode → Answer A
  cancelled : Answer A

-- The environment and the image that are asked for, if there is a registry and it has the function.
abbrev config_of : Option FunctionRegistry → String → Option FunctionConfig
config_of none name = none
config_of (some r) name = get_function_config r name

abbrev request_with : String → Option FunctionConfig → EnsureRequest
request_with name none = record { function_name = name; image = ""; env = [] }
request_with name (some c) = record {
  function_name = name;
  image = text_or c.image "";
  env = or_empty c.environment;
}

unfoldable pub ensure_request : Option FunctionRegistry → String → EnsureRequest
ensure_request r name = request_with name (config_of r name)

abbrev worker_of : EnsureReply → WorkerInfo
worker_of e = record {
  id = e.id;
  name = e.name;
  ip_address = e.ip_address;
  port = e.port;
  created_at = 0;
  last_used_at = 0;
}

abbrev ensured : Answer EnsureReply → Result BackendError WorkerInfo
ensured (replied e) = ok (worker_of e)
ensured (failed code) = err (handle_grpc_error code)
ensured cancelled = err cancelled_error

-- `_ensure_container`
unfoldable pub ensure_container :
    Option FunctionRegistry
    → (EnsureRequest → Answer EnsureReply)
    → String
    → Result BackendError WorkerInfo
unfolding ensure_request handle_grpc_error
ensure_container r stub name = ensured (stub (ensure_request r name))

abbrev if_ready : WorkerInfo → Option Bool → Option (Result BackendError WorkerInfo)
if_ready w none = none
if_ready w (some true) = some (ok w)
if_ready w (some false) = some (err container_start_error)

-- The body of the `try` in `acquire_worker`: the wait is for port 8080 if the agent gives none.
-- `none` means that the wait ran out of fuel.
unfoldable pub ready_worker :
    ℕ → Network → Result BackendError WorkerInfo → Option (Result BackendError WorkerInfo)
ready_worker timeout net (err e) = some (err e)
ready_worker timeout net (ok w) = if_ready w (
    wait_for_readiness timeout net.clock
      (net.connects w.ip_address (if w.port == 0 then 8080 else w.port)))

-- The slot after the body of `acquire_worker`: the `except Exception` clause gives it back, but
-- does not run if the task is cancelled.
unfoldable pub settle_slot : Result BackendError WorkerInfo → FunctionThrottle → FunctionThrottle
settle_slot (ok w) t = t
settle_slot (err cancelled_error) t = t
settle_slot (err e) t = (Throttle.release t).0

-- `release_worker`, under a throttle
unfoldable pub release_worker : FunctionThrottle → FunctionThrottle
release_worker t = (Throttle.release t).0

-- `evict_worker`: the agent is asked to destroy the container; an error is logged. The throttle is
-- not touched.
unfoldable pub evict_worker : WorkerInfo → FunctionThrottle → FunctionThrottle × String
evict_worker w t = (t, w.id)

-- `WorkerState` of services/gateway/services/lambda_invoker.py
pub data Status : Type 0 where
  running paused stopped unknown : Status

pub record WorkerState : Type 0 where
  pub container_id : String
  pub function_name : String
  pub status : Status
  pub last_used_at : ℕ

-- `list_workers`: an error of the stub gives the empty list.
unfoldable pub list_workers : Answer (List WorkerState) → Result BackendError (List WorkerState)
list_workers (replied ws) = ok ws
list_workers (failed code) = ok []
list_workers cancelled = err cancelled_error
