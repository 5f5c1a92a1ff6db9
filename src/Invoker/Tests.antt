-- ===== src/Invoker/Tests.antt =====
-- Runs of `invoke_function` of services/gateway/services/lambda_invoker.py.
use edge_serverless_box.Base.{true, false, ◌≡◌, refl, none, some, [], ◌∷◌, ok, err}
use edge_serverless_box.Base.Dict.{lookup, update}
use edge_serverless_box.Worker.{WorkerInfo}
use edge_serverless_box.Registry.{
  FunctionConfig, FunctionRegistry, empty_config, get_function_config, merge_environment,
}
use edge_serverless_box.Breaker.{CircuitBreaker, opened, admit}
use edge_serverless_box.Http.{Response, value}
use edge_serverless_box.Http.Value.{object, field, end, text, has_key}
use edge_serverless_box.Invoker.{
  connect_error, do_post, LambdaInvoker, get_breaker, guarded_by, finish, evict_dead, with_breaker,
  invoke_configured, invoke_function, is_failure,
}
use edge_serverless_box.Invoker.Discipline.{Settled, invoke_function-Settled}
use edge_serverless_box.Invoker.Outcomes.{Ends, invoke_function-Ends}

abbrev registry : FunctionRegistry
registry = record { registry = ("echo", none) ∷ []; default_environment = none }

abbrev echo_config : FunctionConfig
echo_config = record empty_config { environment = some [] }

abbrev worker : WorkerInfo
worker = record {
  id = "a";
  name = "lambda-echo-1";
  ip_address = "10.0.0.2";
  port = 0;
  created_at = 0;
  last_used_at = 0;
}

abbrev tripped : CircuitBreaker
tripped = record {
  failure_threshold = 2;
  recovery_timeout = 30;
  failures = 2;
  last_failure_time = 100;
  state = opened;
}

abbrev invoker : LambdaInvoker
invoker = record {
  lambda_port = 8080;
  breaker_threshold = 2;
  breaker_recovery_timeout = 30;
  breakers = ("down", tripped) ∷ ("echo", tripped) ∷ [];
}

known : get_function_config registry "echo" ≡ some echo_config
unfolding get_function_config merge_environment lookup update
known = refl

-- A response with status 200 whose body is an error object counts as a failure.
abbrev logical_error : Response
logical_error = record {
  status_code = 200;
  headers = [];
  content = 123 ∷ 125 ∷ [];
  json = value (object (field "errorType" (text "KeyError") end));
}

logical_error_fails : is_failure logical_error ≡ true
unfolding is_failure lookup has_key
logical_error_fails = refl

-- After the recovery time the request goes out, to the default port.
sent_after_recovery :
    (invoke_function registry invoker "echo" (ok worker) 131 132 (err connect_error) false).posted
    ≡ some ("10.0.0.2", 8080)
unfolding invoke_function invoke_configured with_breaker get_breaker guarded_by finish do_post admit
    lookup get_function_config merge_environment
sent_after_recovery = refl

-- A task that is cancelled while it evicts the worker gives the same worker back.
evicted_and_released :
    let i = invoke_function registry invoker "echo" (ok worker) 131 132 (err connect_error) true in
    (i.released ≡ some worker) × (i.evicted ≡ some worker)
unfolding invoke_function invoke_configured with_breaker get_breaker guarded_by finish evict_dead
    do_post admit lookup get_function_config merge_environment
evicted_and_released = (refl, refl)

invoke_function-Settled_example :
    Settled false
      (ok worker)
      (invoke_function registry invoker "echo" (ok worker) 131 132 (err connect_error) false)
invoke_function-Settled_example =
    invoke_function-Settled registry invoker "echo" echo_config (ok worker) 131 132
      (err connect_error) false known

invoke_function-Ends_example :
    Ends
      (ok logical_error)
      (invoke_function registry invoker "echo" (ok worker) 131 132 (ok logical_error) false).result
invoke_function-Ends_example =
    invoke_function-Ends registry invoker "echo" (ok worker) 131 132 (ok logical_error) false
