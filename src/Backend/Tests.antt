-- ===== src/Backend/Tests.antt =====
-- Runs of services/gateway/services/grpc_backend.py.
use edge_serverless_box.Base.{false, ◌+◌, ◌≡◌, refl, none, [], arith, ok, err}
use edge_serverless_box.Worker.{WorkerInfo}
use edge_serverless_box.Registry.{empty_config}
use edge_serverless_box.Throttle.{FunctionThrottle, enter}
use edge_serverless_box.Breaker
use edge_serverless_box.Base.Dict.{lookup}
use edge_serverless_box.Invoker.{
  LambdaInvoker, invoke_configured, connect_error, get_breaker, with_breaker, guarded_by, do_post,
  finish, evict_dead,
}
use edge_serverless_box.Backend.{
  deadline_exceeded, orchestrator_timeout_error, failed, ensure_container, handle_grpc_error,
  evict_worker, settle_slot,
}
use edge_serverless_box.Backend.Slots.{session, leaks, invocation, session-current}

abbrev worker : WorkerInfo
worker = record {
  id = "a";
  name = "lambda-echo-1";
  ip_address = "10.0.0.2";
  port = 8080;
  created_at = 0;
  last_used_at = 0;
}

abbrev invoker : LambdaInvoker
invoker = record {
  lambda_port = 8080;
  breaker_threshold = 5;
  breaker_recovery_timeout = 30;
  breakers = [];
}

abbrev one_slot : FunctionThrottle
one_slot = record { limit = 1; default_timeout = 10; current = 0; waiters = [] }

agent_times_out :
    ensure_container none (λ request. failed deadline_exceeded) "echo"
    ≡ err orchestrator_timeout_error
unfolding ensure_container handle_grpc_error
agent_times_out = refl

-- The connection to the worker fails: it is evicted, and the only slot is lost.
slot_lost :
    (session 1 invoker "echo" empty_config
      (ok worker)
      0
      1
      (err connect_error)
      false
      one_slot).current
    ≡ 1
unfolding session enter invoke_configured with_breaker get_breaker guarded_by do_post finish
    evict_dead evict_worker settle_slot Breaker.admit lookup Breaker.init
slot_lost = refl

session-current_example :
    (session 1 invoker "echo" empty_config
      (ok worker)
      0
      1
      (err connect_error)
      false
      one_slot).current
    ≡ one_slot.current
      + leaks
          (ok worker)
          (invocation invoker "echo" empty_config (ok worker) 0 1 (err connect_error) false).evicted
          false
session-current_example =
    session-current 1 invoker "echo" empty_config (ok worker) 0 1 (err connect_error) false one_slot
      refl (omega arith)
