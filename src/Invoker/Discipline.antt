-- ===== src/Invoker/Discipline.antt =====
-- What `invoke_function` of services/gateway/services/lambda_invoker.py does with its worker.
use edge_serverless_box.Base.{
  ℕ, ◌≡◌, ◌≢◌, ◌⊎◌, Bool, true, false, inl, inr, refl, sym, subst, String, Option, none, some,
  Result, ok, err,
}
use edge_serverless_box.Worker.{WorkerInfo}
use edge_serverless_box.Registry.{FunctionConfig, FunctionRegistry, get_function_config}
use edge_serverless_box.Breaker.{CircuitBreaker, admit}
use edge_serverless_box.Http.{Response}
use edge_serverless_box.Invoker.{
  Failure, lambda_execution_error, connect_error, cancelled_error, evict_dead, do_post,
  LambdaInvoker, get_breaker, guarded_by, finish, Invocation, with_breaker, invoke_configured,
  invoke_function, request_to,
}

-- What becomes of the worker that an invocation holds.
abbrev pub Settled : Bool → Result Failure WorkerInfo → Invocation → Type 0
Settled interrupted (err e) i = (i.released ≡ none) × (i.evicted ≡ none) × (i.posted ≡ none)
Settled interrupted (ok w) i =
    (i.released ≡ some w) × (i.evicted ≡ none)
    ⊎ (interrupted ≡ false)
      × (i.released ≡ none)
      × (i.evicted ≡ some w)
      × (i.posted ≢ none)
      × (i.result ≡ err lambda_execution_error)
    ⊎ (interrupted ≡ true)
      × (i.released ≡ some w)
      × (i.evicted ≡ some w)
      × (i.posted ≢ none)
      × (i.result ≡ err cancelled_error)

finish-Settled :
    (u v : LambdaInvoker) (w : WorkerInfo) (b : CircuitBreaker) (admitted : Option CircuitBreaker)
    (later : ℕ) (interrupted : Bool) (outcome : Result Failure Response)
    → Settled interrupted
        (ok w)
        (finish v w (request_to u w admitted) interrupted (guarded_by later outcome b admitted).1)
unfolding finish evict_dead guarded_by
finish-Settled u v w b none later interrupted outcome = inl (refl, refl)
finish-Settled u v w b (some b') later interrupted (ok r) = inl (refl, refl)
finish-Settled u v w b (some b') later false (err connect_error) =
    inr (inl (refl, refl, refl, λ e. cc, refl))
finish-Settled u v w b (some b') later true (err connect_error) =
    inr (inr (refl, refl, refl, λ e. cc, refl))
finish-Settled u v w b (some b') later interrupted (err e) = inl (refl, refl)

pub with_breaker-Settled :
    (v : LambdaInvoker) (name : String) (b : CircuitBreaker) (acquired : Result Failure WorkerInfo)
    (now later : ℕ) (reply : Result Failure Response) (interrupted : Bool)
    → Settled interrupted acquired (with_breaker v name b acquired now later reply interrupted)
unfolding with_breaker
with_breaker-Settled v name b (err e) now later reply interrupted = (refl, refl, refl)
with_breaker-Settled v name b (ok w) now later reply interrupted =
    finish-Settled v _ w b (admit now b) later interrupted (do_post reply)

-- Of a function that the registry knows: if a worker was acquired, it is either given back to the
-- backend or evicted, never neither; evicted only after a request was sent to it, with
-- `LambdaExecutionError` raised; and never both, unless the task is cancelled in the midst of the
-- eviction. If none was acquired, nothing is sent, given back or evicted.
pub invoke_function-Settled :
    (r : FunctionRegistry) (v : LambdaInvoker) (name : String) (c : FunctionConfig)
    (acquired : Result Failure WorkerInfo) (now later : ℕ) (reply : Result Failure Response)
    (interrupted : Bool)
    → get_function_config r name ≡ some c
    → Settled interrupted acquired (invoke_function r v name acquired now later reply interrupted)
unfolding invoke_function
invoke_function-Settled r v name c acquired now later reply interrupted known =
    subst
      (λ k.
        Settled interrupted acquired
          (invoke_configured v name k acquired now later reply interrupted))
      (sym known)
      (unfold invoke_configured in
        with_breaker-Settled v name (get_breaker v name) acquired now later reply interrupted)
