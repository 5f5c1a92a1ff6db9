-- ===== src/Invoker/Outcomes.antt =====
-- What `invoke_function` of services/gateway/services/lambda_invoker.py returns and raises.
use edge_serverless_box.Base.{
  ℕ, ◌+◌, ◌≤◌, ◌≡◌, refl, sym, ◌∙◌, subst, String, Bool, true, false, Option, none, some, arith,
  str_eq_refl, Result, ok, err,
}
use edge_serverless_box.Base.Dict.{lookup}
use edge_serverless_box.Worker.{WorkerInfo}
use edge_serverless_box.Registry.{FunctionConfig, FunctionRegistry, get_function_config}
use edge_serverless_box.Breaker.{CircuitBreaker, admit}
use edge_serverless_box.Http.{Response}
use edge_serverless_box.Invoker.{
  Failure, lambda_execution_error, connect_error, cancelled_error, do_post, LambdaInvoker,
  get_breaker, guarded_by, finish, Invocation, with_breaker, invoke_configured, invoke_function,
  evict_dead, handled, start_failure, is_failure,
}
use edge_serverless_box.Breaker.{opened}
use edge_serverless_box.Base.Dict.{lookup-insert}

-- The ends that a caller sees: a response that is no failure, as the HTTP client answered it, or
-- one of two exceptions.
abbrev pub Ends : Result Failure Response → Result Failure Response → Type 0
Ends reply (ok r) = (reply ≡ ok r) × (is_failure r ≡ false)
Ends reply (err lambda_execution_error) = Unit
Ends reply (err cancelled_error) = Unit
Ends reply (err e) = ⊥

handled-Ends : (reply : Result Failure Response) (e : Failure) → Ends reply (err (handled e))
handled-Ends reply lambda_execution_error = tt
handled-Ends reply _ = tt

finish-Ends :
    (v : LambdaInvoker) (w : WorkerInfo) (posted : Option (String × ℕ)) (interrupted : Bool)
    (reply outcome : Result Failure Response)
    → ((r : Response) → outcome ≡ ok r → Ends reply (ok r))
    → Ends reply (finish v w posted interrupted outcome).result
unfolding finish evict_dead
finish-Ends v w posted interrupted reply (ok r) h = h r refl
finish-Ends v w posted false reply (err connect_error) h = tt
finish-Ends v w posted true reply (err connect_error) h = tt
finish-Ends v w posted interrupted reply (err e) h = handled-Ends reply e

do_post-ok :
    (reply : Result Failure Response) (r : Response) → do_post reply ≡ ok r → Ends reply (ok r)
unfolding do_post
do_post-ok (err e) r h = cc
do_post-ok (ok x) r h = ground arith

guarded_by-ok :
    (later : ℕ) (reply outcome : Result Failure Response) (b : CircuitBreaker)
    (admitted : Option CircuitBreaker) (r : Response)
    → (guarded_by later outcome b admitted).1 ≡ ok r
    → outcome ≡ ok r
unfolding guarded_by
guarded_by-ok later reply outcome b none r h = cc
guarded_by-ok later reply outcome b (some b') r h = h

configured-Ends :
    (v : LambdaInvoker) (name : String) (known : Option FunctionConfig)
    (acquired : Result Failure WorkerInfo) (now later : ℕ) (reply : Result Failure Response)
    (interrupted : Bool)
    → Ends reply (invoke_configured v name known acquired now later reply interrupted).result
unfolding invoke_configured with_breaker
configured-Ends v name none acquired now later reply interrupted = tt
configured-Ends v name (some c) (err e) now later reply interrupted =
    handled-Ends reply (start_failure e)
configured-Ends v name (some c) (ok w) now later reply interrupted =
    finish-Ends _ w _ interrupted reply _
      λ r h. do_post-ok reply r (guarded_by-ok later reply (do_post reply) _ _ r h)

-- An invocation returns only a response that its function was sent and that counts as no failure;
-- otherwise it raises `LambdaExecutionError`, or is cancelled. No other exception leaves it: a
-- worker that cannot be started, a timeout in the queue and an open breaker all look the same.
pub invoke_function-Ends :
    (r : FunctionRegistry) (v : LambdaInvoker) (name : String)
    (acquired : Result Failure WorkerInfo) (now later : ℕ) (reply : Result Failure Response)
    (interrupted : Bool)
    → Ends reply (invoke_function r v name acquired now later reply interrupted).result
unfolding invoke_function
invoke_function-Ends r v name acquired now later reply interrupted =
    configured-Ends v name (get_function_config r name) acquired now later reply interrupted

admit_waiting :
    (now : ℕ) (b : CircuitBreaker)
    → b.state ≡ opened
    → now ≤ b.last_failure_time + b.recovery_timeout
    → admit now b ≡ none
unfolding admit
admit_waiting now b is_open waiting = ground arith

-- An invocation that a breaker has held back.
abbrev pub Held : CircuitBreaker → String → WorkerInfo → Invocation → Type 0
Held b name w i =
    (i.posted ≡ none)
    × (i.result ≡ err lambda_execution_error)
    × (i.released ≡ some w)
    × (i.evicted ≡ none)
    × (lookup name i.invoker.breakers ≡ some b)

with_breaker-Held :
    (v : LambdaInvoker) (name : String) (b : CircuitBreaker) (w : WorkerInfo) (now later : ℕ)
    (reply : Result Failure Response) (interrupted : Bool)
    → admit now b ≡ none
    → Held b name w (with_breaker v name b (ok w) now later reply interrupted)
with_breaker-Held v name b w now later reply interrupted e =
    unfold with_breaker guarded_by finish in
    rw e (refl, refl, refl, refl, lookup-insert name name b v.breakers ∙ (rw (str_eq_refl name)))

-- While the breaker of a function is open and its recovery time not over, an invocation sends
-- nothing, raises `LambdaExecutionError`, gives its worker back, and leaves the breaker as it was.
pub invoke_function-opened :
    (r : FunctionRegistry) (v : LambdaInvoker) (name : String) (c : FunctionConfig) (w : WorkerInfo)
    (now later : ℕ) (reply : Result Failure Response) (interrupted : Bool)
    → get_function_config r name ≡ some c
    → (get_breaker v name).state ≡ opened
    → now ≤ (get_breaker v name).last_failure_time + (get_breaker v name).recovery_timeout
    → Held (get_breaker v name) name w (invoke_function r v name (ok w) now later reply interrupted)
unfolding invoke_function
invoke_function-opened r v name c w now later reply interrupted known is_open waiting =
    subst
      (λ k.
        Held (get_breaker v name) name w
          (invoke_configured v name k (ok w) now later reply interrupted))
      (sym known)
      (unfold invoke_configured in
        with_breaker-Held v name (get_breaker v name) w now later reply interrupted
          (admit_waiting now (get_breaker v name) is_open waiting))
