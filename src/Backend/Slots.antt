-- ===== src/Backend/Slots.antt =====
-- The slot of an invocation: services/gateway/services/lambda_invoker.py running over the backend of
-- services/gateway/services/grpc_backend.py.
use edge_serverless_box.Base.{
  ℕ, Bool, true, false, ◌+◌, ◌<◌, ◌≡◌, inl, inr, refl, ◌∙◌, String, Option, none, some, List, [],
  ◌∷◌, arith, Result, ok, err,
}
use edge_serverless_box.Worker.{WorkerInfo}
use edge_serverless_box.Throttle.{
  FunctionThrottle, Waiter, Entry, entered, queued, enter, release_to,
}
use edge_serverless_box.Throttle
use edge_serverless_box.Registry.{FunctionConfig}
use edge_serverless_box.Http.{Response}
use edge_serverless_box.Invoker
use edge_serverless_box.Invoker.{Failure, LambdaInvoker, Invocation, invoke_configured}
use edge_serverless_box.Invoker.Discipline.{Settled, with_breaker-Settled}
use edge_serverless_box.Backend.{
  BackendError, cancelled_error, settle_slot, release_worker, evict_worker,
}

-- What the invoker sees of the backend's outcome.
abbrev pub seen : Result BackendError WorkerInfo → Result Failure WorkerInfo
seen (ok w) = ok w
seen (err cancelled_error) = err Invoker.cancelled_error
seen (err e) = err Invoker.other_error

-- The calls of the backend with which an invocation ends.
abbrev give_back : Option WorkerInfo → FunctionThrottle → FunctionThrottle
give_back none t = t
give_back (some w) t = release_worker t

abbrev evict : Option WorkerInfo → FunctionThrottle → FunctionThrottle
evict none t = t
evict (some w) t = (evict_worker w t).0

abbrev pub settled : Invocation → FunctionThrottle → FunctionThrottle
settled i t = give_back i.released (evict i.evicted t)

abbrev pub invocation :
    LambdaInvoker
    → String
    → FunctionConfig
    → Result BackendError WorkerInfo
    → ℕ
    → ℕ
    → Result Failure Response
    → Bool
    → Invocation
invocation v name c acquired now later reply interrupted =
    invoke_configured v name (some c) (seen acquired) now later reply interrupted

-- A whole invocation on a throttle with a free slot and no waiter, with no other task meanwhile.
unfoldable pub session :
    ℕ
    → LambdaInvoker
    → String
    → FunctionConfig
    → Result BackendError WorkerInfo
    → ℕ
    → ℕ
    → Result Failure Response
    → Bool
    → FunctionThrottle
    → FunctionThrottle
session task v name c acquired now later reply interrupted t =
    settled (invocation v name c acquired now later reply interrupted)
      (settle_slot acquired (enter task t).0)

-- Whether the slot is never given back: the task was cancelled in `acquire_worker`, or its worker
-- was evicted. A cancellation in the midst of the eviction gives it back.
abbrev pub leaks : Result BackendError WorkerInfo → Option WorkerInfo → Bool → ℕ
leaks (err cancelled_error) evicted interrupted = 1
leaks acquired none interrupted = 0
leaks acquired (some w) false = 1
leaks acquired (some w) true = 0

entering : FunctionThrottle → FunctionThrottle
entering t = record t { current = t.current + 1 }

enter-free : (task : ℕ) (t : FunctionThrottle) → t.current < t.limit → (enter task t).0 ≡ entering t
unfolding enter entering
enter-free task t free = ground arith

release_to-nil :
    (t : FunctionThrottle) (ws : List Waiter)
    → ws ≡ []
    → (release_to (entering t) ws).0.current ≡ t.current
unfolding release_to entering
release_to-nil t [] e = ground arith
release_to-nil t (w ∷ ws) e = cc

release-entering :
    (t : FunctionThrottle) → t.waiters ≡ [] → (Throttle.release (entering t)).0.current ≡ t.current
unfolding Throttle.release entering
release-entering t empty = release_to-nil t t.waiters empty

settled-Settled :
    (w : WorkerInfo) (i : Invocation) (interrupted : Bool) (t : FunctionThrottle)
    → t.waiters ≡ []
    → Settled interrupted (ok w) i
    → (settled i (entering t)).current ≡ t.current + leaks (ok w) i.evicted interrupted
unfolding release_worker evict_worker
settled-Settled w i interrupted t empty (inl (released, kept)) =
    rw released (rw kept (release-entering t empty ∙ omega arith))
settled-Settled w i false t empty (inr (inl (_, kept, evicted, _, _))) =
    rw kept (rw evicted (unfold entering in refl))
settled-Settled w i true t empty (inr (inl (cut, _, _, _, _))) = cc
settled-Settled w i false t empty (inr (inr (cut, _, _, _, _))) = cc
settled-Settled w i true t empty (inr (inr (_, released, begun, _, _))) =
    rw released (rw begun (release-entering t empty ∙ omega arith))

-- An invocation that finds a free slot and no waiter, with no other task meanwhile, leaves the
-- throttle's count as it was, unless the task is cancelled while the agent starts its container or
-- its worker is evicted, with no cancellation meanwhile: then the count stays one higher.
pub session-current :
    (task : ℕ) (v : LambdaInvoker) (name : String) (c : FunctionConfig)
    (acquired : Result BackendError WorkerInfo) (now later : ℕ) (reply : Result Failure Response)
    (interrupted : Bool) (t : FunctionThrottle)
    → t.waiters ≡ []
    → t.current < t.limit
    → (session task v name c acquired now later reply interrupted t).current
      ≡ t.current
        + leaks acquired
            (invocation v name c acquired now later reply interrupted).evicted
            interrupted
unfolding session settle_slot invoke_configured
session-current task v name c (ok w) now later reply interrupted t empty free =
    rw (enter-free task t free) (
      settled-Settled w (invocation v name c (ok w) now later reply interrupted) interrupted t empty
        (with_breaker-Settled v name _ (ok w) now later reply interrupted))
session-current task v name c (err cancelled_error) now later reply interrupted t empty free =
    rw (enter-free task t free) (unfold entering Invoker.with_breaker in refl)
session-current task v name c (err e) now later reply interrupted t empty free =
    rw (enter-free task t free)
      (unfold Invoker.with_breaker in release-entering t empty ∙ omega arith)
