-- ===== src/Breaker/Schedule.antt =====
-- Calls of services/gateway/core/circuit_breaker.py that overlap: their sections in any order.
use edge_serverless_box.Base.{
  ℕ, ◌≤◌, ◌<◌, ◌≡◌, ◌≢◌, ◌⊎◌, inl, refl, Option, none, some, List, [], ◌∷◌, arith,
}
use edge_serverless_box.Breaker.{closed, CircuitBreaker, init, reset, admit, succeed, fail}

pub data Event : Type 0 where
  -- a call begins at that time
  begins : ℕ → Event
  -- the guarded function of some call returns, or raises at that time
  returns : Event
  raises : ℕ → Event

abbrev or_same : CircuitBreaker → Option CircuitBreaker → CircuitBreaker
or_same b none = b
or_same b (some b') = b'

unfoldable pub step : CircuitBreaker → Event → CircuitBreaker
step b (begins now) = or_same b (admit now b)
step b returns = succeed b
step b (raises now) = fail now b

unfoldable pub run : CircuitBreaker → List Event → CircuitBreaker
run b [] = b
run b (e ∷ es) = run (step b e) es

-- The count of failures tells the state: it is below the threshold exactly in a closed breaker.
pub record Agrees (b : CircuitBreaker) : Type 0 where
  pub positive : 0 < b.failure_threshold
  pub tells :
      (b.state ≡ closed) × (b.failures < b.failure_threshold)
      ⊎ (b.state ≢ closed) × (b.failure_threshold ≤ b.failures)

step-Agrees : (b : CircuitBreaker) (e : Event) → Agrees b → Agrees (step b e)
unfolding step admit succeed fail reset
step-Agrees b (begins now) g = ground arith
step-Agrees b returns g = ground arith
step-Agrees b (raises now) g = ground arith

run-Agrees : (b : CircuitBreaker) (es : List Event) → Agrees b → Agrees (run b es)
unfolding run
run-Agrees b [] g = g
run-Agrees b (e ∷ es) g = run-Agrees (step b e) es (step-Agrees b e g)

-- However the calls overlap, a breaker with a positive threshold is closed exactly while fewer
-- failures are on record than the threshold.
pub run-init-Agrees :
    (threshold timeout : ℕ) (es : List Event)
    → 0 < threshold
    → Agrees (run (init threshold timeout) es)
run-init-Agrees threshold timeout es h =
    run-Agrees (init threshold timeout) es
      (unfold init in record { positive = h; tells = inl (refl, h) })
