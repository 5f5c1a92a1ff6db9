-- ===== src/Breaker/Tests.antt =====
-- Runs of the circuit breaker of services/gateway/core/circuit_breaker.py.
use edge_serverless_box.Base.{ℕ, ◌≡◌, refl, List, [], ◌∷◌, arith}
use edge_serverless_box.Breaker.{State, closed, CircuitBreaker, init, admit, succeed, fail}
use edge_serverless_box.Breaker.Schedule.{
  Event, begins, returns, raises, step, run, Agrees, run-init-Agrees,
}

abbrev breaker : State → ℕ → CircuitBreaker
breaker state failures = record {
  failure_threshold = 3;
  recovery_timeout = 30;
  failures = failures;
  last_failure_time = 100;
  state = state;
}

-- Two calls begin together, fail, and a third one gets through after the recovery time.
abbrev overlap : List Event
overlap = begins 1 ∷ begins 1 ∷ raises 5 ∷ raises 6 ∷ begins 7 ∷ begins 40 ∷ returns ∷ []

overlapping : (run (init 2 30) overlap).state ≡ closed
unfolding run step succeed admit fail init
overlapping = refl

run-init-Agrees_example : Agrees (run (init 2 30) overlap)
run-init-Agrees_example = run-init-Agrees 2 30 overlap (omega arith)
