-- ===== src/Breaker/Recovery.antt =====
-- How services/gateway/core/circuit_breaker.py opens, stays open, and recovers.
use edge_serverless_box.Base.{
  ℕ, ◌+◌, ◌≤◌, ◌<◌, ◌≡◌, refl, ap, List, [], ◌∷◌, arith, length, leb, if◌then◌else◌, ok, err,
}
use edge_serverless_box.Breaker.{
  closed, opened, CircuitBreaker, init, admit, succeed, fail, Called, ran, call,
}

module _ {ℓ κ} {E : Type ℓ} {A : Type κ} where
  -- A closed breaker runs the function. Success changes nothing; failure is counted and dated, and
  -- opens the breaker exactly when the count has reached the threshold.
  pub call-closed :
      (now later : ℕ) (e : E) (a : A) (b : CircuitBreaker)
      → b.state ≡ closed
      → (call {E = E} {A = A} now later (ok a) b ≡ (b, ran (ok a)))
        × (call {E = E} {A = A} now later (err e) b ≡ (
          record b {
            failures = b.failures + 1;
            last_failure_time = later;
            state = if leb b.failure_threshold (b.failures + 1) then opened else closed;
          },
          ran (err e),
        ))
  unfolding call admit succeed fail
  call-closed now later e a b s = (ground arith, ground arith)

-- The breaker after failing calls that end at these times.
unfoldable pub failing_calls : List ℕ → CircuitBreaker → CircuitBreaker
unfolding call
failing_calls [] b = b
failing_calls (t ∷ ts) b = failing_calls ts (call {E = Unit {0}} {A = Unit {0}} t t (err tt) b).0

failed : ℕ → CircuitBreaker → CircuitBreaker
failed t b = record b {
  failures = b.failures + 1;
  last_failure_time = t;
  state = if leb b.failure_threshold (b.failures + 1) then opened else closed;
}

failing_calls_cons :
    (t : ℕ) (ts : List ℕ) (b : CircuitBreaker)
    → b.state ≡ closed
    → failing_calls (t ∷ ts) b ≡ failing_calls ts (failed t b)
unfolding failing_calls failed
failing_calls_cons t ts b s =
    ap (λ (r : CircuitBreaker × Called (Unit {0}) (Unit {0})). failing_calls ts r.0)
      ((call-closed {E = Unit {0}} {A = Unit {0}} t t tt tt b s).1)

failing_calls-closed :
    (ts : List ℕ) (b : CircuitBreaker)
    → b.state ≡ closed
    → b.failures < b.failure_threshold
    → b.failures + length ts ≤ b.failure_threshold
    → let b' = failing_calls ts b in
      (b'.failures ≡ b.failures + length ts)
      × (b'.state ≡ (if leb b.failure_threshold (b.failures + length ts) then opened else closed))
unfolding failed
failing_calls-closed [] b s below room = unfold failing_calls in (omega arith, ground arith)
failing_calls-closed (t ∷ []) b s below room =
    rw (failing_calls_cons t [] b s) (unfold failing_calls failed in (omega arith, ground arith))
failing_calls-closed (t ∷ u ∷ ts) b s below room =
    let ih =
      failing_calls-closed (u ∷ ts) (failed t b) (ground arith) (omega arith) (omega arith) in
    rw (failing_calls_cons t (u ∷ ts) b s) (omega (arith, ih.0), ground (arith, ih.1))

-- So many failing calls leave a new breaker closed while they are fewer than the threshold, and
-- open with the one that reaches it.
pub failing_calls-init :
    (threshold timeout : ℕ) (ts : List ℕ)
    → 0 < threshold
    → length ts ≤ threshold
    → let b = failing_calls ts (init threshold timeout) in
      (b.failures ≡ length ts) × (b.state ≡ (if leb threshold (length ts) then opened else closed))
unfolding init
failing_calls-init threshold timeout ts pos_threshold room =
    ground (arith, failing_calls-closed ts (init threshold timeout) refl)
