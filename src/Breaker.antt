-- ===== src/Breaker.antt =====
-- services/gateway/core/circuit_breaker.py: the circuit breaker of one function. `call` awaits the
-- guarded function, so it has two sections, with other calls between them: the test before it and
-- the bookkeeping after it. `time.time()` is an argument, in ticks.
pub mod Recovery
pub mod Schedule
mod Tests
use edge_serverless_box.Base.{
  ℕ, zero, suc, ◌+◌, ◌-◌, ◌*◌, ◌≤◌, ◌<◌, ◌≡◌, ◌≢◌, ◌⊎◌, inl, inr, ◌↔◌, refl, sym, ap, ◌∙◌, subst,
  String, Bool, true, false, not, ◌&&◌, ◌||◌, Option, none, some, List, [], ◌∷◌, ◌++◌, map, arith,
  eq_iff, length, length-append, keep_if, any_of, str_eq, str_eq_refl, ltb, leb, ◌==◌,
  if◌then◌else◌, Bool-cases, Option-cases, Result, ok, err,
}

pub data State : Type 0 where
  closed opened half_open : State

pub record CircuitBreaker : Type 0 where
  pub failure_threshold : ℕ
  pub recovery_timeout : ℕ
  pub failures : ℕ
  pub last_failure_time : ℕ
  pub state : State

unfoldable pub init : ℕ → ℕ → CircuitBreaker
init threshold timeout = record {
  failure_threshold = threshold;
  recovery_timeout = timeout;
  failures = 0;
  last_failure_time = 0;
  state = closed;
}

unfoldable pub reset : CircuitBreaker → CircuitBreaker
reset b = record b { failures = 0; state = closed; last_failure_time = 0 }

-- `self.state == "OPEN"`, and `"HALF_OPEN"`
abbrev pub is_opened : State → Bool
is_opened closed = false
is_opened opened = true
is_opened half_open = false

abbrev pub is_half_open : State → Bool
is_half_open closed = false
is_half_open opened = false
is_half_open half_open = true

-- The first section: `none` stands for `CircuitBreakerOpenError`.
unfoldable pub admit : ℕ → CircuitBreaker → Option CircuitBreaker
admit now b =
    if is_opened b.state
    then (if ltb (b.last_failure_time + b.recovery_timeout) now
        then some (record b { state = half_open })
        else none)
    else some b

-- The second section, after the guarded function has returned.
unfoldable pub succeed : CircuitBreaker → CircuitBreaker
unfolding reset
succeed b = if is_half_open b.state then reset b else b

-- The second section, after the guarded function has raised.
unfoldable pub fail : ℕ → CircuitBreaker → CircuitBreaker
fail now b = record b {
  failures = b.failures + 1;
  last_failure_time = now;
  state =
      if leb b.failure_threshold (b.failures + 1) || is_half_open b.state then opened else b.state;
}

-- What `call` ends with.
pub data Called {ℓ κ} (E : Type ℓ) (A : Type κ) : Type (ℓ ⊔ κ) where
  -- `CircuitBreakerOpenError`: the guarded function has not run
  rejected : Called E A
  -- it ran, and returned or raised this
  ran : Result E A → Called E A

module _ {ℓ κ} {E : Type ℓ} {A : Type κ} where
  abbrev settle : ℕ → Result E A → CircuitBreaker → CircuitBreaker
  settle now (ok a) b = succeed b
  settle now (err e) b = fail now b

  -- `call` with nothing between its sections: the time of the test, the time after the guarded
  -- function, and what that does if it runs.
  unfoldable pub call : ℕ → ℕ → Result E A → CircuitBreaker → CircuitBreaker × Called E A
  call now later outcome b = elim (admit now b) [
    | none ↦ (b, rejected)
    | some b' ↦ (settle later outcome b', ran outcome)
  ]
