-- ===== src/Throttle.antt =====
-- services/gateway/core/concurrency.py: the concurrency limit of one function, and the table of
-- limits. A waiter in the deque is a task with the state of its future: `asyncio.wait_for` cancels
-- the future when the wait times out or the task is cancelled, and only a later section, under the
-- lock, takes it out of the deque. Each function below is one section under the lock.
pub mod Slots
pub mod Table
mod Tests
use edge_serverless_box.Base.{
  ℕ, zero, suc, ◌+◌, ◌-◌, ◌*◌, ◌≤◌, ◌<◌, ◌≡◌, ◌≢◌, ◌⊎◌, inl, inr, ◌↔◌, refl, sym, ap, ◌∙◌, subst,
  String, Bool, true, false, not, ◌&&◌, ◌||◌, Option, none, some, List, [], ◌∷◌, ◌++◌, map, arith,
  eq_iff, length, length-append, keep_if, any_of, str_eq, str_eq_refl, ltb, leb, ◌==◌,
  if◌then◌else◌, Bool-cases, Option-cases, Result, ok, err,
}
use edge_serverless_box.Base.Dict.{Dict, lookup, insert}
use edge_serverless_box.Registry.{FunctionConfig, FunctionRegistry, Scaling, get_function_config}

pub record Waiter : Type 0 where
  pub task : ℕ
  -- `waiter.done()` of a future that is still in the deque: it was cancelled
  pub done : Bool

pub record FunctionThrottle : Type 0 where
  pub limit : ℕ
  pub default_timeout : ℕ
  pub current : ℕ
  pub waiters : List Waiter

pub data Entry : Type 0 where
  entered queued : Entry

-- The section with which `acquire` begins.
unfoldable pub enter : ℕ → FunctionThrottle → FunctionThrottle × Entry
enter task t =
    if ltb t.current t.limit
    then (record t { current = t.current + 1 }, entered)
    else (record t { waiters = t.waiters ++ record { task = task; done = false } ∷ [] }, queued)

-- `asyncio.wait_for` cancels the future of a task that waits no longer.
unfoldable pub cancel_future : ℕ → List Waiter → List Waiter
cancel_future task [] = []
cancel_future task (w ∷ ws) =
    (if w.task == task then record w { done = true } else w) ∷ cancel_future task ws

-- `if waiter in self.waiters: self.waiters.remove(waiter)`, of both `except` branches
unfoldable pub remove_waiter : ℕ → List Waiter → List Waiter
remove_waiter task [] = []
remove_waiter task (w ∷ ws) = if w.task == task then ws else w ∷ remove_waiter task ws

unfoldable pub wait_ends : ℕ → FunctionThrottle → FunctionThrottle
wait_ends task t = record t { waiters = cancel_future task t.waiters }

unfoldable pub forget : ℕ → FunctionThrottle → FunctionThrottle
forget task t = record t { waiters = remove_waiter task t.waiters }

-- `release`, over the deque, with the task whose future is given its result.
unfoldable pub release_to : FunctionThrottle → List Waiter → FunctionThrottle × Option ℕ
release_to t [] = (if ltb 0 t.current then record t { current = t.current - 1 } else t, none)
release_to t (w ∷ ws) = (record t { waiters = ws }, if w.done then none else some w.task)

unfoldable pub release : FunctionThrottle → FunctionThrottle × Option ℕ
unfolding release_to
release t = release_to t t.waiters

abbrev or_value : Option ℕ → ℕ → ℕ
or_value none d = d
or_value (some n) d = n

-- The limit that a configuration sets: `scaling.max_capacity` first, and
-- `ReservedConcurrentExecutions` only if there is no `scaling`.
unfoldable pub configured_limit : ℕ → FunctionConfig → ℕ
configured_limit default c = elim c.scaling [
  | some s ↦ or_value s.max_capacity default
  | none ↦ or_value c.reserved_concurrent_executions default
]

pub record ConcurrencyManager : Type 0 where
  pub default_limit : ℕ
  pub default_timeout : ℕ
  pub function_registry : Option FunctionRegistry
  pub throttles : Dict FunctionThrottle

abbrev limit_of_config : ℕ → Option FunctionConfig → ℕ
limit_of_config default none = default
limit_of_config default (some c) = configured_limit default c

unfoldable pub limit_of : ConcurrencyManager → String → ℕ
limit_of m name = elim m.function_registry [
  | none ↦ m.default_limit
  | some r ↦ limit_of_config m.default_limit (get_function_config r name)
]

unfoldable pub new_throttle : ℕ → ℕ → FunctionThrottle
new_throttle limit timeout = record {
  limit = limit;
  default_timeout = timeout;
  current = 0;
  waiters = [];
}

-- `get_throttle`, over what the table has under the name.
unfoldable pub keep_or_make :
    ConcurrencyManager → String → Option FunctionThrottle → ConcurrencyManager × FunctionThrottle
unfolding limit_of new_throttle
keep_or_make m name (some t) = (m, t)
keep_or_make m name none =
    let t = new_throttle (limit_of m name) m.default_timeout in
    (record m { throttles = insert name t m.throttles }, t)

-- The throttle of a function, made and kept at its first use.
unfoldable pub get_throttle : ConcurrencyManager → String → ConcurrencyManager × FunctionThrottle
unfolding keep_or_make
get_throttle m name = keep_or_make m name (lookup name m.throttles)
