-- ===== src/Throttle/Tests.antt =====
-- Runs of the throttle of services/gateway/core/concurrency.py.
use edge_serverless_box.Base.{
  ℕ, ◌+◌, ◌≤◌, ◌≡◌, ◌⊎◌, refl, Bool, true, false, none, some, [], ◌∷◌, arith,
}
use edge_serverless_box.Base.Dict.{lookup}
use edge_serverless_box.Registry.{
  empty_config, get_function_config, merge_environment, FunctionConfig,
}
use edge_serverless_box.Throttle.{
  queued, Waiter, enter, cancel_future, wait_ends, release, new_throttle, ConcurrencyManager,
  limit_of, configured_limit,
}
use edge_serverless_box.Throttle.Slots.{
  Slots, step, enters, wait_ends_of, releases, Reach, here, next, start, Reach-bounded,
  lost_for_good,
}

-- One slot, taken by task 1; tasks 2 and 3 queue up.
abbrev busy : Slots
busy = step (step (step (start 1 10) (enters 1)) (enters 2)) (enters 3)

busy-Reach : Reach (start 1 10) busy
busy-Reach = next (next (next here (enters 1) tt) (enters 2) tt) (enters 3) tt

abbrev waiter : ℕ → Bool → Waiter
waiter task done = record { task = task; done = done }

busy_queue : busy.throttle.waiters ≡ waiter 2 false ∷ waiter 3 false ∷ []
unfolding step enter new_throttle
busy_queue = refl

Reach-bounded_example :
    (busy.holders ≤ 1)
    × (busy.throttle.current ≡ busy.holders + busy.lost)
    × ((busy.throttle.waiters ≡ []) ⊎ (busy.throttle.current ≡ 1))
Reach-bounded_example = Reach-bounded 1 10 busy busy-Reach

-- Task 2 times out; before its handler runs, task 1 releases.
abbrev timed_out : Slots
timed_out = step busy (wait_ends_of 2)

timed_out_queue : timed_out.throttle.waiters ≡ waiter 2 true ∷ waiter 3 false ∷ []
unfolding step enter new_throttle wait_ends cancel_future
timed_out_queue = refl

-- That was the only slot: task 3 waits although nobody runs, and so does every later task.
abbrev stuck : Slots
stuck = step timed_out releases

stuck-Reach : Reach (start 1 10) stuck
unfolding step enter new_throttle wait_ends
stuck-Reach = next (next busy-Reach (wait_ends_of 2) tt) releases (omega arith)

stuck_idle : (stuck.holders ≡ 0) × (stuck.throttle.current ≡ 1)
unfolding step enter new_throttle wait_ends cancel_future release
stuck_idle = (refl, refl)

-- Task 3 stops waiting, and task 4 comes.
abbrev later : Slots
later = step stuck (wait_ends_of 3)

lost_for_good_example : ((enter 4 later.throttle).1 ≡ queued) × (later.holders ≡ 0)
lost_for_good_example =
    lost_for_good 1 10 4 stuck later stuck-Reach stuck_idle.0 stuck_idle.1
      (next here (wait_ends_of 3) tt)

abbrev reserved_three : FunctionConfig
reserved_three = record empty_config { reserved_concurrent_executions = some 3 }

abbrev manager : ConcurrencyManager
manager = record {
  default_limit = 5;
  default_timeout = 10;
  function_registry =
      some (record { registry = ("echo", some reserved_three) ∷ []; default_environment = none });
  throttles = [];
}

limits : (limit_of manager "echo" ≡ 3) × (limit_of manager "other" ≡ 5)
unfolding limit_of get_function_config merge_environment configured_limit lookup
limits = (refl, refl)
