-- ===== src/Pool.antt =====
-- services/gateway/services/container_pool.py: the worker pool of one function. An `async` method
-- is cut at its awaits: each function below is one uninterrupted section under the condition
-- variable's lock, or one pass of the loop in `acquire`. `time.time()` is an argument, in ticks.
-- `asyncio.Condition` is represented by the tasks that are blocked in its `wait()`; `notify_all`
-- wakes every one of them. A worker object is identified by its id.
pub mod Ledger
pub mod Schedule
pub mod Prune
pub mod Drain
pub mod Spec
pub mod Refines
mod Tests
use edge_serverless_box.Base.{
  ℕ, zero, suc, ◌+◌, ◌-◌, ◌*◌, ◌≤◌, ◌<◌, ◌≡◌, ◌≢◌, ◌⊎◌, inl, inr, ◌↔◌, refl, sym, ap, ◌∙◌, subst,
  String, Bool, true, false, not, ◌&&◌, ◌||◌, Option, none, some, List, [], ◌∷◌, ◌++◌, map, arith,
  eq_iff, length, length-append, keep_if, any_of, str_eq, str_eq_refl, ltb, leb, ◌==◌,
  if◌then◌else◌, Bool-cases, Option-cases, Result, ok, err,
}
use edge_serverless_box.Base.Int.{ℤ, pos, negsuc, ◌+ℤ◌, ◌-ℤ◌, ltb_ℤ}
use edge_serverless_box.Worker.{WorkerInfo, has_worker, without, set_add, touch}

pub record ContainerPool : Type 0 where
  pub function_name : String
  pub max_capacity : ℕ
  pub min_capacity : ℕ
  pub acquire_timeout : ℕ
  pub idle_workers : List WorkerInfo
  pub all_workers : List WorkerInfo
  pub provisioning_count : ℤ
  -- the tasks blocked in `_cv.wait()`
  pub blocked : List ℕ

-- `__init__`
unfoldable pub init : String → ℕ → ℕ → ℕ → ContainerPool
init function_name max_capacity min_capacity acquire_timeout = record {
  function_name = function_name;
  max_capacity = max_capacity;
  min_capacity = min_capacity;
  acquire_timeout = acquire_timeout;
  idle_workers = [];
  all_workers = [];
  provisioning_count = pos 0;
  blocked = [];
}

-- `_cv.notify_all()`
abbrev pub notify_all : ContainerPool → ContainerPool
notify_all p = record p { blocked = [] }

-- `len(self._all_workers) + self._provisioning_count < self.max_capacity`
unfoldable pub has_room : ContainerPool → Bool
unfolding ◌+ℤ◌
has_room p = ltb_ℤ (pos (length p.all_workers) +ℤ p.provisioning_count) (pos p.max_capacity)

-- How one pass of the loop in `acquire` ends.
pub data Attempt : Type 0 where
  -- `return worker`
  granted : WorkerInfo → Attempt
  -- `break`, with a provisioning slot reserved
  reserved : Attempt
  -- blocked in `_cv.wait()`, for at most so many ticks
  waits : ℕ → Attempt
  -- `raise asyncio.TimeoutError`
  timed_out : Attempt

-- Steps 2 and 3 of the loop, with no idle worker at hand.
unfoldable pub attempt_provision : ℕ → ℕ → ℕ → ContainerPool → ContainerPool × Attempt
unfolding has_room ◌+ℤ◌
attempt_provision task start now p =
    if has_room p
    then (record p { provisioning_count = p.provisioning_count +ℤ pos 1 }, reserved)
    else if leb (start + p.acquire_timeout) now
    then (p, timed_out)
    else (record p { blocked = p.blocked ++ task ∷ [] }, waits (start + p.acquire_timeout - now))

-- Step 1 of the loop: `popleft` of the idle workers.
unfoldable pub attempt_idle : ℕ → ℕ → ℕ → ContainerPool → List WorkerInfo → ContainerPool × Attempt
unfolding attempt_provision
attempt_idle task start now p [] = attempt_provision task start now p
attempt_idle task start now p (w ∷ ws) = (record p { idle_workers = ws }, granted w)

-- One pass of `acquire`'s loop by a task that called it at time `start`.
unfoldable pub attempt : ℕ → ℕ → ℕ → ContainerPool → ContainerPool × Attempt
unfolding attempt_idle
attempt task start now p = attempt_idle task start now p p.idle_workers

unfoldable remove_task : ℕ → List ℕ → List ℕ
remove_task task [] = []
remove_task task (t ∷ ts) = if t == task then remove_task task ts else t ∷ remove_task task ts

-- `asyncio.wait_for` gives up on `_cv.wait()`: the task is no longer blocked, and raises.
unfoldable pub wait_expired : ℕ → ContainerPool → ContainerPool
unfolding remove_task
wait_expired task p = record p { blocked = remove_task task p.blocked }

-- The `except BaseException` branch of `acquire`.
unfoldable pub provision_failed : ContainerPool → ContainerPool
unfolding ◌-ℤ◌
provision_failed p = notify_all (
    if ltb_ℤ (pos 0) p.provisioning_count
    then record p { provisioning_count = p.provisioning_count -ℤ pos 1 }
    else p)

-- What `acquire` does with the answer of the callback; `workers[0]` of no worker raises.
unfoldable pub provisioned : List WorkerInfo → ContainerPool → ContainerPool × Option WorkerInfo
unfolding provision_failed set_add ◌-ℤ◌
provisioned [] p = (provision_failed p, none)
provisioned (w ∷ ws) p = (
  record p {
    all_workers = set_add w p.all_workers;
    provisioning_count = p.provisioning_count -ℤ pos 1;
  },
  some w,
)

unfoldable pub release : ℕ → WorkerInfo → ContainerPool → ContainerPool
unfolding touch
release now w p = notify_all (record p {
  idle_workers = touch w.id now p.idle_workers ++ record w { last_used_at = now } ∷ [];
  all_workers = touch w.id now p.all_workers;
})

unfoldable pub evict : WorkerInfo → ContainerPool → ContainerPool
unfolding without
evict w p = notify_all (record p {
  idle_workers = without w.id p.idle_workers;
  all_workers = without w.id p.all_workers;
})

unfoldable pub is_idle : String → ContainerPool → Bool
unfolding has_worker
is_idle i p = has_worker i p.idle_workers && has_worker i p.all_workers

-- `now - worker.last_used_at > idle_timeout`
abbrev pub expired : ℕ → ℕ → WorkerInfo → Bool
expired timeout now w = ltb (w.last_used_at + timeout) now

pub record Pruning : Type 0 where
  pub surviving : List WorkerInfo
  pub pruned : List WorkerInfo
  pub remaining : List WorkerInfo

-- One round of the loop in `prune_idle_workers`; `remaining` is `_all_workers`.
unfoldable pub prune_one : ℕ → ℕ → WorkerInfo → Pruning → Pruning
unfolding without
prune_one timeout now w r =
    if expired timeout now w
    then record r { remaining = without w.id r.remaining; pruned = r.pruned ++ w ∷ [] }
    else record r { surviving = r.surviving ++ w ∷ [] }

unfoldable pub prune_loop : ℕ → ℕ → List WorkerInfo → Pruning → Pruning
unfolding prune_one
prune_loop timeout now [] r = r
prune_loop timeout now (w ∷ ws) r = prune_loop timeout now ws (prune_one timeout now w r)

-- The condition is notified only if a worker was pruned.
unfoldable pub notify_if_any : List WorkerInfo → ContainerPool → ContainerPool
notify_if_any [] p = p
notify_if_any (w ∷ ws) p = notify_all p

unfoldable pub prune_idle_workers : ℕ → ℕ → ContainerPool → ContainerPool × List WorkerInfo
unfolding prune_loop notify_if_any
prune_idle_workers timeout now p =
    let r =
      prune_loop timeout now p.idle_workers
        (record { surviving = []; pruned = []; remaining = p.all_workers }) in
    (
      notify_if_any r.pruned (record p { idle_workers = r.surviving; all_workers = r.remaining }),
      r.pruned,
    )

-- `if worker.last_used_at == 0: worker.last_used_at = time.time()`
unfoldable pub stamped : ℕ → WorkerInfo → WorkerInfo
stamped now w = if w.last_used_at == 0 then record w { last_used_at = now } else w

unfoldable pub adopt : ℕ → WorkerInfo → ContainerPool → ContainerPool
adopt now w p =
    if has_room p
    then notify_all (record p {
      all_workers = set_add (stamped now w) p.all_workers;
      idle_workers = p.idle_workers ++ stamped now w ∷ [];
    })
    else p

unfoldable pub drain : ContainerPool → ContainerPool × List WorkerInfo
drain p = (
  notify_all (record p { all_workers = []; idle_workers = []; provisioning_count = pos 0 }),
  p.all_workers,
)

unfoldable pub get_all_names : ContainerPool → List String
get_all_names p = map (λ w. w.name) p.all_workers

unfoldable pub size : ContainerPool → ℕ
size p = length p.all_workers

pub record Stats : Type 0 where
  pub function_name : String
  pub total_workers : ℕ
  pub idle : ℕ
  pub provisioning : ℤ
  pub max_capacity : ℕ

unfoldable pub stats : ContainerPool → Stats
stats p = record {
  function_name = p.function_name;
  total_workers = length p.all_workers;
  idle = length p.idle_workers;
  provisioning = p.provisioning_count;
  max_capacity = p.max_capacity;
}
