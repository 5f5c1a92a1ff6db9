-- ===== src/Manager.antt =====
-- services/gateway/services/pool_manager.py: the pools of all functions, the pausing of idle
-- containers, and the clean-up of containers. The agent that runs the containers is a parameter:
-- what it answers to each call during one operation. An operation runs with no other task between
-- its awaits; Pool/Schedule.antt has the interleavings of one pool's sections.
pub mod Acquire
pub mod Sweeps
pub mod Cleanup
pub mod Prune
pub mod Names
mod Tests
use edge_serverless_box.Base.{
  ℕ, zero, suc, ◌+◌, ◌-◌, ◌*◌, ◌≤◌, ◌<◌, ◌≡◌, ◌≢◌, ◌⊎◌, inl, inr, ◌↔◌, refl, sym, ap, ◌∙◌, subst,
  String, Bool, true, false, not, ◌&&◌, ◌||◌, Option, none, some, List, [], ◌∷◌, ◌++◌, map, arith,
  eq_iff, length, length-append, keep_if, any_of, str_eq, str_eq_refl, ltb, leb, ◌==◌,
  if◌then◌else◌, Bool-cases, Option-cases, Result, ok, err,
}
use edge_serverless_box.Base.Dict.{Dict, lookup, insert, erase}
use edge_serverless_box.Registry.{Scaling}
use edge_serverless_box.Worker.{WorkerInfo, has_worker}
use edge_serverless_box.Pool.{
  ContainerPool, Attempt, granted, reserved, waits, timed_out, attempt, wait_expired, provisioned,
  provision_failed, release, evict, is_idle, adopt, drain, prune_idle_workers, get_all_names,
}
use edge_serverless_box.Pool

-- The answers of `provision_client`; `none` and `false` stand for an exception.
pub record Agent : Type 0 where
  pub provision : String → Option (List WorkerInfo)
  pub resume_container : WorkerInfo → Bool
  pub pause_container : WorkerInfo → Bool
  pub delete_container : String → Bool
  pub list_containers : Option (List WorkerInfo)

pub record PoolManager : Type 0 where
  pub pools : Dict ContainerPool
  pub pause_enabled : Bool
  pub pause_idle_seconds : ℕ
  -- the pause task of a worker, by the worker's id
  pub pause_tasks : Dict ℕ
  -- a set of ids
  pub paused_ids : List String

-- `__init__`: pausing needs a positive delay and a client that can pause and resume.
unfoldable pub init : Bool → ℕ → Bool → PoolManager
init pause_enabled seconds client_pauses = record {
  pools = [];
  pause_enabled = pause_enabled && ltb 0 seconds && client_pauses;
  pause_idle_seconds = seconds;
  pause_tasks = [];
  paused_ids = [];
}

-- `worker.id in self._paused_ids`, `discard`, `add`
unfoldable pub has_id : String → List String → Bool
has_id i ids = any_of (λ j. str_eq j i) ids

unfoldable pub discard : String → List String → List String
discard i ids = keep_if (λ j. not (str_eq j i)) ids

unfoldable pub add_id : String → List String → List String
unfolding has_id
add_id i ids = if has_id i ids then ids else ids ++ i ∷ []

abbrev value_or : Option ℕ → ℕ → ℕ
value_or none d = d
value_or (some n) d = n

-- A pool with the function's scaling; 5.0 seconds are the default timeout, `second` ticks each.
unfoldable pub new_pool : ℕ → String → Scaling → ContainerPool
new_pool second name s =
    Pool.init name (value_or s.max_capacity 1) (value_or s.min_capacity 0)
      (value_or s.acquire_timeout (5 * second))

unfoldable pub keep_or_make :
    ℕ
    → (String → Scaling)
    → PoolManager
    → String
    → Option ContainerPool
    → PoolManager × ContainerPool
unfolding new_pool
keep_or_make second config_loader m name (some p) = (m, p)
keep_or_make second config_loader m name none =
    let p = new_pool second name (config_loader name) in
    (record m { pools = insert name p m.pools }, p)

-- `config_loader` is the callback that the manager is created with.
unfoldable pub get_pool :
    ℕ → (String → Scaling) → PoolManager → String → PoolManager × ContainerPool
unfolding keep_or_make
get_pool second config_loader m name =
    keep_or_make second config_loader m name (lookup name m.pools)

abbrev pub set_pool : String → ContainerPool → PoolManager → PoolManager
set_pool name p m = record m { pools = insert name p m.pools }

unfoldable pub cancel_pause_task : String → PoolManager → PoolManager
cancel_pause_task i m = record m { pause_tasks = erase i m.pause_tasks }

unfoldable pub schedule_pause : ℕ → WorkerInfo → PoolManager → PoolManager
unfolding cancel_pause_task
schedule_pause task w m =
    if m.pause_enabled
    then (let cancelled = cancel_pause_task w.id m in
        record cancelled { pause_tasks = insert w.id task cancelled.pause_tasks })
    else m

-- Whether `_pause_after_delay` asks the agent to pause the container, after its sleep.
unfoldable pub pauses : ContainerPool → WorkerInfo → PoolManager → Bool
unfolding has_id
pauses p w m = m.pause_enabled && not (has_id w.id m.paused_ids) && is_idle w.id p

abbrev drop_own_task : String → ℕ → Option ℕ → Dict ℕ → Dict ℕ
drop_own_task i task none tasks = tasks
drop_own_task i task (some t) tasks = if t == task then erase i tasks else tasks

-- `_pause_after_delay` once its sleep is over, with its `finally` clause.
unfoldable pub pause_after_delay :
    Agent → ContainerPool → WorkerInfo → ℕ → PoolManager → PoolManager
unfolding pauses add_id
pause_after_delay agent p w task m = record m {
  paused_ids =
      if pauses p w m && agent.pause_container w then add_id w.id m.paused_ids else m.paused_ids;
  pause_tasks = drop_own_task w.id task (lookup w.id m.pause_tasks) m.pause_tasks;
}

pub data AcquireError : Type 0 where
  timeout_error provision_error : AcquireError

abbrev provision_outcome :
    ContainerPool × Option WorkerInfo → ContainerPool × Result AcquireError WorkerInfo
provision_outcome (p, none) = (p, err provision_error)
provision_outcome (p, some w) = (p, ok w)

abbrev after_callback :
    Option (List WorkerInfo) → ContainerPool → ContainerPool × Result AcquireError WorkerInfo
after_callback none p = (provision_failed p, err provision_error)
after_callback (some ws) p = provision_outcome (provisioned ws p)

-- `pool.acquire` from a pass of its loop on, if no other task runs meanwhile.
unfoldable pub acquire_from_pool :
    Agent → String → ℕ → ContainerPool × Attempt → ContainerPool × Result AcquireError WorkerInfo
acquire_from_pool agent name task (p, granted w) = (p, ok w)
acquire_from_pool agent name task (p, reserved) = after_callback (agent.provision name) p
acquire_from_pool agent name task (p, waits n) = (wait_expired task p, err timeout_error)
acquire_from_pool agent name task (p, timed_out) = (p, err timeout_error)

-- How a round of the loop in `acquire_worker` ends.
pub data Round : Type 0 where
  returns : Result AcquireError WorkerInfo → Round
  continues : Round

-- With a worker from the pool: a paused container is resumed, or evicted if that fails.
unfoldable pub take_worker :
    Agent → String → ContainerPool → WorkerInfo → PoolManager → PoolManager × Round
take_worker agent name p w m =
    if m.pause_enabled
    then (let m' = cancel_pause_task w.id m in
        if has_id w.id m'.paused_ids
        then (let discarded : PoolManager = record m' { paused_ids = discard w.id m'.paused_ids } in
            if agent.resume_container w
            then (discarded, returns (ok w))
            else (set_pool name (evict w p) discarded, continues))
        else (m', returns (ok w)))
    else (m, returns (ok w))

abbrev with_outcome :
    Agent
    → String
    → ContainerPool × Result AcquireError WorkerInfo
    → PoolManager
    → PoolManager × Round
with_outcome agent name (p, err e) m = (set_pool name p m, returns (err e))
with_outcome agent name (p, ok w) m = take_worker agent name p w (set_pool name p m)

-- One round of the loop in `acquire_worker`.
unfoldable pub acquire_round :
    ℕ → (String → Scaling) → Agent → String → ℕ → ℕ → PoolManager → PoolManager × Round
acquire_round second config_loader agent name task now m =
    let (m', p) = get_pool second config_loader m name in
    with_outcome agent name (acquire_from_pool agent name task (attempt task now now p)) m'

-- The loop, with fuel; `none` means that the fuel ran out.
unfoldable pub acquire_loop :
    ℕ
    → ℕ
    → (String → Scaling)
    → Agent
    → String
    → ℕ
    → ℕ
    → PoolManager
    → PoolManager × Option (Result AcquireError WorkerInfo)
acquire_loop zero second config_loader agent name task now m = (m, none)
acquire_loop (suc fuel) second config_loader agent name task now m =
    let (m', r) = acquire_round second config_loader agent name task now m in
    elim r [
      | returns result ↦ (m', some result)
      | continues ↦ acquire_loop fuel second config_loader agent name task now m'
    ]

-- Each round that does not return takes an id out of `_paused_ids`: so many rounds are enough.
unfoldable pub acquire_worker :
    ℕ
    → (String → Scaling)
    → Agent
    → String
    → ℕ
    → ℕ
    → PoolManager
    → PoolManager × Option (Result AcquireError WorkerInfo)
acquire_worker second config_loader agent name task now m =
    acquire_loop (suc (length m.paused_ids)) second config_loader agent name task now m
