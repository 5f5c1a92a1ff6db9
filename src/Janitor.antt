-- ===== src/Janitor.antt =====
-- services/gateway/services/janitor.py: the clean-up that runs from time to time. What the backend
-- and the manager's client do with a call is a parameter.
pub mod Sweep
mod Tests
use edge_serverless_box.Base.{
  ℕ, zero, suc, ◌+◌, ◌-◌, ◌*◌, ◌≤◌, ◌<◌, ◌≡◌, ◌≢◌, ◌⊎◌, inl, inr, ◌↔◌, refl, sym, ap, ◌∙◌, subst,
  String, Bool, true, false, not, ◌&&◌, ◌||◌, Option, none, some, List, [], ◌∷◌, ◌++◌, map, arith,
  eq_iff, length, length-append, keep_if, any_of, str_eq, str_eq_refl, ltb, leb, ◌==◌,
  if◌then◌else◌, Bool-cases, Option-cases, Result, ok, err,
}
use edge_serverless_box.Base.Dict.{Dict}
use edge_serverless_box.Worker.{WorkerInfo}
use edge_serverless_box.Pool.{ContainerPool}
use edge_serverless_box.Manager.{Agent, PoolManager}
use edge_serverless_box.Manager.Sweeps.{prune_all_pools, reconcile_orphans, get_all_worker_names}
use edge_serverless_box.Backend.{WorkerState, Status, paused, running, stopped, unknown}

pub record HeartbeatJanitor : Type 0 where
  -- whether there is a manager's client
  pub manager_client : Bool
  pub interval : ℕ
  pub idle_timeout : ℕ

-- The heartbeats of the loop over the workers' names, up to the first that the client refuses:
-- those that are sent, and whether none was refused.
unfoldable pub heartbeats : (String → Bool) → Dict (List String) → Dict (List String) × Bool
heartbeats accepts [] = ([], true)
heartbeats accepts ((name, []) ∷ rest) = heartbeats accepts rest
heartbeats accepts ((name, n ∷ ns) ∷ rest) =
    let (sent, well) = heartbeats accepts rest in
    if accepts name then ((name, n ∷ ns) ∷ sent, well) else ((name, n ∷ ns) ∷ [], false)

-- What a beat does: the pools after it, the containers that the agent is asked to delete by the
-- pruning and by the reconciliation, and the heartbeats.
pub record Beat : Type 0 where
  pub manager : PoolManager
  pub pruned : List String
  pub orphans : List String
  pub sent : Dict (List String)
  pub well : Bool

abbrev beats_of : Bool → (String → Bool) → PoolManager → Dict (List String) × Bool
beats_of false accepts m = ([], true)
beats_of true accepts m = heartbeats accepts (get_all_worker_names m.pools)

-- `_send_heartbeat`; `prune_all_pools` and `reconcile_orphans` raise nothing of their own.
unfoldable pub send_heartbeat :
    HeartbeatJanitor → Agent → (String → Bool) → ℕ → ℕ → PoolManager → Beat
send_heartbeat j agent accepts now grace m =
    let (m', workers, ids) = prune_all_pools j.idle_timeout now m in
    let (orphans, removed) = reconcile_orphans agent now grace m' in
    let (sent, well) = beats_of j.manager_client accepts m' in
    record { manager = m'; pruned = ids; orphans = orphans; sent = sent; well = well }

pub record ResourceJanitor : Type 0 where
  pub idle_timeout : ℕ
  pub cleanup_interval : ℕ

abbrev pub is_paused : Status → Bool
is_paused paused = true
is_paused running = false
is_paused stopped = false
is_paused unknown = false

abbrev pub is_alive : Status → Bool
is_alive paused = true
is_alive running = true
is_alive stopped = false
is_alive unknown = false

-- The worker that is made up for the backend's `evict_worker`.
abbrev pub named : WorkerState → WorkerInfo
named w = record {
  id = w.container_id;
  name = w.function_name;
  ip_address = "";
  port = 0;
  created_at = 0;
  last_used_at = 0;
}

-- The loop of both clean-ups, over the workers that a test selects: the workers that the backend is
-- asked to evict, and how many of these calls raise nothing.
unfoldable pub evict_selected :
    (WorkerState → Bool) → (WorkerInfo → Bool) → List WorkerState → List WorkerInfo × ℕ
evict_selected selected evicts [] = ([], 0)
evict_selected selected evicts (w ∷ ws) =
    let (evicted, count) = evict_selected selected evicts ws in
    if selected w
    then (named w ∷ evicted, if evicts (named w) then suc count else count)
    else (evicted, count)

-- `cleanup_on_startup`
unfoldable pub cleanup_on_startup : (WorkerInfo → Bool) → List WorkerState → List WorkerInfo × ℕ
unfolding evict_selected
cleanup_on_startup evicts workers = evict_selected (λ w. is_paused w.status) evicts workers

-- `now - w.last_used_at > idle_timeout`, of a worker that was used at all
unfoldable pub is_overdue : ResourceJanitor → ℕ → WorkerState → Bool
is_overdue j now w =
    is_alive w.status && ltb 0 w.last_used_at && ltb (w.last_used_at + j.idle_timeout) now

-- `_cleanup_idle_containers`
unfoldable pub cleanup_idle_containers :
    ResourceJanitor → (WorkerInfo → Bool) → ℕ → List WorkerState → List WorkerInfo × ℕ
unfolding evict_selected
cleanup_idle_containers j evicts now workers = evict_selected (is_overdue j now) evicts workers
