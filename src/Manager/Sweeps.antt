-- ===== src/Manager/Sweeps.antt =====
-- The operations of services/gateway/services/pool_manager.py beside `acquire_worker`. An operation
-- that deletes containers returns the ids that it asked the agent to delete, in order; a deletion
-- that raises is logged and passed over.
use edge_serverless_box.Base.{
  ℕ, suc, ◌+◌, String, Bool, not, Option, none, some, List, [], ◌∷◌, ◌++◌, map, keep_if, ltb,
  if◌then◌else◌,
}
use edge_serverless_box.Base.Dict.{Dict, lookup}
use edge_serverless_box.Worker.{WorkerInfo}
use edge_serverless_box.Pool.{
  ContainerPool, release, evict, drain, prune_idle_workers, get_all_names,
}
use edge_serverless_box.Manager.{
  Agent, PoolManager, has_id, discard, set_pool, cancel_pause_task, schedule_pause,
}

abbrev release_at : ℕ → ℕ → String → WorkerInfo → PoolManager → Option ContainerPool → PoolManager
release_at task now name w m none = m
release_at task now name w m (some p) = schedule_pause task w (set_pool name (release now w p) m)

unfoldable pub release_worker : ℕ → ℕ → String → WorkerInfo → PoolManager → PoolManager
release_worker task now name w m = release_at task now name w m (lookup name m.pools)

-- `_cancel_pause_task` and `_paused_ids.discard`
unfoldable pub forget_worker : String → PoolManager → PoolManager
unfolding cancel_pause_task discard
forget_worker i m = record (cancel_pause_task i m) { paused_ids = discard i m.paused_ids }

abbrev evict_at : String → WorkerInfo → PoolManager → Option ContainerPool → PoolManager
evict_at name w m none = m
evict_at name w m (some p) = set_pool name (evict w p) (forget_worker w.id m)

unfoldable pub evict_worker : String → WorkerInfo → PoolManager → PoolManager
evict_worker name w m = evict_at name w m (lookup name m.pools)

unfoldable pub get_all_worker_names : Dict ContainerPool → Dict (List String)
get_all_worker_names [] = []
get_all_worker_names ((name, p) ∷ pools) = (name, get_all_names p) ∷ get_all_worker_names pools

-- The ids of every pool's ledger.
unfoldable pub known_ids : Dict ContainerPool → List String
known_ids [] = []
known_ids ((name, p) ∷ pools) = map (λ w. w.id) p.all_workers ++ known_ids pools

-- `container_age < grace_period`
abbrev pub is_young : ℕ → ℕ → WorkerInfo → Bool
is_young now grace c = ltb now (c.created_at + grace)

-- The loop over the orphans: the ids to delete, and how many deletions worked.
unfoldable pub delete_orphans : Agent → ℕ → ℕ → List WorkerInfo → List String × ℕ
delete_orphans agent now grace [] = ([], 0)
delete_orphans agent now grace (c ∷ cs) =
    let (ids, removed) = delete_orphans agent now grace cs in
    if is_young now grace c
    then (ids, removed)
    else (c.id ∷ ids, if agent.delete_container c.id then suc removed else removed)

abbrev pub reconcile_with :
    Agent → ℕ → ℕ → Dict ContainerPool → Option (List WorkerInfo) → List String × ℕ
reconcile_with agent now grace pools none = ([], 0)
reconcile_with agent now grace pools (some containers) =
    delete_orphans agent now grace (keep_if (λ c. not (has_id c.id (known_ids pools))) containers)

-- `reconcile_orphans`: the ids that the agent is asked to delete, and the count that is returned.
unfoldable pub reconcile_orphans : Agent → ℕ → ℕ → PoolManager → List String × ℕ
reconcile_orphans agent now grace m = reconcile_with agent now grace m.pools agent.list_containers

-- `cleanup_all_containers`, over the containers that the agent lists
unfoldable pub delete_all : Agent → List WorkerInfo → List String × ℕ
delete_all agent [] = ([], 0)
delete_all agent (c ∷ cs) =
    let (ids, removed) = delete_all agent cs in
    (c.id ∷ ids, if agent.delete_container c.id then suc removed else removed)

abbrev cleanup_with : Agent → Option (List WorkerInfo) → List String × ℕ
cleanup_with agent none = ([], 0)
cleanup_with agent (some containers) = delete_all agent containers

unfoldable pub cleanup_all_containers : Agent → List String × ℕ
unfolding delete_all
cleanup_all_containers agent = cleanup_with agent agent.list_containers

-- `result[fname] = pruned`, if any was pruned
abbrev pub if_any : String → List WorkerInfo → Dict (List WorkerInfo) → Dict (List WorkerInfo)
if_any name [] rest = rest
if_any name (w ∷ ws) rest = (name, w ∷ ws) ∷ rest

-- Every pool pruned, with the workers that each one gave up.
unfoldable pub prune_pools :
    ℕ → ℕ → Dict ContainerPool → Dict ContainerPool × Dict (List WorkerInfo)
prune_pools timeout now [] = ([], [])
prune_pools timeout now ((name, p) ∷ pools) =
    let (p', pruned) = prune_idle_workers timeout now p in
    let (pools', rest) = prune_pools timeout now pools in
    ((name, p') ∷ pools', if_any name pruned rest)

-- The ids of the workers that were pruned, pool by pool.
unfoldable pub pruned_ids : Dict (List WorkerInfo) → List String
pruned_ids [] = []
pruned_ids ((name, ws) ∷ rest) = map (λ w. w.id) ws ++ pruned_ids rest

unfoldable pub forget_workers : List String → PoolManager → PoolManager
forget_workers [] m = m
forget_workers (i ∷ ids) m = forget_workers ids (forget_worker i m)

-- `prune_all_pools`, with the ids that the agent is asked to delete.
unfoldable pub prune_all_pools :
    ℕ → ℕ → PoolManager → PoolManager × Dict (List WorkerInfo) × List String
prune_all_pools timeout now m =
    let (pools, pruned) = prune_pools timeout now m.pools in
    (forget_workers (pruned_ids pruned) (record m { pools = pools }), pruned, pruned_ids pruned)

unfoldable pub drain_pools : Dict ContainerPool → Dict ContainerPool × List String
drain_pools [] = ([], [])
drain_pools ((name, p) ∷ pools) =
    let (p', workers) = drain p in
    let (pools', ids) = drain_pools pools in ((name, p') ∷ pools', map (λ w. w.id) workers ++ ids)

-- `shutdown_all`, with the ids that the agent is asked to delete.
unfoldable pub shutdown_all : PoolManager → PoolManager × List String
shutdown_all m =
    let (pools, ids) = drain_pools m.pools in
    (record m { pools = pools; pause_tasks = []; paused_ids = [] }, ids)
