-- ===== src/Manager/Tests.antt =====
-- Runs of the pool manager of services/gateway/services/pool_manager.py.
use edge_serverless_box.Base.{
  ℕ, ◌≡◌, refl, String, true, false, none, some, [], ◌∷◌, keep_if, any_of, err,
}
use edge_serverless_box.Base.Dict.{lookup, insert}
use edge_serverless_box.Registry.{Scaling}
use edge_serverless_box.Worker.{WorkerInfo, has_worker}
use edge_serverless_box.Pool.{
  ContainerPool, Attempt, granted, attempt, attempt_idle, evict, expired, Pruning, prune_one,
  prune_loop, notify_if_any, notify_all, prune_idle_workers,
}
use edge_serverless_box.Pool
use edge_serverless_box.Manager.{
  Agent, PoolManager, has_id, get_pool, keep_or_make, cancel_pause_task, acquire_from_pool,
  take_worker, acquire_round, acquire_loop, acquire_worker, provision_error,
}
use edge_serverless_box.Manager.Acquire.{Ends, Progress, round, acquire_worker-Ends}
use edge_serverless_box.Manager.Sweeps.{known_ids, delete_orphans, reconcile_orphans, shutdown_all}
use edge_serverless_box.Manager.Cleanup.{shutdown_all_lem, AllEmpty}
use edge_serverless_box.Base.Text.{has_char, append}
use edge_serverless_box.Manager.Names.{
  is_for, adopt_each, adopt_all, extract_function_name, extract_function_name_lem, adopt_all-lookup,
}

abbrev worker : String → ℕ → WorkerInfo
worker i made = record {
  id = i;
  name = "lambda-echo-1";
  ip_address = "10.0.0.2";
  port = 8080;
  created_at = made;
  last_used_at = made;
}

-- An agent that can neither create nor resume a container, and that lists one container too many.
abbrev agent : Agent
agent = record {
  provision = λ name. none;
  resume_container = λ w. false;
  pause_container = λ w. true;
  delete_container = λ i. true;
  list_containers = some (worker "a" 0 ∷ worker "lost" 0 ∷ worker "young" 95 ∷ []);
}

abbrev scaling : String → Scaling
scaling name = record { max_capacity = some 2; min_capacity = none; acquire_timeout = none }

abbrev echo_pool : ContainerPool
echo_pool = record (Pool.init "echo" 2 0 5) {
  idle_workers = worker "a" 0 ∷ [];
  all_workers = worker "a" 0 ∷ [];
}

-- One pool, whose only worker is paused.
abbrev manager : PoolManager
manager = record {
  pools = ("echo", echo_pool) ∷ [];
  pause_enabled = true;
  pause_idle_seconds = 3;
  pause_tasks = [];
  paused_ids = "a" ∷ [];
}

-- The worker cannot be resumed and is evicted; then the agent cannot create another.
acquires : (acquire_worker 1 scaling agent "echo" 1 100 manager).1 ≡ some (err provision_error)
unfolding acquire_worker acquire_loop acquire_round get_pool keep_or_make attempt take_worker
    acquire_from_pool lookup has_id any_of cancel_pause_task insert evict keep_if Pool.init
acquires = refl

orphans_deleted : (reconcile_orphans agent 100 10 manager) ≡ ("lost" ∷ [], 1)
unfolding reconcile_orphans delete_orphans known_ids keep_if has_id any_of
orphans_deleted = refl

given_up : has_worker "a" (prune_idle_workers 50 100 echo_pool).1 ≡ true
unfolding prune_idle_workers has_worker any_of
given_up = refl

acquire_worker-Ends_example :
    Ends 1 scaling agent "echo" 1 100 manager (acquire_worker 1 scaling agent "echo" 1 100 manager)
    × ((n : PoolManager) → Progress agent "echo" n (round 1 scaling agent "echo" 1 100 n))
acquire_worker-Ends_example = acquire_worker-Ends 1 scaling agent "echo" 1 100 manager

shutdown_all_lem_example :
    let (m', ids) = shutdown_all manager in
    (ids ≡ known_ids manager.pools)
    × AllEmpty m'.pools
    × (m'.pause_tasks ≡ [])
    × (m'.paused_ids ≡ [])
shutdown_all_lem_example = shutdown_all_lem manager

extract_function_name_lem_example :
    extract_function_name (append "lambda-" (append "my-echo" (append "-" "1a2b"))) ≡ some "my-echo"
extract_function_name_lem_example =
    extract_function_name_lem "my-echo" "1a2b" (unfold has_char in refl)

adopt_all-lookup_example :
    let listed = worker "b" 1 ∷ record (worker "c" 2) { name = "lambda-other-1" } ∷ [] in
    lookup "echo" (adopt_all 1 scaling 7 listed manager).pools
    ≡ some (
        adopt_each 7 (keep_if (λ w. is_for "echo" (extract_function_name w.name)) listed) echo_pool)
adopt_all-lookup_example =
    adopt_all-lookup 1 scaling 7
      (worker "b" 1 ∷ record (worker "c" 2) { name = "lambda-other-1" } ∷ []) manager "echo"
      echo_pool refl (unfold lookup in refl)
