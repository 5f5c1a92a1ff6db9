-- ===== src/Janitor/Tests.antt =====
-- Runs of services/gateway/services/janitor.py.
use edge_serverless_box.Base.{
  ℕ, ◌≡◌, refl, String, true, false, none, some, List, [], ◌∷◌, keep_if, any_of,
}
use edge_serverless_box.Base.Dict.{lookup}
use edge_serverless_box.Worker.{WorkerInfo, has_worker}
use edge_serverless_box.Pool.{
  ContainerPool, get_all_names, prune_idle_workers, prune_loop, prune_one, notify_if_any, expired,
}
use edge_serverless_box.Pool
use edge_serverless_box.Manager.{Agent, PoolManager, has_id}
use edge_serverless_box.Backend.{WorkerState, Status, paused, running}
use edge_serverless_box.Janitor.{
  HeartbeatJanitor, ResourceJanitor, send_heartbeat, named, evict_selected, cleanup_idle_containers,
  is_overdue,
}
use edge_serverless_box.Janitor.Sweep.{send_heartbeat-managed}

abbrev worker : String → ℕ → WorkerInfo
worker i used = record {
  id = i;
  name = "lambda-echo-1";
  ip_address = "10.0.0.2";
  port = 8080;
  created_at = 0;
  last_used_at = used;
}

-- Worker "a" is leased, worker "b" idle for long.
abbrev echo_pool : ContainerPool
echo_pool = record (Pool.init "echo" 2 0 5) {
  idle_workers = worker "b" 10 ∷ [];
  all_workers = worker "a" 90 ∷ worker "b" 10 ∷ [];
}

abbrev manager : PoolManager
manager = record {
  pools = ("echo", echo_pool) ∷ [];
  pause_enabled = true;
  pause_idle_seconds = 3;
  pause_tasks = [];
  paused_ids = "b" ∷ [];
}

abbrev agent : Agent
agent = record {
  provision = λ name. none;
  resume_container = λ w. true;
  pause_container = λ w. true;
  delete_container = λ i. true;
  list_containers = some (worker "a" 90 ∷ worker "lost" 0 ∷ []);
}

abbrev heartbeat_janitor : HeartbeatJanitor
heartbeat_janitor = record { manager_client = false; interval = 30; idle_timeout = 50 }

abbrev resource_janitor : ResourceJanitor
resource_janitor = record { idle_timeout = 50; cleanup_interval = 60 }

abbrev state : String → Status → ℕ → WorkerState
state i s used = record {
  container_id = i;
  function_name = "echo";
  status = s;
  last_used_at = used;
}

abbrev states : List WorkerState
states = state "a" running 90 ∷ state "b" paused 10 ∷ state "c" running 0 ∷ []

-- Only "b" is overdue: "a" was used lately, and "c" never.
one_overdue :
    cleanup_idle_containers resource_janitor (λ w. true) 100 states
    ≡ (named (state "b" paused 10) ∷ [], 1)
unfolding cleanup_idle_containers evict_selected is_overdue
one_overdue = refl

still_managed : has_worker "a" (prune_idle_workers 50 100 echo_pool).0.all_workers ≡ true
unfolding prune_idle_workers has_worker any_of prune_loop prune_one notify_if_any keep_if
still_managed = refl

send_heartbeat-managed_example :
    let beat = send_heartbeat heartbeat_janitor agent (λ f. true) 100 10 manager in
    (lookup "echo" beat.manager.pools ≡ some (prune_idle_workers 50 100 echo_pool).0)
    × (has_id "a" beat.orphans ≡ false)
    × (heartbeat_janitor.manager_client ≡ true
        → ((f : String) → true ≡ true)
        → lookup "echo" beat.sent ≡ some (get_all_names (prune_idle_workers 50 100 echo_pool).0))
unfolding lookup
send_heartbeat-managed_example =
    send_heartbeat-managed heartbeat_janitor agent (λ f. true) 100 10 manager "echo" "a" echo_pool
      refl still_managed
