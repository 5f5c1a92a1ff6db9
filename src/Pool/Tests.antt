-- ===== src/Pool/Tests.antt =====
-- Runs of the worker pool of services/gateway/services/container_pool.py.
use edge_serverless_box.Base.{
  false, some, ℕ, ◌+◌, ◌≤◌, ◌≡◌, refl, String, not, [], ◌∷◌, arith, length, keep_if, any_of,
  if◌then◌else◌,
}
use edge_serverless_box.Base.Int.{pos, negsuc}
use edge_serverless_box.Worker.{WorkerInfo, has_worker, touch}
use edge_serverless_box.Worker.Count.{count, remove_one}
use edge_serverless_box.Pool.{
  ContainerPool, init, reserved, attempt, drain, provisioned, provision_failed, prune_idle_workers,
  expired, release,
}
use edge_serverless_box.Pool.Schedule.{
  System, step, attempts, answers, releases, Reach, here, next, start, Reach-capacity,
  Reach-exclusive, Reach-no_lost_wakeup,
}
use edge_serverless_box.Pool.Refines.{actions, meaning, run-actions}
use edge_serverless_box.Pool.Spec.{run}
use edge_serverless_box.Pool.Prune.{prune_idle_workers_lem}
use edge_serverless_box.Pool.Drain.{drain-provisioned}

abbrev worker : String → ℕ → WorkerInfo
worker i used = record {
  id = i;
  name = "lambda-echo-1";
  ip_address = "10.0.0.2";
  port = 8080;
  created_at = 0;
  last_used_at = used;
}

-- The pool of a function with room for one worker.
abbrev fresh : System
fresh = start "echo" 1 0 5

abbrev provisioning : System
provisioning = step fresh (attempts 1 0 0)

abbrev leased_one : System
leased_one = step provisioning (answers (worker "a" 0) [])

-- A second task waits for the only worker.
abbrev contended : System
contended = step leased_one (attempts 2 1 2)

contended-Reach : Reach fresh contended
unfolding step init attempt provisioned count
contended-Reach =
    next (next (next here (attempts 1 0 0) tt) (answers (worker "a" 0) []) (omega arith, refl))
      (attempts 2 1 2) tt

undrained : contended.drained ≡ false
unfolding step
undrained = refl

contended_blocked : contended.pool.blocked ≡ 2 ∷ []
unfolding step init attempt provisioned has_worker any_of
contended_blocked = refl

-- After the release the worker waits for the second task, with its time of use set.
release_hands_on :
    (step (step contended (releases 3 (worker "a" 0))) (attempts 2 1 4)).leased ≡ worker "a" 3 ∷ []
unfolding step init attempt provisioned release touch remove_one has_worker any_of
release_hands_on = refl

Reach-capacity_example : length contended.pool.all_workers + contended.in_flight ≤ 1
Reach-capacity_example = Reach-capacity "echo" 1 0 5 contended contended-Reach undrained

Reach-exclusive_example :
    (count "a" contended.pool.idle_workers + count "a" contended.leased ≤ 1)
    × (count "a" contended.pool.all_workers
        ≡ count "a" contended.pool.idle_workers + count "a" contended.leased)
Reach-exclusive_example = Reach-exclusive "echo" 1 0 5 contended contended-Reach undrained "a"

Reach-no_lost_wakeup_example :
    (contended.pool.idle_workers ≡ [])
    × (length contended.pool.all_workers + contended.in_flight ≡ 1)
Reach-no_lost_wakeup_example =
    Reach-no_lost_wakeup "echo" 1 0 5 contended contended-Reach undrained
      (λ e. cc (e, contended_blocked))

run-actions_example : run 1 (actions contended-Reach) ≡ some (meaning contended)
run-actions_example = run-actions "echo" 1 0 5 contended contended-Reach undrained

abbrev two_idle : ContainerPool
two_idle = record {
  function_name = "echo";
  max_capacity = 3;
  min_capacity = 0;
  acquire_timeout = 5;
  idle_workers = worker "a" 10 ∷ worker "b" 90 ∷ [];
  all_workers = worker "c" 0 ∷ worker "a" 10 ∷ worker "b" 90 ∷ [];
  provisioning_count = pos 0;
  blocked = [];
}

-- Of the idle workers only "a" has been idle for more than 30 ticks; "c" is leased.
prune_run : prune_idle_workers 30 100 two_idle ≡ (
  record two_idle {
    idle_workers = worker "b" 90 ∷ [];
    all_workers = worker "c" 0 ∷ worker "b" 90 ∷ [];
  },
  worker "a" 10 ∷ [],
)
unfolding prune_idle_workers keep_if
prune_run = refl

prune_idle_workers_lem_example :
    let (q, pruned) = prune_idle_workers 30 100 two_idle in
    (pruned ≡ keep_if (expired 30 100) two_idle.idle_workers)
    × (q.idle_workers ≡ keep_if (λ w. not (expired 30 100 w)) two_idle.idle_workers)
    × ((i : String)
        → count i q.all_workers ≡ (if has_worker i pruned then 0 else count i two_idle.all_workers))
prune_idle_workers_lem_example = prune_idle_workers_lem 30 100 two_idle

drain-provisioned_example :
    let q = (drain two_idle).0 in
    let late = (provisioned (worker "d" 0 ∷ []) q).0 in
    ((drain two_idle).1 ≡ two_idle.all_workers)
    × (q.idle_workers ≡ [])
    × (q.all_workers ≡ [])
    × (q.blocked ≡ [])
    × (late.provisioning_count ≡ negsuc 0)
    × ((attempt 1 0 0 (record late { all_workers = two_idle.all_workers })).1 ≡ reserved)
    × ((provision_failed q).provisioning_count ≡ pos 0)
drain-provisioned_example =
    drain-provisioned two_idle (worker "d" 0) [] two_idle.all_workers 1 0 0 refl
