-- ===== src/Janitor/Sweep.antt =====
-- What the clean-ups of services/gateway/services/janitor.py delete and report.
use edge_serverless_box.Base.{
  ℕ, ◌≡◌, refl, sym, ap, ◌∙◌, String, Bool, true, false, some, List, [], ◌∷◌, map, arith, length,
  keep_if, any_of,
}
use edge_serverless_box.Base.Dict.{Dict, lookup}
use edge_serverless_box.Worker.{WorkerInfo, has_worker}
use edge_serverless_box.Pool.{ContainerPool, get_all_names, prune_idle_workers}
use edge_serverless_box.Manager.{Agent, PoolManager, has_id}
use edge_serverless_box.Manager.Sweeps.{
  prune_all_pools, get_all_worker_names, prune_pools, pruned_ids, forget_workers,
}
use edge_serverless_box.Manager.Prune.{forget_workers_lem}
use edge_serverless_box.Manager.Cleanup.{reconcile_orphans-managed}
use edge_serverless_box.Backend.{WorkerState}
use edge_serverless_box.Janitor.{
  HeartbeatJanitor, ResourceJanitor, heartbeats, send_heartbeat, named, evict_selected,
  cleanup_on_startup, cleanup_idle_containers, is_overdue, is_paused,
}

evict_selected_lem :
    (selected : WorkerState → Bool) (evicts : WorkerInfo → Bool) (ws : List WorkerState)
    → let (evicted, count) = evict_selected selected evicts ws in
      (evicted ≡ map named (keep_if selected ws)) × (count ≡ length (keep_if evicts evicted))
unfolding evict_selected keep_if
evict_selected_lem selected evicts [] = (refl, refl)
evict_selected_lem selected evicts (w ∷ ws) =
    let ih = evict_selected_lem selected evicts ws in (ground (arith, ih.0), ground (arith, ih.1))

-- Both clean-ups go through the whole list of workers, whatever the calls of the backend end with,
-- and count those that succeed: the one at the start asks the backend to evict exactly the paused
-- containers, in order, and the periodic one exactly those that are paused or running, have been
-- used, and were last used longer ago than the idle timeout.
pub cleanup_lem :
    (j : ResourceJanitor) (evicts : WorkerInfo → Bool) (now : ℕ) (ws : List WorkerState)
    → let (at_start, count) = cleanup_on_startup evicts ws in
      let (overdue, overdue_count) = cleanup_idle_containers j evicts now ws in
      (at_start ≡ map named (keep_if (λ w. is_paused w.status) ws))
      × (count ≡ length (keep_if evicts at_start))
      × (overdue ≡ map named (keep_if (is_overdue j now) ws))
      × (overdue_count ≡ length (keep_if evicts overdue))
unfolding cleanup_on_startup cleanup_idle_containers
cleanup_lem j evicts now ws =
    let at_start = evict_selected_lem (λ w. is_paused w.status) evicts ws in
    let overdue = evict_selected_lem (is_overdue j now) evicts ws in
    (at_start.0, at_start.1, overdue.0, overdue.1)

prune_pools-lookup :
    (timeout now : ℕ) (name : String) (p : ContainerPool) (pools : Dict ContainerPool)
    → lookup name pools ≡ some p
    → lookup name (prune_pools timeout now pools).0 ≡ some (prune_idle_workers timeout now p).0
unfolding lookup prune_pools
prune_pools-lookup timeout now name p [] found = cc
prune_pools-lookup timeout now name p ((other, q) ∷ pools) found =
    ground (arith, prune_pools-lookup timeout now name p pools, found)

lookup-get_all_worker_names :
    (name : String) (p : ContainerPool) (pools : Dict ContainerPool)
    → lookup name pools ≡ some p
    → lookup name (get_all_worker_names pools) ≡ some (get_all_names p)
unfolding lookup get_all_worker_names
lookup-get_all_worker_names name p [] found = cc
lookup-get_all_worker_names name p ((other, q) ∷ pools) found =
    ground (arith, lookup-get_all_worker_names name p pools, found)

heartbeats-lookup :
    (accepts : String → Bool) (name n : String) (ns : List String) (d : Dict (List String))
    → ((f : String) → accepts f ≡ true)
    → lookup name d ≡ some (n ∷ ns)
    → lookup name (heartbeats accepts d).0 ≡ some (n ∷ ns)
unfolding lookup heartbeats
heartbeats-lookup accepts name n ns [] all found = cc
heartbeats-lookup accepts name n ns ((other, []) ∷ d) all found =
    ground (arith, heartbeats-lookup accepts name n ns d all, found)
heartbeats-lookup accepts name n ns ((other, k ∷ ks) ∷ d) all found =
    ground (arith, heartbeats-lookup accepts name n ns d all, found, all other)

has_worker-nonempty :
    (i : String) (ws : List WorkerInfo)
    → has_worker i ws ≡ true
    → (n : String) × (ns : List String) × (map (λ w. w.name) ws ≡ n ∷ ns)
unfolding has_worker any_of
has_worker-nonempty i [] held = cc
has_worker-nonempty i (w ∷ ws) held = (w.name, map (λ v. v.name) ws, refl)

-- A worker that its pool still manages after the pruning survives a beat: its container is not
-- deleted as an orphan, whether or not there is a manager's client. If there is one, and it accepts
-- each heartbeat, the names of all workers of its pool are sent for its function.
pub send_heartbeat-managed :
    (j : HeartbeatJanitor) (agent : Agent) (accepts : String → Bool) (now grace : ℕ)
    (m : PoolManager) (name i : String) (p : ContainerPool)
    → lookup name m.pools ≡ some p
    → has_worker i (prune_idle_workers j.idle_timeout now p).0.all_workers ≡ true
    → let beat = send_heartbeat j agent accepts now grace m in
      (lookup name beat.manager.pools ≡ some (prune_idle_workers j.idle_timeout now p).0)
      × (has_id i beat.orphans ≡ false)
      × (j.manager_client ≡ true
          → ((f : String) → accepts f ≡ true)
          → lookup name beat.sent
            ≡ some (get_all_names (prune_idle_workers j.idle_timeout now p).0))
unfolding send_heartbeat prune_all_pools get_all_names
send_heartbeat-managed j agent accepts now grace m name i p found held =
    let swept = prune_pools j.idle_timeout now m.pools in
    let kept = record m { pools = swept.0 } in
    let m' = forget_workers (pruned_ids swept.1) kept in
    let p' = (prune_idle_workers j.idle_timeout now p).0 in
    let there : lookup name m'.pools ≡ some p' =
      ap (lookup name) (forget_workers_lem i (pruned_ids swept.1) kept).2
      ∙ prune_pools-lookup j.idle_timeout now name p m.pools found in
    let (n, ns, e) = has_worker-nonempty i p'.all_workers held in
    (
      there,
      reconcile_orphans-managed agent now grace m' name i p' there held,
      λ client all. rw client (
          heartbeats-lookup accepts name n ns (get_all_worker_names m'.pools) all
            (lookup-get_all_worker_names name p' m'.pools there ∙ ap some e)
          ∙ ap some (sym e)),
    )
