-- ===== src/Manager/Cleanup.antt =====
-- Which containers services/gateway/services/pool_manager.py deletes.
use edge_serverless_box.Base.{
  ℕ, ◌≤◌, ◌≡◌, inl, inr, refl, ap, ◌∙◌, String, Bool, true, false, not, ◌&&◌, ◌||◌, Option, some,
  List, [], ◌∷◌, ◌++◌, map, arith, eq_iff, length, keep_if, any_of, str_eq, Option-cases,
}
use edge_serverless_box.Base.Dict.{Dict, lookup}
use edge_serverless_box.Worker.{WorkerInfo, has_worker}
use edge_serverless_box.Pool.{ContainerPool, drain}
use edge_serverless_box.Manager.{Agent, PoolManager, has_id}
use edge_serverless_box.Manager.Sweeps.{
  known_ids, reconcile_with, is_young, delete_orphans, reconcile_orphans, drain_pools, shutdown_all,
}

pub has_id-append :
    (i : String) (xs ys : List String) → has_id i (xs ++ ys) ≡ (has_id i xs || has_id i ys)
unfolding has_id any_of
has_id-append i [] ys = refl
has_id-append i (x ∷ xs) ys = ground (arith, has_id-append i xs ys)

pub has_id-map :
    (i : String) (ws : List WorkerInfo) → has_id i (map (λ w. w.id) ws) ≡ has_worker i ws
unfolding has_id has_worker any_of
has_id-map i [] = refl
has_id-map i (w ∷ ws) = ground (arith, has_id-map i ws)

has_id-known_ids :
    (i name : String) (p : ContainerPool) (pools : Dict ContainerPool)
    → lookup name pools ≡ some p
    → has_worker i p.all_workers ≡ true
    → has_id i (known_ids pools) ≡ true
unfolding lookup known_ids
has_id-known_ids i name p [] found held = cc
has_id-known_ids i name p ((other, q) ∷ pools) found held = ground (
  arith,
  has_id-append i (map (λ w. w.id) q.all_workers) (known_ids pools),
  has_id-map i q.all_workers,
  has_id-known_ids i name p pools,
  held,
  found,
)

delete_orphans_lem :
    (agent : Agent) (now grace : ℕ) (i : String) (cs : List WorkerInfo)
    → let (ids, removed) = delete_orphans agent now grace cs in
      (has_id i ids ≡ any_of (λ c. str_eq c.id i && not (is_young now grace c)) cs)
      × (removed ≤ length ids)
unfolding delete_orphans has_id any_of
delete_orphans_lem agent now grace i [] = (refl, omega arith)
delete_orphans_lem agent now grace i (c ∷ cs) =
    let ih = delete_orphans_lem agent now grace i cs in (ground (arith, ih.0), ground (arith, ih.1))

any_of-keep_if :
    (known : List String) (now grace : ℕ) (i : String) (cs : List WorkerInfo)
    → any_of
        (λ c. str_eq c.id i && not (is_young now grace c))
        (keep_if (λ c. not (has_id c.id known)) cs)
      ≡ (any_of (λ c. str_eq c.id i && not (is_young now grace c)) cs && not (has_id i known))
unfolding any_of keep_if
any_of-keep_if known now grace i [] = refl
any_of-keep_if known now grace i (c ∷ cs) =
    ground (arith, any_of-keep_if known now grace i cs, eq_iff c.id i)

reconcile_orphans_at :
    (agent : Agent) (now grace : ℕ) (m : PoolManager) {found : Option (List WorkerInfo)}
    → agent.list_containers ≡ found
    → reconcile_orphans agent now grace m ≡ reconcile_with agent now grace m.pools found
unfolding reconcile_orphans
reconcile_orphans_at agent now grace m e = ap (reconcile_with agent now grace m.pools) e

and-false : (b : Bool) → (b && false) ≡ false
and-false true = refl
and-false false = refl

pub reconcile_orphans_lem :
    (agent : Agent) (now grace : ℕ) (m : PoolManager) (containers : List WorkerInfo) (i : String)
    → agent.list_containers ≡ some containers
    → let (ids, removed) = reconcile_orphans agent now grace m in
      (has_id i ids ≡ (
        any_of (λ c. str_eq c.id i && not (is_young now grace c)) containers
        && not (has_id i (known_ids m.pools))))
      × (removed ≤ length ids)
reconcile_orphans_lem agent now grace m containers i listed =
    let orphans = keep_if (λ c. not (has_id c.id (known_ids m.pools))) containers in
    let deleted = delete_orphans_lem agent now grace i orphans in
    rw (reconcile_orphans_at agent now grace m listed)
      (deleted.0 ∙ any_of-keep_if (known_ids m.pools) now grace i containers, deleted.1)

-- Reconciliation deletes no container of a worker that some pool manages, idle or leased.
pub reconcile_orphans-managed :
    (agent : Agent) (now grace : ℕ) (m : PoolManager) (name i : String) (p : ContainerPool)
    → lookup name m.pools ≡ some p
    → has_worker i p.all_workers ≡ true
    → has_id i (reconcile_orphans agent now grace m).0 ≡ false
reconcile_orphans-managed agent now grace m name i p found held =
    elim (Option-cases agent.list_containers) [
      | inl failed ↦
          rw (reconcile_orphans_at agent now grace m failed) (unfold has_id any_of in refl)
      | inr (containers, listed) ↦
          (reconcile_orphans_lem agent now grace m containers i listed).0
          ∙ (rw (has_id-known_ids i name p m.pools found held) (and-false _))
    ]

-- Every pool has no worker in its ledger, none idle, and no task that waits.
abbrev pub AllEmpty : Dict ContainerPool → Type 0
AllEmpty [] = Unit
AllEmpty ((name, p) ∷ pools) =
    ((p.all_workers ≡ []) × (p.idle_workers ≡ []) × (p.blocked ≡ [])) × AllEmpty pools

drain_pools_lem :
    (pools : Dict ContainerPool)
    → ((drain_pools pools).1 ≡ known_ids pools) × AllEmpty (drain_pools pools).0
unfolding drain_pools known_ids drain
drain_pools_lem [] = (refl, tt)
drain_pools_lem ((name, p) ∷ pools) =
    let ih = drain_pools_lem pools in
    (ap (◌++◌ (map (λ w. w.id) p.all_workers)) ih.0, ((refl, refl, refl), ih.1))

-- Shutting down asks the agent to delete exactly the containers of the pools' ledgers, and leaves
-- every pool with no worker in its ledger, none idle and no task waiting, and no pause task and no
-- paused container on record.
pub shutdown_all_lem :
    (m : PoolManager)
    → let (m', ids) = shutdown_all m in
      (ids ≡ known_ids m.pools) × AllEmpty m'.pools × (m'.pause_tasks ≡ []) × (m'.paused_ids ≡ [])
unfolding shutdown_all
shutdown_all_lem m = let drained = drain_pools_lem m.pools in (drained.0, drained.1, refl, refl)
