-- ===== src/Manager/Prune.antt =====
-- `prune_all_pools` of services/gateway/services/pool_manager.py: what a pruning deletes and forgets.
use edge_serverless_box.Base.{
  ℕ, ◌≡◌, inl, inr, refl, ap, ◌∙◌, String, Bool, true, false, ◌||◌, Option, none, some, List, [],
  ◌∷◌, ◌++◌, map, arith, eq_iff, keep_if, any_of, str_eq, if◌then◌else◌, Bool-cases,
}
use edge_serverless_box.Base.Dict.{Dict, lookup, lookup-erase}
use edge_serverless_box.Worker.{WorkerInfo, has_worker}
use edge_serverless_box.Pool.{ContainerPool, prune_idle_workers}
use edge_serverless_box.Manager.{PoolManager, has_id, discard, cancel_pause_task}
use edge_serverless_box.Manager.Sweeps.{
  if_any, prune_pools, pruned_ids, forget_workers, forget_worker, prune_all_pools,
}
use edge_serverless_box.Manager.Cleanup.{has_id-append, has_id-map}

has_id-discard :
    (i j : String) (ids : List String)
    → has_id j (discard i ids) ≡ (if str_eq i j then false else has_id j ids)
unfolding has_id discard any_of keep_if
has_id-discard i j [] = ground arith
has_id-discard i j (k ∷ ids) =
    ground (arith, has_id-discard i j ids, eq_iff i j, eq_iff k i, eq_iff k j)

-- Nothing is on record of a worker that was forgotten, and nothing comes on record meanwhile.
pub forget_workers_lem :
    (i : String) (ids : List String) (m : PoolManager)
    → (has_id i (forget_workers ids m).paused_ids
        ≡ (if has_id i ids then false else has_id i m.paused_ids))
      × (lookup i (forget_workers ids m).pause_tasks
          ≡ (if has_id i ids then none else lookup i m.pause_tasks))
      × ((forget_workers ids m).pools ≡ m.pools)
unfolding forget_workers has_id any_of forget_worker cancel_pause_task
forget_workers_lem i [] m = (refl, refl, refl)
forget_workers_lem i (k ∷ ids) m =
    forgotten i k ids m (forget_workers ids (forget_worker k m))
      (forget_workers_lem i ids (forget_worker k m))
  where
    forgotten :
        (i k : String) (ids : List String) (m n : PoolManager)
        → (has_id i n.paused_ids
            ≡ (if has_id i ids then false else has_id i (forget_worker k m).paused_ids))
          × (lookup i n.pause_tasks
              ≡ (if has_id i ids then none else lookup i (forget_worker k m).pause_tasks))
          × (n.pools ≡ (forget_worker k m).pools)
        → (has_id i n.paused_ids ≡ (if has_id i (k ∷ ids) then false else has_id i m.paused_ids))
          × (lookup i n.pause_tasks ≡ (if has_id i (k ∷ ids) then none else lookup i m.pause_tasks))
          × (n.pools ≡ m.pools)
    forgotten i k ids m n ih =
        ground (arith, ih, has_id-discard k i m.paused_ids, lookup-erase k i m.pause_tasks)

pruned_ids-if_any :
    (name : String) (ws : List WorkerInfo) (rest : Dict (List WorkerInfo))
    → pruned_ids (if_any name ws rest) ≡ map (λ w. w.id) ws ++ pruned_ids rest
unfolding pruned_ids
pruned_ids-if_any name [] rest = refl
pruned_ids-if_any name (w ∷ ws) rest = refl

has_id-pruned :
    (i name : String) (ws : List WorkerInfo) (rest : Dict (List WorkerInfo))
    → has_id i (pruned_ids (if_any name ws rest)) ≡ (has_worker i ws || has_id i (pruned_ids rest))
has_id-pruned i name ws rest = rw (pruned_ids-if_any name ws rest) (
    has_id-append i (map (λ w. w.id) ws) (pruned_ids rest)
    ∙ ap (λ b. b || has_id i (pruned_ids rest)) (has_id-map i ws))

or-true : (b : Bool) → (b || true) ≡ true
or-true true = refl
or-true false = refl

abbrev from_some : ContainerPool → Option ContainerPool → ContainerPool
from_some q none = q
from_some q (some p) = p

lookup-prune_pools :
    (timeout now : ℕ) (name i : String) (p : ContainerPool) (pools : Dict ContainerPool)
    → lookup name pools ≡ some p
    → has_worker i (prune_idle_workers timeout now p).1 ≡ true
    → let (pools', pruned) = prune_pools timeout now pools in
      (lookup name pools' ≡ some (prune_idle_workers timeout now p).0)
      × (has_id i (pruned_ids pruned) ≡ true)
unfolding lookup prune_pools
lookup-prune_pools timeout now name i p [] found given_up = cc
lookup-prune_pools timeout now name i p ((other, q) ∷ pools) found given_up =
    elim (Bool-cases (str_eq other name)) [
      | inl here ↦
          let same : q ≡ p = ap (from_some q) (rw here at found) in
          rw here (
            ap (λ (x : ContainerPool). some (prune_idle_workers timeout now x).0) same,
            has_id-pruned i other (prune_idle_workers timeout now q).1
                  (prune_pools timeout now pools).1
                ∙ ap (λ b. b || has_id i (pruned_ids (prune_pools timeout now pools).1))
                    (ap (λ (x : ContainerPool). has_worker i (prune_idle_workers timeout now x).1)
                        same
                      ∙ given_up),
          )
      | inr there ↦
          let ih = lookup-prune_pools timeout now name i p pools (rw there at found) given_up in
          rw there (
            ih.0,
            has_id-pruned i other (prune_idle_workers timeout now q).1
                  (prune_pools timeout now pools).1
                ∙ ap (λ b. has_worker i (prune_idle_workers timeout now q).1 || b) ih.1
                ∙ or-true (has_worker i (prune_idle_workers timeout now q).1),
          )
    ]

-- Pruning all pools prunes each one. A worker that a pool gives up is among the containers that the
-- agent is asked to delete, and is no longer on record as paused, nor has it a pause task.
pub prune_all_pools_lem :
    (timeout now : ℕ) (m : PoolManager) (name i : String) (p : ContainerPool)
    → lookup name m.pools ≡ some p
    → has_worker i (prune_idle_workers timeout now p).1 ≡ true
    → let (m', pruned, ids) = prune_all_pools timeout now m in
      (lookup name m'.pools ≡ some (prune_idle_workers timeout now p).0)
      × (has_id i ids ≡ true)
      × (has_id i m'.paused_ids ≡ false)
      × (lookup i m'.pause_tasks ≡ none)
prune_all_pools_lem timeout now m name i p found given_up =
    let pruned = lookup-prune_pools timeout now name i p m.pools found given_up in
    let swept = prune_pools timeout now m.pools in
    let forgot = forget_workers_lem i (pruned_ids swept.1) (record m { pools = swept.0 }) in
    unfold prune_all_pools in
    (
      ap (lookup name) forgot.2 ∙ pruned.0,
      pruned.1,
      forgot.0 ∙ (rw pruned.1),
      forgot.1 ∙ (rw pruned.1),
    )
