-- ===== src/Manager/Acquire.antt =====
-- `acquire_worker` of services/gateway/services/pool_manager.py: its loop ends, and a worker that it
-- hands out is not paused.
use edge_serverless_box.Base.{
  ℕ, zero, suc, ◌≤◌, ◌<◌, ◌≡◌, ◌⊎◌, inl, inr, refl, ◌∙◌, subst, String, true, false, Option, none,
  some, List, [], ◌∷◌, arith, length, keep_if, any_of, str_eq_refl, Bool-cases, Result, ok, err,
}
use edge_serverless_box.Base.Dict.{lookup, lookup-erase, lookup-insert}
use edge_serverless_box.Registry.{Scaling}
use edge_serverless_box.Worker.{WorkerInfo, has_worker, without}
use edge_serverless_box.Pool.{ContainerPool, attempt, evict}
use edge_serverless_box.Manager.{
  Agent, PoolManager, has_id, discard, get_pool, keep_or_make, set_pool, cancel_pause_task,
  AcquireError, acquire_from_pool, Round, returns, continues, take_worker, with_outcome,
  acquire_round, acquire_loop, acquire_worker,
}

discard-le : (i : String) (ids : List String) → length (discard i ids) ≤ length ids
unfolding discard keep_if
discard-le i [] = omega arith
discard-le i (j ∷ ids) = ground (arith, discard-le i ids)

discard-shrinks :
    (i : String) (ids : List String) → has_id i ids ≡ true → length (discard i ids) < length ids
unfolding discard has_id keep_if any_of
discard-shrinks i [] h = cc
discard-shrinks i (j ∷ ids) h = ground (arith, discard-shrinks i ids, discard-le i ids)

has_id-discard : (i : String) (ids : List String) → has_id i (discard i ids) ≡ false
unfolding discard has_id keep_if any_of
has_id-discard i [] = refl
has_id-discard i (j ∷ ids) = ground (arith, has_id-discard i ids)

has_worker-without : (i : String) (ws : List WorkerInfo) → has_worker i (without i ws) ≡ false
unfolding has_worker without any_of keep_if
has_worker-without i [] = refl
has_worker-without i (w ∷ ws) = ground (arith, has_worker-without i ws)

-- A paused worker that the agent could not resume: it is paused no more, and its pool has it neither
-- in its ledger nor among the idle workers.
abbrev pub Evicted : Agent → String → PoolManager → PoolManager → Type 0
Evicted agent name m m' =
    (w : WorkerInfo) × (q : ContainerPool) × (has_id w.id m.paused_ids ≡ true)
    × (agent.resume_container w ≡ false)
    × (has_id w.id m'.paused_ids ≡ false)
    × (lookup name m'.pools ≡ some q)
    × (has_worker w.id q.all_workers ≡ false)
    × (has_worker w.id q.idle_workers ≡ false)

-- What a round says of the manager before and after it.
abbrev pub Progress : Agent → String → PoolManager → PoolManager × Round → Type 0
Progress agent name m (m', continues) =
    (m'.pause_enabled ≡ m.pause_enabled)
    × (length m'.paused_ids < length m.paused_ids)
    × Evicted agent name m m'
Progress agent name m (m', returns (err e)) = m'.pause_enabled ≡ m.pause_enabled
Progress agent name m (m', returns (ok w)) =
    (m'.pause_enabled ≡ m.pause_enabled)
    × ((m.pause_enabled ≡ false)
        ⊎ (has_id w.id m'.paused_ids ≡ false) × (lookup w.id m'.pause_tasks ≡ none))

take_worker-Progress :
    (agent : Agent) (name : String) (p : ContainerPool) (w : WorkerInfo) (m : PoolManager)
    → Progress agent name m (take_worker agent name p w m)
take_worker-Progress agent name p w m = elim (Bool-cases m.pause_enabled) [
  | inr off ↦ unfold take_worker in rw off (refl, inl refl)
  | inl on ↦ elim (Bool-cases (has_id w.id m.paused_ids)) [
    | inr running ↦
        unfold take_worker cancel_pause_task in
        rw (on, running)
          (refl, inr (running, lookup-erase w.id w.id m.pause_tasks ∙ (rw (str_eq_refl w.id))))
    | inl paused ↦ elim (Bool-cases (agent.resume_container w)) [
      | inl resumed ↦
          unfold take_worker cancel_pause_task in
          rw (on, paused, resumed)
            (
              refl,
              inr (
                has_id-discard w.id m.paused_ids,
                lookup-erase w.id w.id m.pause_tasks ∙ (rw (str_eq_refl w.id)),
              ),
            )
      | inr failed ↦
          unfold take_worker cancel_pause_task in
          rw (on, paused, failed)
            (
              refl,
              discard-shrinks w.id m.paused_ids paused,
              (
                w,
                evict w p,
                paused,
                failed,
                has_id-discard w.id m.paused_ids,
                lookup-insert name name (evict w p) m.pools ∙ (rw (str_eq_refl name)),
                unfold evict in has_worker-without w.id p.all_workers,
                unfold evict in has_worker-without w.id p.idle_workers,
              ),
            )
    ]
  ]
]

with_outcome-Progress :
    (agent : Agent) (name : String) (o : ContainerPool × Result AcquireError WorkerInfo)
    (m : PoolManager)
    → Progress agent name m (with_outcome agent name o m)
with_outcome-Progress agent name (p, err e) m = refl
with_outcome-Progress agent name (p, ok w) m =
    take_worker-Progress agent name p w (set_pool name p m)

keep_or_make-same :
    (second : ℕ) (config_loader : String → Scaling) (m : PoolManager) (name : String)
    (found : Option ContainerPool)
    → let m' = (keep_or_make second config_loader m name found).0 in
      (m'.pause_enabled ≡ m.pause_enabled) × (m'.paused_ids ≡ m.paused_ids)
unfolding keep_or_make
keep_or_make-same second config_loader m name (some p) = (refl, refl)
keep_or_make-same second config_loader m name none = (refl, refl)

Progress-same :
    (agent : Agent) (name : String) (m m' : PoolManager) (o : PoolManager × Round)
    → (m'.pause_enabled ≡ m.pause_enabled) × (m'.paused_ids ≡ m.paused_ids)
    → Progress agent name m' o
    → Progress agent name m o
Progress-same agent name m m' (n, continues) same (on, less, evicted) = (
  on ∙ same.0,
  ground (arith, less, same.1),
  subst (λ ids. Evicted agent name (record m { paused_ids = ids }) n) same.1 evicted,
)
Progress-same agent name m m' (n, returns (err e)) same h = ground arith
Progress-same agent name m m' (n, returns (ok w)) same h = ground arith

module _ (second : ℕ) (config_loader : String → Scaling) (agent : Agent) (name : String)
    (task now : ℕ) where
  abbrev pub round : PoolManager → PoolManager × Round
  round = acquire_round second config_loader agent name task now

  acquire_round-Progress : (m : PoolManager) → Progress agent name m (round m)
  unfolding acquire_round get_pool
  acquire_round-Progress m =
      Progress-same agent name m (get_pool second config_loader m name).0 (round m)
        (keep_or_make-same second config_loader m name (lookup name m.pools))
        (with_outcome-Progress agent name
          (acquire_from_pool agent name task
            (attempt task now now (get_pool second config_loader m name).1))
          (get_pool second config_loader m name).0)

  -- How the loop goes on after a round.
  abbrev after_round :
      ℕ → PoolManager × Round → PoolManager × Option (Result AcquireError WorkerInfo)
  after_round fuel (m', returns r) = (m', some r)
  after_round fuel (m', continues) = acquire_loop fuel second config_loader agent name task now m'

  acquire_loop-suc :
      (fuel : ℕ) (m : PoolManager)
      → acquire_loop (suc fuel) second config_loader agent name task now m
        ≡ after_round fuel (round m)
  unfolding acquire_loop
  acquire_loop-suc fuel m = after_lem fuel (round m)
    where
      after_lem :
          (fuel : ℕ) (o : PoolManager × Round)
          → elim o.1 [
            | returns result ↦ (o.0, some result)
            | continues ↦ acquire_loop fuel second config_loader agent name task now o.0
          ]
            ≡ after_round fuel o
      after_lem fuel (m', returns r) = refl
      after_lem fuel (m', continues) = refl

  -- What is known when the loop stops.
  abbrev pub Ends : PoolManager → PoolManager × Option (Result AcquireError WorkerInfo) → Type 0
  Ends m (m', none) = ⊥
  Ends m (m', some (err e)) = Unit
  Ends m (m', some (ok w)) =
      (m.pause_enabled ≡ false)
      ⊎ (has_id w.id m'.paused_ids ≡ false) × (lookup w.id m'.pause_tasks ≡ none)

  Ends-same :
      (m m' : PoolManager) (o : PoolManager × Option (Result AcquireError WorkerInfo))
      → m'.pause_enabled ≡ m.pause_enabled
      → Ends m' o
      → Ends m o
  Ends-same m m' (n, none) e h = h
  Ends-same m m' (n, some (err x)) e h = tt
  Ends-same m m' (n, some (ok w)) e h = ground arith

  acquire_loop-Ends :
      (fuel : ℕ) (m : PoolManager)
      → length m.paused_ids < fuel
      → Ends m (acquire_loop fuel second config_loader agent name task now m)
  acquire_loop-Ends zero m h = elim h [ ]
  acquire_loop-Ends (suc fuel) m h =
      rw (acquire_loop-suc fuel m)
        (after_round-Ends fuel m (round m) h (acquire_round-Progress m) (acquire_loop-Ends fuel))
    where
      after_round-Ends :
          (fuel : ℕ) (m : PoolManager) (o : PoolManager × Round)
          → length m.paused_ids < suc fuel
          → Progress agent name m o
          → ((n : PoolManager)
              → length n.paused_ids < fuel
              → Ends n (acquire_loop fuel second config_loader agent name task now n))
          → Ends m (after_round fuel o)
      after_round-Ends fuel m (m', returns (err e)) h p ih = tt
      after_round-Ends fuel m (m', returns (ok w)) h p ih = p.1
      after_round-Ends fuel m (m', continues) h p ih =
          Ends-same m m' (acquire_loop fuel second config_loader agent name task now m') p.0
            (ih m' (omega (arith, p.1)))

  -- `acquire_worker` ends, with an exception or with a worker; and if pausing is enabled that worker
  -- is not recorded as paused and has no pause task. Each round of its loop that goes on, from any
  -- state, has met a paused worker that the agent could not resume: the worker is recorded as
  -- paused no more, and has left its pool.
  pub acquire_worker-Ends :
      (m : PoolManager)
      → Ends m (acquire_worker second config_loader agent name task now m)
        × ((n : PoolManager) → Progress agent name n (round n))
  unfolding acquire_worker
  acquire_worker-Ends m =
      (acquire_loop-Ends (suc (length m.paused_ids)) m (omega arith), acquire_round-Progress)
