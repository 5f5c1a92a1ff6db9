-- ===== src/Pool/Prune.antt =====
-- `prune_idle_workers` and the loop of `acquire` in services/gateway/services/container_pool.py,
-- against what they are meant to do.
use edge_serverless_box.Base.{
  ℕ, ◌+◌, ◌≤◌, ◌<◌, ◌≡◌, inl, inr, refl, sym, ap, ◌∙◌, String, true, false, not, List, [], ◌∷◌,
  ◌++◌, arith, eq_iff, keep_if, any_of, leb, if◌then◌else◌, Bool-cases,
}
use edge_serverless_box.Base.Int.{pos, ◌+ℤ◌}
use edge_serverless_box.Worker.{WorkerInfo, has_worker}
use edge_serverless_box.Worker.Count.{count, count-without}
use edge_serverless_box.Pool.{
  ContainerPool, Attempt, granted, reserved, waits, timed_out, has_room, attempt, attempt_idle,
  attempt_provision, expired, Pruning, prune_one, prune_loop, prune_idle_workers, notify_if_any,
}
use mathlib.Core.List.{append-nil, append_assoc}

prune_loop_lem :
    (timeout now : ℕ) (idle : List WorkerInfo) (r : Pruning)
    → let q = prune_loop timeout now idle r in
      (q.pruned ≡ r.pruned ++ keep_if (expired timeout now) idle)
      × (q.surviving ≡ r.surviving ++ keep_if (λ w. not (expired timeout now w)) idle)
unfolding prune_loop keep_if
prune_loop_lem timeout now [] r = (sym (append-nil r.pruned), sym (append-nil r.surviving))
prune_loop_lem timeout now (w ∷ ws) r =
    let ih = prune_loop_lem timeout now ws (prune_one timeout now w r) in
    unfold prune_one in
    ground (
      arith,
      ih,
      append_assoc r.pruned (w ∷ []) (keep_if (expired timeout now) ws),
      append_assoc r.surviving (w ∷ []) (keep_if (λ w. not (expired timeout now w)) ws),
    )

count-prune_loop :
    (timeout now : ℕ) (i : String) (idle : List WorkerInfo) (r : Pruning)
    → count i (prune_loop timeout now idle r).remaining
      ≡ (if has_worker i (keep_if (expired timeout now) idle) then 0 else count i r.remaining)
unfolding prune_loop keep_if has_worker any_of
count-prune_loop timeout now i [] r = refl
count-prune_loop timeout now i (w ∷ ws) r =
    let ih = count-prune_loop timeout now i ws (prune_one timeout now w r) in
    unfold prune_one in ground (arith, ih, count-without w.id i r.remaining, eq_iff w.id i)

notify_if_any-fields :
    (ws : List WorkerInfo) (p : ContainerPool)
    → ((notify_if_any ws p).idle_workers ≡ p.idle_workers)
      × ((notify_if_any ws p).all_workers ≡ p.all_workers)
unfolding notify_if_any
notify_if_any-fields [] p = (refl, refl)
notify_if_any-fields (w ∷ ws) p = (refl, refl)

-- Pruning returns the idle workers whose last use is more than the timeout ago, in the order of the
-- queue; the other idle workers stay, in their order; and the ledger loses exactly the workers
-- that are returned.
pub prune_idle_workers_lem :
    (timeout now : ℕ) (p : ContainerPool)
    → let (q, pruned) = prune_idle_workers timeout now p in
      (pruned ≡ keep_if (expired timeout now) p.idle_workers)
      × (q.idle_workers ≡ keep_if (λ w. not (expired timeout now w)) p.idle_workers)
      × ((i : String)
          → count i q.all_workers ≡ (if has_worker i pruned then 0 else count i p.all_workers))
unfolding prune_idle_workers
prune_idle_workers_lem timeout now p =
    let start : Pruning = record { surviving = []; pruned = []; remaining = p.all_workers } in
    let swept = prune_loop_lem timeout now p.idle_workers start in
    let kept = notify_if_any-fields (prune_loop timeout now p.idle_workers start).pruned (record p {
      idle_workers = (prune_loop timeout now p.idle_workers start).surviving;
      all_workers = (prune_loop timeout now p.idle_workers start).remaining;
    }) in
    (
      swept.0,
      kept.0 ∙ swept.1,
      λ i.
          ap (count i) kept.1
          ∙ count-prune_loop timeout now i p.idle_workers start
          ∙ ap (λ ws. if has_worker i ws then 0 else count i p.all_workers) (sym swept.0),
    )

-- What the outcome of a pass of `acquire`'s loop says of the pool `p` before and `q` after it.
abbrev pub Explains : (start now : ℕ) (p q : ContainerPool) → Attempt → Type 0
Explains start now p q (granted w) = p.idle_workers ≡ w ∷ q.idle_workers
Explains start now p q reserved =
    (p.idle_workers ≡ [])
    × (has_room p ≡ true)
    × (q.provisioning_count ≡ p.provisioning_count +ℤ pos 1)
    × (q.all_workers ≡ p.all_workers)
Explains start now p q (waits n) =
    (p.idle_workers ≡ []) × (has_room p ≡ false) × (now + n ≡ start + p.acquire_timeout) × (0 < n)
Explains start now p q timed_out =
    (p.idle_workers ≡ []) × (has_room p ≡ false) × (start + p.acquire_timeout ≤ now) × (q ≡ p)

attempt_idle-Explains :
    (task start now : ℕ) (p : ContainerPool) (idle : List WorkerInfo)
    → p.idle_workers ≡ idle
    → let (q, a) = attempt_idle task start now p idle in Explains start now p q a
attempt_idle-Explains task start now p (w ∷ ws) e = unfold attempt_idle in e
attempt_idle-Explains task start now p [] e = elim (Bool-cases (has_room p)) [
  | inl room ↦ unfold attempt_idle attempt_provision in rw room (e, room, refl, refl)
  | inr full ↦ elim (Bool-cases (leb (start + p.acquire_timeout) now)) [
    | inl late ↦
        unfold attempt_idle attempt_provision in rw (full, late) (e, full, ground arith, refl)
    | inr early ↦
        unfold attempt_idle attempt_provision in
        rw (full, early) (e, full, ground arith, ground arith)
  ]
]

-- A pass of `acquire`'s loop takes the worker that has been idle longest; provisions only if no
-- worker is idle and there is room, with one slot more reserved; waits only if there is no room,
-- and exactly until the deadline; and times out only if there is no room and the deadline is past,
-- with the pool unchanged.
pub attempt-Explains :
    (task start now : ℕ) (p : ContainerPool)
    → let (q, a) = attempt task start now p in Explains start now p q a
unfolding attempt
attempt-Explains task start now p = attempt_idle-Explains task start now p p.idle_workers refl
