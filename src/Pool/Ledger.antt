-- ===== src/Pool/Ledger.antt =====
-- The pool's ledger under each operation: how many workers it holds of each id, and whether the
-- capacity is respected.
use edge_serverless_box.Base.{
  ℕ, suc, ◌+◌, ◌≤◌, ◌<◌, ◌≡◌, ◌⊎◌, inl, inr, refl, sym, ap, String, List, [], ◌∷◌, ◌++◌, arith,
  eq_iff, length, length-append, ltb, Bool-cases,
}
use edge_serverless_box.Base.Int.{pos}
use edge_serverless_box.Worker.{WorkerInfo, set_add, touch}
use edge_serverless_box.Worker.Count.{
  count, remove_one, count-append, count-without, length-without, count-touch, length-touch,
  count-remove_one, count-has_worker, set_add_fresh,
}
use mathlib.Core.List.{append-nil, append_assoc}
use edge_serverless_box.Pool.{
  ContainerPool, notify_all, Attempt, granted, reserved, waits, timed_out, has_room, attempt_idle,
  attempt_provision, attempt, wait_expired, remove_task, provision_failed, provisioned, release,
  evict, prune_one, prune_loop, Pruning, prune_idle_workers, adopt, stamped, notify_if_any,
}

-- A pool that leases out `leased`, with `in_flight` provisions under way.
pub record Consistent (p : ContainerPool) (leased : List WorkerInfo) (in_flight : ℕ) : Type 0 where
  -- a worker in the ledger is idle or leased, and never both, nor twice
  pub exact : (i : String) → count i p.all_workers ≡ count i p.idle_workers + count i leased
  pub single : (i : String) → count i p.all_workers ≤ 1
  pub counted : p.provisioning_count ≡ pos in_flight
  pub within : length p.all_workers + in_flight ≤ p.max_capacity
  -- a task is blocked only while no worker is idle and the capacity is used up
  pub awake :
      (p.blocked ≡ [])
      ⊎ ((p.idle_workers ≡ []) × (length p.all_workers + in_flight ≡ p.max_capacity))

-- What the callers hold after a pass of the loop in `acquire`.
abbrev pub leased_after : List WorkerInfo → Attempt → List WorkerInfo
leased_after l (granted w) = w ∷ l
leased_after l reserved = l
leased_after l (waits n) = l
leased_after l timed_out = l

abbrev pub in_flight_after : ℕ → Attempt → ℕ
in_flight_after n (granted w) = n
in_flight_after n reserved = n + 1
in_flight_after n (waits k) = n
in_flight_after n timed_out = n

attempt_provision-Consistent :
    (task start now : ℕ) (p : ContainerPool) (l : List WorkerInfo) (n : ℕ)
    → p.idle_workers ≡ []
    → Consistent p l n
    → let (q, a) = attempt_provision task start now p in
      Consistent q (leased_after l a) (in_flight_after n a)
unfolding attempt_provision count
attempt_provision-Consistent task start now p l n e c = record {
  exact = λ i. ground (arith, c.exact i);
  single = λ i. ground (arith, c.single i);
  counted = ground arith;
  within = ground arith;
  awake = ground arith;
}

attempt_idle-Consistent :
    (task start now : ℕ) (p : ContainerPool) (l : List WorkerInfo) (n : ℕ) (ws : List WorkerInfo)
    → p.idle_workers ≡ ws
    → Consistent p l n
    → let (q, a) = attempt_idle task start now p ws in
      Consistent q (leased_after l a) (in_flight_after n a)
attempt_idle-Consistent task start now p l n [] e c =
    unfold attempt_idle in attempt_provision-Consistent task start now p l n e c
attempt_idle-Consistent task start now p l n (w ∷ ws) e c =
    unfold attempt_idle count in
    record {
      exact = λ i. ground (arith, c.exact i, ap (count i) e);
      single = c.single;
      counted = c.counted;
      within = c.within;
      awake = ground arith;
    }

pub attempt-Consistent :
    (task start now : ℕ) (p : ContainerPool) (l : List WorkerInfo) (n : ℕ)
    → Consistent p l n
    → let (q, a) = attempt task start now p in Consistent q (leased_after l a) (in_flight_after n a)
unfolding attempt
attempt-Consistent task start now p l n c =
    attempt_idle-Consistent task start now p l n p.idle_workers refl c

remove_task-nil : (task : ℕ) (ts : List ℕ) → ts ≡ [] → remove_task task ts ≡ []
unfolding remove_task
remove_task-nil task [] e = refl
remove_task-nil task (t ∷ ts) e = ground arith

pub wait_expired-Consistent :
    (task : ℕ) (p : ContainerPool) (l : List WorkerInfo) (n : ℕ)
    → Consistent p l n
    → Consistent (wait_expired task p) l n
unfolding wait_expired
wait_expired-Consistent task p l n c = record {
  exact = c.exact;
  single = c.single;
  counted = c.counted;
  within = c.within;
  awake = ground (arith, remove_task-nil task p.blocked);
}

pub provision_failed-Consistent :
    (p : ContainerPool) (l : List WorkerInfo) (n : ℕ)
    → Consistent p l (suc n)
    → Consistent (provision_failed p) l n
unfolding provision_failed
provision_failed-Consistent p l n c = record {
  exact = λ i. ground (arith, c.exact i);
  single = λ i. ground (arith, c.single i);
  counted = ground arith;
  within = ground arith;
  awake = ground arith;
}

-- The agent's answer is a container that the pool does not hold.
pub provisioned-Consistent :
    (w : WorkerInfo) (ws : List WorkerInfo) (p : ContainerPool) (l : List WorkerInfo) (n : ℕ)
    → count w.id p.all_workers ≡ 0
    → Consistent p l (suc n)
    → Consistent (provisioned (w ∷ ws) p).0 (w ∷ l) n
unfolding provisioned count
provisioned-Consistent w ws p l n fresh c = rw (count-has_worker w.id p.all_workers fresh) (record {
  exact = λ i. ground (arith, c.exact i, count-append i p.all_workers (w ∷ []));
  single = λ i. ground (arith, c.single i, count-append i p.all_workers (w ∷ []), eq_iff w.id i);
  counted = ground arith;
  within = ground (arith, length-append p.all_workers (w ∷ []));
  awake = ground (arith, length-append p.all_workers (w ∷ []));
})

pub release-Consistent :
    (now : ℕ) (w : WorkerInfo) (p : ContainerPool) (l : List WorkerInfo) (n : ℕ)
    → 0 < count w.id l
    → Consistent p l n
    → Consistent (release now w p) (remove_one w.id l) n
unfolding release count
release-Consistent now w p l n held c = record {
  exact = λ i. ground (
    arith,
    c.exact i,
    eq_iff w.id i,
    count-touch w.id i now p.all_workers,
    count-touch w.id i now p.idle_workers,
    count-append i (touch w.id now p.idle_workers) (record w { last_used_at = now } ∷ []),
    count-remove_one w.id i l,
  );
  single = λ i. ground (arith, c.single i, count-touch w.id i now p.all_workers);
  counted = c.counted;
  within = ground (arith, length-touch w.id now p.all_workers);
  awake = inl refl;
}

pub evict-Consistent :
    (w : WorkerInfo) (p : ContainerPool) (l : List WorkerInfo) (n : ℕ)
    → 0 < count w.id l
    → Consistent p l n
    → Consistent (evict w p) (remove_one w.id l) n
unfolding evict count
evict-Consistent w p l n held c = record {
  exact = λ i. ground (
    arith,
    c.exact i,
    c.single i,
    eq_iff w.id i,
    count-without w.id i p.all_workers,
    count-without w.id i p.idle_workers,
    count-remove_one w.id i l,
  );
  single = λ i. ground (arith, c.single i, count-without w.id i p.all_workers);
  counted = c.counted;
  within = ground (arith, length-without w.id p.all_workers);
  awake = inl refl;
}

-- What the loop of `prune_idle_workers` keeps, `rest` being the idle workers still to visit.
record Sweeping (rest : List WorkerInfo) (r : Pruning) (l : List WorkerInfo) (bound : ℕ)
    : Type 0 where
  exact : (i : String) → count i r.remaining ≡ count i rest + count i r.surviving + count i l
  single : (i : String) → count i r.remaining ≤ 1
  within : length r.remaining ≤ bound

prune_one-Sweeping :
    (timeout now : ℕ) (w : WorkerInfo) (rest : List WorkerInfo) (r : Pruning) (l : List WorkerInfo)
    (bound : ℕ)
    → Sweeping (w ∷ rest) r l bound
    → Sweeping rest (prune_one timeout now w r) l bound
unfolding prune_one count
prune_one-Sweeping timeout now w rest r l bound s = record {
  exact = λ i. ground (
    arith,
    s.exact i,
    s.single i,
    eq_iff w.id i,
    count-without w.id i r.remaining,
    count-append i r.surviving (w ∷ []),
  );
  single = λ i. ground (arith, s.single i, count-without w.id i r.remaining);
  within = ground (arith, s.within, length-without w.id r.remaining);
}

prune_loop-Sweeping :
    (timeout now : ℕ) (rest : List WorkerInfo) (r : Pruning) (l : List WorkerInfo) (bound : ℕ)
    → Sweeping rest r l bound
    → Sweeping [] (prune_loop timeout now rest r) l bound
unfolding prune_loop
prune_loop-Sweeping timeout now [] r l bound s = s
prune_loop-Sweeping timeout now (w ∷ ws) r l bound s =
    prune_loop-Sweeping timeout now ws (prune_one timeout now w r) l bound
      (prune_one-Sweeping timeout now w ws r l bound s)

abbrev start_pruning : ContainerPool → Pruning
start_pruning p = record { surviving = []; pruned = []; remaining = p.all_workers }

-- What `prune_idle_workers` makes of the outcome of its loop.
abbrev pruned_pool : ContainerPool → Pruning → ContainerPool
pruned_pool p r =
    notify_if_any r.pruned (record p { idle_workers = r.surviving; all_workers = r.remaining })

pruned_pool-Consistent :
    (p : ContainerPool) (l : List WorkerInfo) (n : ℕ) (r : Pruning) (cut : List WorkerInfo)
    → r.pruned ≡ cut
    → Consistent p l n
    → Sweeping [] r l (length p.all_workers)
    → (cut ≡ [] → (r.surviving ≡ p.idle_workers) × (r.remaining ≡ p.all_workers))
    → Consistent (pruned_pool p r) l n
unfolding notify_if_any count
pruned_pool-Consistent p l n r [] e c s same = rw (e, (same refl).0, (same refl).1) c
pruned_pool-Consistent p l n r (w ∷ ws) e c s same = rw e (record {
  exact = λ i. ground (arith, s.exact i);
  single = s.single;
  counted = c.counted;
  within = omega (arith, s.within, c.within);
  awake = inl refl;
})

prune_one-nothing :
    (timeout now : ℕ) (w : WorkerInfo) (ws : List WorkerInfo) (r : Pruning)
    (surviving remaining pruned : List WorkerInfo)
    → (surviving ≡ (prune_one timeout now w r).surviving ++ ws)
      × (remaining ≡ (prune_one timeout now w r).remaining)
      × ((prune_one timeout now w r).pruned ≡ pruned)
    → pruned ≡ []
    → (surviving ≡ r.surviving ++ w ∷ ws) × (remaining ≡ r.remaining) × (r.pruned ≡ [])
unfolding prune_one
prune_one-nothing timeout now w ws r surviving remaining pruned ih e = ground (
  arith,
  append_assoc r.surviving (w ∷ []) ws,
  length-append r.pruned (w ∷ []),
  ap (length {A = WorkerInfo}) ih.2,
  ap (length {A = WorkerInfo}) e,
)

-- A loop that prunes nothing has kept every idle worker, in order.
prune_loop-nothing :
    (timeout now : ℕ) (idle : List WorkerInfo) (r : Pruning)
    → (prune_loop timeout now idle r).pruned ≡ []
    → ((prune_loop timeout now idle r).surviving ≡ r.surviving ++ idle)
      × ((prune_loop timeout now idle r).remaining ≡ r.remaining)
      × (r.pruned ≡ [])
unfolding prune_loop
prune_loop-nothing timeout now [] r h = (sym (append-nil r.surviving), refl, h)
prune_loop-nothing timeout now (w ∷ ws) r h =
    let ih = prune_loop-nothing timeout now ws (prune_one timeout now w r) h in
    prune_one-nothing timeout now w ws r _ _ [] ih refl

pub prune_idle_workers-Consistent :
    (timeout now : ℕ) (p : ContainerPool) (l : List WorkerInfo) (n : ℕ)
    → Consistent p l n
    → Consistent (prune_idle_workers timeout now p).0 l n
unfolding prune_idle_workers count
prune_idle_workers-Consistent timeout now p l n c =
    pruned_pool-Consistent p l n (prune_loop timeout now p.idle_workers (start_pruning p)) _ refl c
      (prune_loop-Sweeping timeout now p.idle_workers (start_pruning p) l (length p.all_workers)
        (record {
          exact = λ i. ground (arith, c.exact i);
          single = c.single;
          within = omega arith;
        }))
      (λ e.
        let same = prune_loop-nothing timeout now p.idle_workers (start_pruning p) e in
        (same.0, same.1))

pub has_room_lem :
    (p : ContainerPool) (n : ℕ)
    → p.provisioning_count ≡ pos n
    → has_room p ≡ ltb (length p.all_workers + n) p.max_capacity
unfolding has_room
has_room_lem p n e = ground arith

stamped-id : (now : ℕ) (w : WorkerInfo) → (stamped now w).id ≡ w.id
unfolding stamped
stamped-id now w = ground arith

adopt_new-Consistent :
    (w : WorkerInfo) (p : ContainerPool) (l : List WorkerInfo) (n : ℕ)
    → count w.id p.all_workers ≡ 0
    → length p.all_workers + n < p.max_capacity
    → Consistent p l n
    → Consistent
        (notify_all (record p {
          all_workers = set_add w p.all_workers;
          idle_workers = p.idle_workers ++ w ∷ [];
        }))
        l
        n
unfolding count
adopt_new-Consistent w p l n fresh room c = rw (set_add_fresh w p.all_workers fresh) (record {
  exact = λ i. ground (
    arith,
    c.exact i,
    count-append i p.all_workers (w ∷ []),
    count-append i p.idle_workers (w ∷ []),
  );
  single = λ i. ground (arith, c.single i, count-append i p.all_workers (w ∷ []), eq_iff w.id i);
  counted = c.counted;
  within = omega (arith, length-append p.all_workers (w ∷ []));
  awake = inl refl;
})

pub adopt-Consistent :
    (now : ℕ) (w : WorkerInfo) (p : ContainerPool) (l : List WorkerInfo) (n : ℕ)
    → count w.id p.all_workers ≡ 0
    → Consistent p l n
    → Consistent (adopt now w p) l n
unfolding adopt
adopt-Consistent now w p l n fresh c = elim (Bool-cases (has_room p)) [
  | inl room ↦ rw room (
      adopt_new-Consistent (stamped now w) p l n (rw (stamped-id now w) fresh)
        (ground (arith, has_room_lem p n c.counted, room)) c)
  | inr full ↦ rw full c
]
