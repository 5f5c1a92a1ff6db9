-- ===== src/Pool/Schedule.antt =====
-- Interleavings of the tasks that share one pool (services/gateway/services/container_pool.py):
-- every `await` lets another task run, so a history is a sequence of the pool's sections. `drain`,
-- which only `shutdown_all` calls when the application stops, is one of them: it drops the ledger
-- while workers are leased and provisions under way (Pool/Drain), so the theorems on the ledger are
-- about the histories without one.
use edge_serverless_box.Base.{
  ℕ, suc, Bool, true, false, ◌+◌, ◌-◌, ◌≤◌, ◌<◌, ◌≡◌, ◌≢◌, inl, refl, ◌∙◌, subst, String, List, [],
  ◌∷◌, arith, length,
}
use edge_serverless_box.Worker.{WorkerInfo}
use edge_serverless_box.Worker.Count.{count, remove_one}
use edge_serverless_box.Pool.{
  ContainerPool, init, attempt, wait_expired, provision_failed, provisioned, release, evict,
  prune_idle_workers, adopt, drain, attempt_idle, attempt_provision, notify_if_any,
}
use edge_serverless_box.Pool.Ledger.{
  Consistent, leased_after, in_flight_after, attempt-Consistent, wait_expired-Consistent,
  provision_failed-Consistent, provisioned-Consistent, release-Consistent, evict-Consistent,
  prune_idle_workers-Consistent, adopt-Consistent,
}

-- The pool, the workers that its callers hold, the number of provisions under way, and whether the
-- pool was drained.
pub record System : Type 0 where
  pub pool : ContainerPool
  pub leased : List WorkerInfo
  pub in_flight : ℕ
  pub drained : Bool

pub data Event : Type 0 where
  -- a task, which called `acquire` at the first time, makes a pass of its loop at the second
  attempts : ℕ → ℕ → ℕ → Event
  gives_up : ℕ → Event
  -- the provision callback answers, or raises
  answers : WorkerInfo → List WorkerInfo → Event
  fails : Event
  releases : ℕ → WorkerInfo → Event
  evicts : WorkerInfo → Event
  prunes : ℕ → ℕ → Event
  adopts : ℕ → WorkerInfo → Event
  -- the application stops
  drains : Event

unfoldable pub step : System → Event → System
step s (attempts task start now) =
    let (q, a) = attempt task start now s.pool in
    record s {
      pool = q;
      leased = leased_after s.leased a;
      in_flight = in_flight_after s.in_flight a;
    }
step s (gives_up task) = record s { pool = wait_expired task s.pool }
step s (answers w ws) = record s {
  pool = (provisioned (w ∷ ws) s.pool).0;
  leased = w ∷ s.leased;
  in_flight = s.in_flight - 1;
}
step s fails = record s { pool = provision_failed s.pool; in_flight = s.in_flight - 1 }
step s (releases now w) = record s {
  pool = release now w s.pool;
  leased = remove_one w.id s.leased;
}
step s (evicts w) = record s { pool = evict w s.pool; leased = remove_one w.id s.leased }
step s (prunes timeout now) = record s { pool = (prune_idle_workers timeout now s.pool).0 }
step s (adopts now w) = record s { pool = adopt now w s.pool }
step s drains = record s { pool = (drain s.pool).0; drained = true }

-- What the callers and the agent keep to: a provision is answered once, with a container that the
-- pool does not hold, and a worker is released or evicted by a task that holds it.
abbrev pub Allowed : System → Event → Type 0
Allowed s (attempts task start now) = Unit {0}
Allowed s (gives_up task) = Unit {0}
Allowed s (answers w ws) = (0 < s.in_flight) × (count w.id s.pool.all_workers ≡ 0)
Allowed s fails = 0 < s.in_flight
Allowed s (releases now w) = 0 < count w.id s.leased
Allowed s (evicts w) = 0 < count w.id s.leased
Allowed s (prunes timeout now) = Unit {0}
Allowed s (adopts now w) = count w.id s.pool.all_workers ≡ 0
Allowed s drains = Unit {0}

pub data Reach (s : System) : System → Type 0 where
  here : Reach s s
  next : {t : System} → Reach s t → (e : Event) → Allowed t e → Reach s (step t e)

abbrev pub IsConsistent : System → Type 0
IsConsistent s = Consistent s.pool s.leased s.in_flight

-- Nothing is leased and nothing is under way in a new pool.
abbrev pub start : String → ℕ → ℕ → ℕ → System
start name max_capacity min_capacity timeout = record {
  pool = init name max_capacity min_capacity timeout;
  leased = [];
  in_flight = 0;
  drained = false;
}

pub start-IsConsistent :
    (name : String) (hi lo timeout : ℕ) → IsConsistent (start name hi lo timeout)
unfolding init count
start-IsConsistent name hi lo timeout = record {
  exact = λ i. refl;
  single = λ i. omega arith;
  counted = refl;
  within = omega arith;
  awake = inl refl;
}

positive : (n : ℕ) → 0 < n → n ≡ suc (n - 1)
positive n h = omega arith

-- A section that leaves the pool without a drain found it so.
pub drained-step : (s : System) (e : Event) → (step s e).drained ≡ false → s.drained ≡ false
unfolding step
drained-step s drains h = cc
drained-step s (attempts task start now) h = h
drained-step s (gives_up task) h = h
drained-step s (answers w ws) h = h
drained-step s fails h = h
drained-step s (releases now w) h = h
drained-step s (evicts w) h = h
drained-step s (prunes timeout now) h = h
drained-step s (adopts now w) h = h

step-IsConsistent :
    (s : System) (e : Event)
    → Allowed s e
    → (step s e).drained ≡ false
    → IsConsistent s
    → IsConsistent (step s e)
unfolding step
step-IsConsistent s drains a h c = cc
step-IsConsistent s (attempts task start now) a h c =
    attempt-Consistent task start now s.pool s.leased s.in_flight c
step-IsConsistent s (gives_up task) a h c =
    wait_expired-Consistent task s.pool s.leased s.in_flight c
step-IsConsistent s (answers w ws) a h c =
    provisioned-Consistent w ws s.pool s.leased (s.in_flight - 1) a.1
      (subst (Consistent s.pool s.leased) (positive s.in_flight a.0) c)
step-IsConsistent s fails a h c =
    provision_failed-Consistent s.pool s.leased (s.in_flight - 1)
      (subst (Consistent s.pool s.leased) (positive s.in_flight a) c)
step-IsConsistent s (releases now w) a h c =
    release-Consistent now w s.pool s.leased s.in_flight a c
step-IsConsistent s (evicts w) a h c = evict-Consistent w s.pool s.leased s.in_flight a c
step-IsConsistent s (prunes timeout now) a h c =
    prune_idle_workers-Consistent timeout now s.pool s.leased s.in_flight c
step-IsConsistent s (adopts now w) a h c = adopt-Consistent now w s.pool s.leased s.in_flight a c

pub Reach-IsConsistent :
    {s t : System} → IsConsistent s → Reach s t → t.drained ≡ false → IsConsistent t
Reach-IsConsistent c here h = c
Reach-IsConsistent c (next {t = t} r e a) h =
    step-IsConsistent t e a h (Reach-IsConsistent c r (drained-step t e h))

max_capacity-attempt_idle :
    (task start now : ℕ) (p : ContainerPool) (idle : List WorkerInfo)
    → (attempt_idle task start now p idle).0.max_capacity ≡ p.max_capacity
unfolding attempt_idle
max_capacity-attempt_idle task start now p [] = unfold attempt_provision in ground arith
max_capacity-attempt_idle task start now p (w ∷ ws) = refl

-- No section changes the capacity.
max_capacity-step : (s : System) (e : Event) → (step s e).pool.max_capacity ≡ s.pool.max_capacity
unfolding step attempt provisioned release evict adopt prune_idle_workers notify_if_any wait_expired
max_capacity-step s (attempts task start now) = max_capacity-attempt_idle task start now s.pool _
max_capacity-step s (gives_up task) = refl
max_capacity-step s (answers w ws) = refl
max_capacity-step s drains = unfold drain in refl
max_capacity-step s fails = unfold provision_failed in ground arith
max_capacity-step s (releases now w) = refl
max_capacity-step s (evicts w) = refl
max_capacity-step s (prunes timeout now) = ground arith
max_capacity-step s (adopts now w) = ground arith

pub max_capacity-Reach : {s t : System} → Reach s t → t.pool.max_capacity ≡ s.pool.max_capacity
max_capacity-Reach here = refl
max_capacity-Reach (next {t = t} r e a) = max_capacity-step t e ∙ max_capacity-Reach r

module _ (name : String) (hi lo timeout : ℕ) (s : System) (r : Reach (start name hi lo timeout) s)
    (undrained : s.drained ≡ false) where
  consistent : IsConsistent s
  consistent = Reach-IsConsistent (start-IsConsistent name hi lo timeout) r undrained

  -- In every history without a drain the pool's workers, idle or leased, and its provisions under way are
  -- together at most the capacity that it was created with.
  pub Reach-capacity : length s.pool.all_workers + s.in_flight ≤ hi
  unfolding init
  Reach-capacity = omega (arith, consistent.within, max_capacity-Reach r)

  -- In every history without a drain no container is leased to two callers, nor leased while it is idle, and the
  -- ledger holds exactly the idle and the leased workers.
  pub Reach-exclusive :
      (i : String)
      → (count i s.pool.idle_workers + count i s.leased ≤ 1)
        × (count i s.pool.all_workers ≡ count i s.pool.idle_workers + count i s.leased)
  Reach-exclusive i = (omega (arith, consistent.exact i, consistent.single i), consistent.exact i)

  -- In every history without a drain a task is blocked in `acquire` only while no worker is idle and the capacity
  -- is used up: every section that frees either of them wakes the waiting tasks.
  pub Reach-no_lost_wakeup :
      s.pool.blocked ≢ []
      → (s.pool.idle_workers ≡ []) × (length s.pool.all_workers + s.in_flight ≡ hi)
  unfolding init
  Reach-no_lost_wakeup blocked = ground (arith, consistent.awake, max_capacity-Reach r)
