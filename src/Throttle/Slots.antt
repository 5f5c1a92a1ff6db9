-- ===== src/Throttle/Slots.antt =====
-- The slots of a throttle (services/gateway/core/concurrency.py) over every interleaving: how many
-- tasks run at once, who gets a slot that comes back, and how a slot is lost.
use edge_serverless_box.Base.{
  ℕ, zero, suc, ◌+◌, ◌-◌, ◌≤◌, ◌<◌, ◌≡◌, ◌⊎◌, refl, ap, ◌∙◌, false, Option, none, some, List, [],
  ◌∷◌, map, arith, length, if◌then◌else◌,
}
use edge_serverless_box.Throttle.{
  Waiter, FunctionThrottle, Entry, entered, queued, enter, cancel_future, remove_waiter, wait_ends,
  forget, release_to, release, new_throttle,
}

-- A throttle with the number of tasks that hold a slot, and of slots that no task holds any more
-- although the throttle counts them.
pub record Slots : Type 0 where
  pub throttle : FunctionThrottle
  pub holders : ℕ
  pub lost : ℕ

pub data Event : Type 0 where
  -- a task calls `acquire`
  enters : ℕ → Event
  -- its wait times out or is cancelled; then its handler removes its waiter
  wait_ends_of : ℕ → Event
  forgets : ℕ → Event
  -- a task that was handed a slot is cancelled before it runs on
  abandons : Event
  releases : Event

abbrev holders_after_enter : ℕ → Entry → ℕ
holders_after_enter n entered = n + 1
holders_after_enter n queued = n

-- Who holds a slot after a release by a holder: one fewer task, unless one is woken.
abbrev handed : ℕ → Option ℕ → ℕ
handed n none = n - 1
handed n (some task) = n

-- A release that takes a waiter out of the deque and wakes no one loses its slot.
abbrev lost_by_release : List Waiter → Option ℕ → ℕ
lost_by_release ws (some task) = 0
lost_by_release [] none = 0
lost_by_release (w ∷ ws) none = 1

unfoldable pub step : Slots → Event → Slots
step s (enters task) =
    let (t, e) = enter task s.throttle in
    record s { throttle = t; holders = holders_after_enter s.holders e }
step s (wait_ends_of task) = record s { throttle = wait_ends task s.throttle }
step s (forgets task) = record s { throttle = forget task s.throttle }
step s abandons = record s { holders = s.holders - 1; lost = s.lost + 1 }
step s releases =
    let (t, woken) = release s.throttle in
    record {
      throttle = t;
      holders = handed s.holders woken;
      lost = s.lost + lost_by_release s.throttle.waiters woken;
    }

-- Only a task that holds a slot gives it back or loses it.
abbrev pub Allowed : Slots → Event → Type 0
Allowed s (enters task) = Unit {0}
Allowed s (wait_ends_of task) = Unit {0}
Allowed s (forgets task) = Unit {0}
Allowed s abandons = 0 < s.holders
Allowed s releases = 0 < s.holders

pub data Reach (s : Slots) : Slots → Type 0 where
  here : Reach s s
  next : {t : Slots} → Reach s t → (e : Event) → Allowed t e → Reach s (step t e)

pub record Counted (s : Slots) : Type 0 where
  pub exact : s.throttle.current ≡ s.holders + s.lost
  pub bounded : s.throttle.current ≤ s.throttle.limit
  pub saturated : (s.throttle.waiters ≡ []) ⊎ (s.throttle.current ≡ s.throttle.limit)

cancel_future-nil : (task : ℕ) (ws : List Waiter) → ws ≡ [] → cancel_future task ws ≡ []
unfolding cancel_future
cancel_future-nil task [] e = refl
cancel_future-nil task (w ∷ ws) e = ground arith

remove_waiter-nil : (task : ℕ) (ws : List Waiter) → ws ≡ [] → remove_waiter task ws ≡ []
unfolding remove_waiter
remove_waiter-nil task [] e = refl
remove_waiter-nil task (w ∷ ws) e = ground arith

release_to-Counted :
    (t : FunctionThrottle) (holders lost : ℕ) (ws : List Waiter)
    → t.waiters ≡ ws
    → 0 < holders
    → Counted (record { throttle = t; holders = holders; lost = lost })
    → let (u, woken) = release_to t ws in
      Counted (record {
        throttle = u;
        holders = handed holders woken;
        lost = lost + lost_by_release ws woken;
      })
unfolding release_to
release_to-Counted t holders lost [] e h c = ground arith
release_to-Counted t holders lost (w ∷ ws) e h c = ground arith

step-Counted : (s : Slots) (e : Event) → Allowed s e → Counted s → Counted (step s e)
unfolding step enter wait_ends forget release
step-Counted s (enters task) a c = ground arith
step-Counted s (wait_ends_of task) a c = ground (arith, cancel_future-nil task s.throttle.waiters)
step-Counted s (forgets task) a c = ground (arith, remove_waiter-nil task s.throttle.waiters)
step-Counted s abandons a c = ground arith
step-Counted s releases a c =
    release_to-Counted s.throttle s.holders s.lost s.throttle.waiters refl a c

Reach-Counted : {s t : Slots} → Counted s → Reach s t → Counted t
Reach-Counted c here = c
Reach-Counted c (next {t = t} r e a) = step-Counted t e a (Reach-Counted c r)

limit-release_to : (t : FunctionThrottle) (ws : List Waiter) → (release_to t ws).0.limit ≡ t.limit
unfolding release_to
limit-release_to t [] = ground arith
limit-release_to t (w ∷ ws) = refl

limit-step : (s : Slots) (e : Event) → (step s e).throttle.limit ≡ s.throttle.limit
unfolding step enter wait_ends forget release
limit-step s (enters task) = ground arith
limit-step s (wait_ends_of task) = refl
limit-step s (forgets task) = refl
limit-step s abandons = refl
limit-step s releases = limit-release_to s.throttle s.throttle.waiters

limit-Reach : {s t : Slots} → Reach s t → t.throttle.limit ≡ s.throttle.limit
limit-Reach here = refl
limit-Reach (next {t = t} r e a) = limit-step t e ∙ limit-Reach r

abbrev pub start : ℕ → ℕ → Slots
start limit timeout = record { throttle = new_throttle limit timeout; holders = 0; lost = 0 }

start-Counted : (limit timeout : ℕ) → Counted (start limit timeout)
unfolding new_throttle
start-Counted limit timeout = ground arith

-- In every interleaving at most `limit` tasks hold a slot, the throttle's count is the number of
-- holders and of lost slots, and a task waits only while the count has reached the limit.
pub Reach-bounded :
    (limit timeout : ℕ) (s : Slots)
    → Reach (start limit timeout) s
    → (s.holders ≤ limit)
      × (s.throttle.current ≡ s.holders + s.lost)
      × ((s.throttle.waiters ≡ []) ⊎ (s.throttle.current ≡ limit))
unfolding new_throttle
Reach-bounded limit timeout s r =
    ground (arith, Reach-Counted (start-Counted limit timeout) r, limit-Reach r)

-- The waiters of tasks that still wait.
abbrev pub AllPending : List Waiter → Type 0
AllPending [] = Unit
AllPending (w ∷ ws) = (w.done ≡ false) × AllPending ws

abbrev pub woken_by : List (Option ℕ) → List ℕ
woken_by [] = []
woken_by (none ∷ r) = woken_by r
woken_by (some task ∷ r) = task ∷ woken_by r

-- The answers of so many releases in a row, and the throttle after them.
unfoldable pub releases_in_a_row : ℕ → FunctionThrottle → FunctionThrottle × List (Option ℕ)
releases_in_a_row zero t = (t, [])
releases_in_a_row (suc n) t =
    let (u, woken) = release t in let (v, rest) = releases_in_a_row n u in (v, woken ∷ rest)

release_cons :
    (t : FunctionThrottle) (w : Waiter) (ws : List Waiter)
    → t.waiters ≡ w ∷ ws
    → release t ≡ (record t { waiters = ws }, if w.done then none else some w.task)
unfolding release release_to
release_cons t w ws e = ap (release_to t) e

release_pending :
    (t : FunctionThrottle) (w : Waiter) (ws : List Waiter)
    → t.waiters ≡ w ∷ ws
    → w.done ≡ false
    → release t ≡ (record t { waiters = ws }, some w.task)
release_pending t w ws e pending = release_cons t w ws e ∙ (rw pending)

releases_suc :
    (n : ℕ) (t u : FunctionThrottle) (woken : Option ℕ)
    → release t ≡ (u, woken)
    → releases_in_a_row (suc n) t ≡ ((releases_in_a_row n u).0, woken ∷ (releases_in_a_row n u).1)
unfolding releases_in_a_row
releases_suc n t u woken e =
    ap
      (λ (r : FunctionThrottle × Option ℕ).
        ((releases_in_a_row n r.0).0, r.1 ∷ (releases_in_a_row n r.0).1))
      e

-- With every waiter still waiting, as many releases wake them all in the order in which they
-- queued up, and hand each one a slot: the count stays.
pub releases_fifo :
    (ws : List Waiter) (t : FunctionThrottle)
    → AllPending ws
    → t.waiters ≡ ws
    → let (u, woken) = releases_in_a_row (length ws) t in
      (woken_by woken ≡ map (λ w. w.task) ws) × (u.waiters ≡ []) × (u.current ≡ t.current)
releases_fifo [] t p e = unfold releases_in_a_row in (refl, e, refl)
releases_fifo (w ∷ ws) t p e =
    let (order, empty, count) = releases_fifo ws (record t { waiters = ws }) p.1 refl in
    rw (releases_suc (length ws) t _ _ (release_pending t w ws e p.0))
      (ap (◌∷◌ w.task) order, empty, count)

lost-step : (s : Slots) (e : Event) → s.lost ≤ (step s e).lost
unfolding step
lost-step s (enters task) = omega arith
lost-step s (wait_ends_of task) = omega arith
lost-step s (forgets task) = omega arith
lost-step s abandons = omega arith
lost-step s releases = omega arith

lost-Reach : {s t : Slots} → Reach s t → s.lost ≤ t.lost
lost-Reach here = omega arith
lost-Reach (next {t = t} r e a) = omega (arith, lost-Reach r, lost-step t e)

-- Once no task holds a slot although the throttle counts as many as its limit, it stays so: after
-- any later history no task holds a slot, and each task that calls `acquire` queues.
pub lost_for_good :
    (limit timeout task : ℕ) (s t : Slots)
    → Reach (start limit timeout) s
    → s.holders ≡ 0
    → s.throttle.current ≡ limit
    → Reach s t
    → ((enter task t.throttle).1 ≡ queued) × (t.holders ≡ 0)
unfolding enter new_throttle
lost_for_good limit timeout task s t r idle counted later =
    let before = Reach-Counted (start-Counted limit timeout) r in
    let c = Reach-Counted before later in
    ground (arith, before, c, limit-Reach r, limit-Reach later, lost-Reach later)
