-- ===== src/Pool/Refines.antt =====
-- The pool of services/gateway/services/container_pool.py does what its specification says, in every
-- order in which its tasks run.
use edge_serverless_box.Base.{
  ℕ, suc, ◌+◌, ◌<◌, ◌≡◌, inl, inr, refl, sym, ap, ◌∙◌, subst, String, Bool, true, false, not,
  Option, some, List, [], ◌∷◌, ◌++◌, map, arith, eq_iff, length, length-append, keep_if, any_of,
  str_eq_refl, ltb, if◌then◌else◌, Bool-cases,
}
use edge_serverless_box.Worker.{WorkerInfo, without, touch}
use edge_serverless_box.Worker.Count.{count, remove_one, count-remove_one, count-append}
use edge_serverless_box.Base.Int.{◌+ℤ◌}
use edge_serverless_box.Pool.{
  Attempt, granted, reserved, waits, timed_out, init, has_room, attempt, attempt_idle,
  attempt_provision, wait_expired, provision_failed, provisioned, release, evict, adopt, expired,
  stamped,
}
use edge_serverless_box.Pool.Ledger.{leased_after, in_flight_after}
use edge_serverless_box.Pool.Schedule.{
  System, Event, attempts, gives_up, answers, fails, releases, evicts, prunes, adopts, drains,
  drained-step, Allowed, Reach, here, next, start, IsConsistent, start-IsConsistent,
  Reach-IsConsistent, max_capacity-Reach,
}
use edge_serverless_box.Pool.Schedule
use edge_serverless_box.Pool.Prune.{prune_idle_workers_lem}
use edge_serverless_box.Pool.Spec
use edge_serverless_box.Pool.Spec.{
  Spec, Action, lease, reserve, refuse, arrive, abandon, give_back, drop, prune, nothing, has_id,
  remove_id, masked, size, run,
}

-- The ids of workers, in order.
abbrev pub ids : List WorkerInfo → List String
ids ws = map (λ w. w.id) ws

-- What a pool, its leases and its provisions under way are in the specification.
abbrev pub meaning : System → Spec
meaning s = record { idle = ids s.pool.idle_workers; leased = ids s.leased; reserved = s.in_flight }

has_id-count : (i : String) (ws : List WorkerInfo) → count i ws ≡ 0 → has_id i (ids ws) ≡ false
unfolding count any_of
has_id-count i [] h = refl
has_id-count i (w ∷ ws) h = ground (arith, has_id-count i ws)

count-has_id : (i : String) (ws : List WorkerInfo) → 0 < count i ws → has_id i (ids ws) ≡ true
unfolding count any_of
count-has_id i [] h = elim h [ ]
count-has_id i (w ∷ ws) h = ground (arith, count-has_id i ws)

ids-remove_one : (i : String) (ws : List WorkerInfo) → ids (remove_one i ws) ≡ remove_id i (ids ws)
unfolding remove_one remove_id
ids-remove_one i [] = refl
ids-remove_one i (w ∷ ws) = ground (arith, ids-remove_one i ws)

ids-touch : (i : String) (now : ℕ) (ws : List WorkerInfo) → ids (touch i now ws) ≡ ids ws
unfolding touch
ids-touch i now [] = refl
ids-touch i now (w ∷ ws) = ground (arith, ids-touch i now ws)

ids-append : (xs ys : List WorkerInfo) → ids (xs ++ ys) ≡ ids xs ++ ids ys
ids-append [] ys = refl
ids-append (x ∷ xs) ys = ap (λ (is : List String). x.id ∷ is) (ids-append xs ys)

without-absent : (i : String) (ws : List WorkerInfo) → count i ws ≡ 0 → without i ws ≡ ws
unfolding count without keep_if
without-absent i [] h = refl
without-absent i (w ∷ ws) h = ground (arith, without-absent i ws)

length-ids : (ws : List WorkerInfo) → length (ids ws) ≡ length ws
length-ids [] = refl
length-ids (w ∷ ws) = ap suc (length-ids ws)

length-remove_one :
    (i : String) (ws : List WorkerInfo)
    → 0 < count i ws
    → suc (length (remove_one i ws)) ≡ length ws
unfolding count remove_one
length-remove_one i [] h = elim h [ ]
length-remove_one i (w ∷ ws) h = ground (arith, length-remove_one i ws)

-- Lists that hold each id as often are as long.
length-count :
    (xs ys : List WorkerInfo) → ((i : String) → count i xs ≡ count i ys) → length xs ≡ length ys
unfolding count
length-count [] [] same = refl
length-count [] (y ∷ ys) same = ground (arith, same y.id, eq_iff y.id y.id)
length-count (x ∷ xs) ys same =
    ap suc (
      length-count xs (remove_one x.id ys)
        λ i. ground (arith, same i, same x.id, count-remove_one x.id i ys, eq_iff x.id i))
    ∙ length-remove_one x.id ys (ground (arith, same x.id, str_eq_refl x.id))

masked-keep_if :
    (keep : WorkerInfo → Bool) (ws : List WorkerInfo)
    → masked (map keep ws) (ids ws) ≡ some (ids (keep_if keep ws))
unfolding masked keep_if
masked-keep_if keep [] = refl
masked-keep_if keep (w ∷ ws) = ground (arith, masked-keep_if keep ws)

-- The ledger is as long as the idle and the leased workers together.
length-ledger :
    (s : System) → IsConsistent s → size (meaning s) ≡ length s.pool.all_workers + s.in_flight
length-ledger s c = omega (
  arith,
  length-ids s.pool.idle_workers,
  length-ids s.leased,
  length-append s.pool.idle_workers s.leased,
  length-count s.pool.all_workers (s.pool.idle_workers ++ s.leased)
      λ i. c.exact i ∙ sym (count-append i s.pool.idle_workers s.leased),
)

abbrev action_of_attempt : Attempt → Action
action_of_attempt (granted w) = lease
action_of_attempt reserved = reserve
action_of_attempt (waits n) = refuse
action_of_attempt timed_out = refuse

-- The action of the specification that a section of the code performs; it has none for a drain.
unfoldable pub action_of : System → Event → Action
action_of s (attempts task start now) = action_of_attempt (attempt task start now s.pool).1
action_of s (gives_up task) = nothing
action_of s (answers w ws) = arrive w.id
action_of s fails = abandon
action_of s (releases now w) = give_back w.id
action_of s (evicts w) = drop w.id
action_of s (prunes timeout now) =
    prune (map (λ w. not (expired timeout now w)) s.pool.idle_workers)
action_of s drains = nothing
action_of s (adopts now w) = if has_room s.pool then Spec.adopt w.id else nothing

attempt_provision-simulates :
    (s : System) (task start now : ℕ)
    → IsConsistent s
    → s.pool.idle_workers ≡ []
    → let (q, a) = attempt_provision task start now s.pool in
      Spec.step s.pool.max_capacity (meaning s) (action_of_attempt a)
      ≡ some (
          meaning (record {
            pool = q;
            leased = leased_after s.leased a;
            in_flight = in_flight_after s.in_flight a;
            drained = s.drained;
          }))
unfolding attempt_provision Spec.step
attempt_provision-simulates s task start now c none_idle =
    ground (arith, length-ledger s c, c.counted, none_idle)

attempt_idle-simulates :
    (s : System) (task start now : ℕ) (ws : List WorkerInfo)
    → IsConsistent s
    → s.pool.idle_workers ≡ ws
    → let (q, a) = attempt_idle task start now s.pool ws in
      Spec.step s.pool.max_capacity (meaning s) (action_of_attempt a)
      ≡ some (
          meaning (record {
            pool = q;
            leased = leased_after s.leased a;
            in_flight = in_flight_after s.in_flight a;
            drained = s.drained;
          }))
attempt_idle-simulates s task start now [] c e =
    unfold attempt_idle in attempt_provision-simulates s task start now c e
attempt_idle-simulates s task start now (w ∷ ws) c e = unfold attempt_idle Spec.step in rw e

absent :
    (s : System) (i : String)
    → IsConsistent s
    → count i s.pool.all_workers ≡ 0
    → (has_id i (ids s.pool.idle_workers) ≡ false) × (has_id i (ids s.leased) ≡ false)
absent s i c fresh = (
  has_id-count i s.pool.idle_workers (omega (arith, c.exact i)),
  has_id-count i s.leased (omega (arith, c.exact i)),
)

room-size :
    (s : System)
    → IsConsistent s
    → has_room s.pool ≡ true
    → ltb (size (meaning s)) s.pool.max_capacity ≡ true
unfolding has_room ◌+ℤ◌
room-size s c room = ground (arith, length-ledger s c, c.counted, room)

stamped-id : (now : ℕ) (w : WorkerInfo) → (stamped now w).id ≡ w.id
unfolding stamped
stamped-id now w = ground arith

same_spec :
    (s : System) {is js ls ks : List String}
    → is ≡ js
    → ls ≡ ks
    → ◌≡◌ {A = Option Spec}
        (some (record { idle = is; leased = ls; reserved = s.in_flight }))
        (some (record { idle = js; leased = ks; reserved = s.in_flight }))
same_spec s e f = cc

-- Each section of the code but a drain is an action of the specification, which allows it.
simulates :
    (s : System) (e : Event)
    → Allowed s e
    → (Schedule.step s e).drained ≡ false
    → IsConsistent s
    → Spec.step s.pool.max_capacity (meaning s) (action_of s e) ≡ some (meaning (Schedule.step s e))
unfolding action_of Spec.step Schedule.step
simulates s drains a h c = cc
simulates s (attempts task start now) a h c =
    unfold attempt in attempt_idle-simulates s task start now s.pool.idle_workers c refl
simulates s (gives_up task) a h c = unfold wait_expired in refl
simulates s (answers w ws) a h c = unfold provisioned in ground (arith, absent s w.id c a.1, a.0)
simulates s fails a h c = unfold provision_failed in ground (arith, a)
simulates s (releases now w) a h c =
    unfold release in
    rw (count-has_id w.id s.leased a) (
      same_spec s
        (sym (
          ids-append (touch w.id now s.pool.idle_workers) _
          ∙ ap (λ (is : List String). is ++ w.id ∷ []) (ids-touch w.id now s.pool.idle_workers)))
        (sym (ids-remove_one w.id s.leased)))
simulates s (evicts w) a h c =
    unfold evict in
    rw (count-has_id w.id s.leased a) (
      same_spec s
        (sym (
          ap ids
            (without-absent w.id s.pool.idle_workers (omega (arith, c.exact w.id, c.single w.id)))))
        (sym (ids-remove_one w.id s.leased)))
simulates s (prunes timeout now) a h c =
    rw (masked-keep_if (λ w. not (expired timeout now w)) s.pool.idle_workers) (
      ap (λ ws. some (meaning (record s { pool = record s.pool { idle_workers = ws } })))
        (sym (prune_idle_workers_lem timeout now s.pool).1))
simulates s (adopts now w) a h c =
    unfold adopt in
    elim (Bool-cases (has_room s.pool)) [
      | inl room ↦ rw room (
          rw (room-size s c room) (
            rw (absent s w.id c a).0 (
              rw (absent s w.id c a).1 (
                same_spec s
                  (sym (
                    ids-append s.pool.idle_workers (stamped now w ∷ [])
                    ∙ ap (λ i. ids s.pool.idle_workers ++ i ∷ []) (stamped-id now w)))
                  refl))))
      | inr full ↦ rw full refl
    ]

-- The actions of a history, the latest first: one for each section, named by what the section was and
-- by what the task got from it.
unfoldable pub actions : {s t : System} → Reach s t → List Action
unfolding action_of
actions here = []
actions (next {t = t} r e a) = action_of t e ∷ actions r

run-next :
    (capacity : ℕ) (s : System) (e : Event)
    → Allowed s e
    → (Schedule.step s e).drained ≡ false
    → IsConsistent s
    → s.pool.max_capacity ≡ capacity
    → (before : List Action) → run capacity before ≡ some (meaning s)
    → run capacity (action_of s e ∷ before) ≡ some (meaning (Schedule.step s e))
unfolding run
run-next capacity s e a h c same before ran = rw ran (
    subst (λ n. Spec.step n (meaning s) (action_of s e) ≡ some (meaning (Schedule.step s e))) same
      (simulates s e a h c))

-- The pool does, section by section, what its specification says, in every order of its tasks without
-- a drain. A pass that grants a worker leases the id that has been idle longest; one that reserves a
-- place, waits or times out does so with no id idle, and reserves only below the capacity; an
-- answered or failed provision, a release, an eviction, a pruning and an adoption are the actions of
-- those names. The specification allows them all, and its state is then that of the pool with its
-- leases and its provisions under way.
pub run-actions :
    (name : String) (capacity minimum timeout : ℕ) (s : System)
    → (r : Reach (start name capacity minimum timeout) s) → s.drained ≡ false
    → run capacity (actions r) ≡ some (meaning s)
unfolding actions
run-actions name capacity minimum timeout s here h = unfold run init in refl
run-actions name capacity minimum timeout _ (next {t = t} r e a) h =
    let before = drained-step t e h in
    run-next capacity t e a h
      (Reach-IsConsistent (start-IsConsistent name capacity minimum timeout) r before)
      (max_capacity-Reach r ∙ (unfold init in refl)) (actions r)
      (run-actions name capacity minimum timeout t r before)
