-- ===== src/Client/Flights.antt =====
-- The requests under way of services/gateway/client.py, in every order in which its tasks run.
use edge_serverless_box.Base.{
  ℕ, suc, ◌≤◌, ◌≡◌, refl, ◌∙◌, subst, String, Bool, true, not, ◌&&◌, Option, none, some, List, [],
  ◌∷◌, arith, eq_iff, keep_if, any_of, str_eq, ◌==◌, if◌then◌else◌, Result,
}
use edge_serverless_box.Base.Dict.{Dict, lookup, lookup-insert, lookup-erase}
use edge_serverless_box.Client.{
  HostCache, drop_own, OrchestratorClient, ClientError, Joined, hit, follows, leads, look,
  take_part, join_with, join, resolve, leave, invalidate_cache,
}

-- The client with the tasks that lead a request, each with its function and its future.
pub record Flights (C : Type 0) : Type 0 where
  pub client : OrchestratorClient C
  pub leaders : List (String × ℕ)

pub data Event : Type 0 where
  -- a task calls `ensure_container`
  joins : ℕ → String → Event
  -- a leader's request ends, and then its `finally` clause runs; or it is cancelled
  resolves : ℕ → String → ℕ → Result ClientError String → Event
  leaves : String → ℕ → Event
  invalidates : String → Event

abbrev pub leaders_after : String → Joined → List (String × ℕ) → List (String × ℕ)
leaders_after name (hit h) ls = ls
leaders_after name (follows f) ls = ls
leaders_after name (leads f) ls = (name, f) ∷ ls

unfoldable pub without_leader : String → ℕ → List (String × ℕ) → List (String × ℕ)
without_leader name f [] = []
without_leader name f ((other, g) ∷ ls) =
    let rest = without_leader name f ls in
    if str_eq other name && g == f then rest else (other, g) ∷ rest

-- The futures of a function's leaders.
unfoldable pub led : String → List (String × ℕ) → List ℕ
led name [] = []
led name ((other, f) ∷ ls) = let rest = led name ls in if str_eq other name then f ∷ rest else rest

-- How many leaders answer a future.
unfoldable pub answering : ℕ → List (String × ℕ) → ℕ
answering f [] = 0
answering f ((other, g) ∷ ls) = let rest = answering f ls in if g == f then suc rest else rest

abbrev pub has : ℕ → List ℕ → Bool
has f fs = any_of (λ g. g == f) fs

abbrev pub table : Option ℕ → List ℕ
table none = []
table (some f) = f ∷ []

led-without_leader :
    (name n : String) (f : ℕ) (ls : List (String × ℕ))
    → led n (without_leader name f ls)
      ≡ (if str_eq name n then keep_if (λ g. not (g == f)) (led n ls) else led n ls)
unfolding led without_leader keep_if
led-without_leader name n f [] = ground arith
led-without_leader name n f ((other, g) ∷ ls) =
    ground (arith, led-without_leader name n f ls, eq_iff other name, eq_iff other n, eq_iff name n)

pub answering-without_leader :
    (name : String) (f k : ℕ) (ls : List (String × ℕ))
    → answering k (without_leader name f ls) ≤ answering k ls
unfolding answering without_leader
answering-without_leader name f k [] = omega arith
answering-without_leader name f k ((other, g) ∷ ls) =
    ground (arith, answering-without_leader name f k ls)

pub answering-led :
    (name : String) (f : ℕ) (ls : List (String × ℕ))
    → has f (led name ls) ≡ true
    → suc (answering f (without_leader name f ls)) ≤ answering f ls
unfolding answering led any_of without_leader
answering-led name f [] held = cc
answering-led name f ((other, g) ∷ ls) held =
    ground (arith, answering-led name f ls, answering-without_leader name f f ls)

has-nil : (f : ℕ) (fs : List ℕ) → fs ≡ [] → has f fs ≡ true → ⊥
unfolding any_of
has-nil f [] e held = cc
has-nil f (g ∷ fs) e held = cc

held_one : (f g : ℕ) (fs : List ℕ) → fs ≡ g ∷ [] → has f fs ≡ true → (g == f) ≡ true
unfolding any_of
held_one f g fs e held = ground (arith, subst (λ gs. has f gs ≡ true) e held)

module _ {C : Type 0} (ops : HostCache C) where
  unfoldable pub step : Flights C → Event → Flights C
  step s (joins now name) =
      let (c, j) = join ops now name s.client in
      record { client = c; leaders = leaders_after name j s.leaders }
  step s (resolves now name f r) = record s { client = resolve ops now name f r s.client }
  step s (leaves name f) = record {
    client = leave ops name f s.client;
    leaders = without_leader name f s.leaders;
  }
  step s (invalidates name) = record s { client = invalidate_cache ops name s.client }

  -- Only a leader of the function answers its own future, or leaves.
  abbrev pub Allowed : Flights C → Event → Type 0
  Allowed s (joins now name) = Unit {0}
  Allowed s (resolves now name f r) = has f (led name s.leaders) ≡ true
  Allowed s (leaves name f) = has f (led name s.leaders) ≡ true
  Allowed s (invalidates name) = Unit {0}

  pub data Reach (s : Flights C) : Flights C → Type 0 where
    here : Reach s s
    next : {t : Flights C} → Reach s t → (e : Event) → Allowed t e → Reach s (step t e)

  -- The leaders of a function are what the table has for it, and no future is answered by two.
  pub record Shared (s : Flights C) : Type 0 where
    pub tabled : (n : String) → led n s.leaders ≡ table (lookup n s.client.inflight)
    pub single : (f : ℕ) → answering f s.leaders ≤ 1
    pub fresh : (f : ℕ) → s.client.futures ≤ f → answering f s.leaders ≡ 0

  take_part-Shared :
      (name : String) (s : Flights C) (o : Option ℕ)
      → lookup name s.client.inflight ≡ o
      → Shared s
      → let (c, j) = take_part ops name s.client o in
        Shared (record { client = c; leaders = leaders_after name j s.leaders })
  unfolding take_part
  take_part-Shared name s (some f) e h = record {
    tabled = h.tabled;
    single = h.single;
    fresh = h.fresh;
  }
  take_part-Shared name s none e h = record {
    tabled = λ n.
        unfold led in
        ground (
          arith,
          h.tabled n,
          h.tabled name,
          e,
          eq_iff name n,
          lookup-insert name n s.client.futures s.client.inflight,
        );
    single = λ f. unfold answering in ground (arith, h.single f, h.fresh f);
    fresh = λ f le. unfold answering in ground (arith, h.fresh f);
  }

  join_with-Shared :
      (name : String) (s : Flights C) (cached : Option String)
      → Shared s
      → let (c, j) = join_with ops name s.client cached in
        Shared (record { client = c; leaders = leaders_after name j s.leaders })
  unfolding join_with
  join_with-Shared name s (some x) h = record {
    tabled = h.tabled;
    single = h.single;
    fresh = h.fresh;
  }
  join_with-Shared name s none h = take_part-Shared name s (lookup name s.client.inflight) refl h

  leave-tabled :
      (name n : String) (f : ℕ) (d : Dict ℕ) (o : Option ℕ) (ls : List (String × ℕ))
      → lookup name d ≡ o
      → has f (led name ls) ≡ true
      → led name ls ≡ table o
      → led n ls ≡ table (lookup n d)
      → led n (without_leader name f ls) ≡ table (lookup n (drop_own ops name f o d))
  unfolding any_of keep_if
  leave-tabled name n f d none ls e held own there = elim (has-nil f (led name ls) own held) [ ]
  leave-tabled name n f d (some g) ls e held own there =
      led-without_leader name n f ls
      ∙ ground (
        arith,
        own,
        there,
        held_one f g (led name ls) own held,
        lookup-erase name n d,
        eq_iff name n,
      )

  step-Shared : (s : Flights C) (e : Event) → Allowed s e → Shared s → Shared (step s e)
  unfolding step join resolve leave invalidate_cache
  step-Shared s (joins now name) a h = join_with-Shared name s (look ops now name s.client) h
  step-Shared s (resolves now name f r) a h = record {
    tabled = h.tabled;
    single = h.single;
    fresh = h.fresh;
  }
  step-Shared s (leaves name f) a h = record {
    tabled = λ n.
        leave-tabled name n f s.client.inflight (lookup name s.client.inflight) s.leaders refl a
          (h.tabled name) (h.tabled n);
    single = λ k. ground (arith, answering-without_leader name f k s.leaders, h.single k);
    fresh = λ k le. ground (arith, answering-without_leader name f k s.leaders, h.fresh k);
  }
  step-Shared s (invalidates name) a h = record {
    tabled = h.tabled;
    single = h.single;
    fresh = h.fresh;
  }

  pub Reach-Shared : {s t : Flights C} → Shared s → Reach s t → Shared t
  Reach-Shared h here = h
  Reach-Shared h (next {t = t} r e a) = step-Shared t e a (Reach-Shared h r)

  abbrev pub start : Option C → Flights C
  start cache = record {
    client = record { cache = cache; inflight = []; futures = 0; settled = [] };
    leaders = [];
  }

  pub start-Shared : (cache : Option C) → Shared (start cache)
  unfolding lookup led answering
  start-Shared cache = record {
    tabled = λ n. refl;
    single = λ f. omega arith;
    fresh = λ f le. refl;
  }

  -- In every history at most one task makes the request for a function, and its future is the one
  -- that the table of requests under way has for the function; without a leader the table has none.
  pub Reach-single_flight :
      (cache : Option C) (s : Flights C) (name : String)
      → Reach (start cache) s
      → led name s.leaders ≡ table (lookup name s.client.inflight)
  Reach-single_flight cache s name r = (Reach-Shared (start-Shared cache) r).tabled name
