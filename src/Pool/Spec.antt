-- ===== src/Pool/Spec.antt =====
-- What a pool promises its callers, without its queue of waiting tasks, its clock, its ledger and
-- its condition: ids that are idle, ids that are leased, and a number of reserved places.
use edge_serverless_box.Base.{
  ℕ, zero, suc, ◌+◌, String, Bool, true, false, not, ◌&&◌, Option, none, some, List, [], ◌∷◌, ◌++◌,
  length, any_of, str_eq, ltb, leb, if◌then◌else◌,
}

pub record Spec : Type 0 where
  pub idle : List String
  pub leased : List String
  pub reserved : ℕ

pub data Action : Type 0 where
  -- the id that has been idle longest is leased; or a place is reserved, if none is idle; or
  -- neither is possible
  lease reserve refuse : Action
  -- a reserved place becomes a leased id, or is given up
  arrive : String → Action
  abandon : Action
  -- a leased id becomes idle, or is dropped
  give_back drop : String → Action
  -- idle ids are dropped, where the list says false
  prune : List Bool → Action
  -- an id becomes idle that was not known
  adopt : String → Action
  nothing : Action

abbrev pub has_id : String → List String → Bool
has_id i ids = any_of (λ j. str_eq j i) ids

unfoldable pub remove_id : String → List String → List String
remove_id i [] = []
remove_id i (j ∷ js) = let rest = remove_id i js in if str_eq j i then js else j ∷ rest

unfoldable pub masked : List Bool → List String → Option (List String)
masked [] [] = some []
masked [] (i ∷ is) = none
masked (b ∷ bs) [] = none
masked (b ∷ bs) (i ∷ is) = choose b (masked bs is)
  where
    choose : Bool → Option (List String) → Option (List String)
    choose b none = none
    choose true (some js) = some (i ∷ js)
    choose false (some js) = some js

abbrev pub size : Spec → ℕ
size s = length s.idle + length s.leased + s.reserved

abbrev is_none_idle : List String → Bool
is_none_idle [] = true
is_none_idle (i ∷ is) = false

abbrev when : Bool → Spec → Option Spec
when true s = some s
when false s = none

abbrev lease_first : Spec → List String → Option Spec
lease_first s [] = none
lease_first s (i ∷ is) = some (record s { idle = is; leased = i ∷ s.leased })

abbrev with_place : ℕ → (ℕ → Option Spec) → Option Spec
with_place zero k = none
with_place (suc n) k = k n

abbrev pruned_to : Spec → Option (List String) → Option Spec
pruned_to s none = none
pruned_to s (some is) = some (record s { idle = is })

-- What an action makes of a pool of a capacity; `none` if it is not allowed.
unfoldable pub step : ℕ → Spec → Action → Option Spec
unfolding masked remove_id
step capacity s lease = lease_first s s.idle
step capacity s reserve =
    when (is_none_idle s.idle && ltb (size s) capacity) (record s { reserved = s.reserved + 1 })
step capacity s refuse = when (is_none_idle s.idle && leb capacity (size s)) s
step capacity s (arrive i) = with_place s.reserved λ n.
    when (not (has_id i s.idle) && not (has_id i s.leased))
      (record s { reserved = n; leased = i ∷ s.leased })
step capacity s abandon = with_place s.reserved λ n. some (record s { reserved = n })
step capacity s (give_back i) =
    when (has_id i s.leased) (record s { idle = s.idle ++ i ∷ []; leased = remove_id i s.leased })
step capacity s (drop i) = when (has_id i s.leased) (record s { leased = remove_id i s.leased })
step capacity s (prune mask) = pruned_to s (masked mask s.idle)
step capacity s (adopt i) =
    when (ltb (size s) capacity && not (has_id i s.idle) && not (has_id i s.leased))
      (record s { idle = s.idle ++ i ∷ [] })
step capacity s nothing = some s

abbrev pub then_step : ℕ → Action → Option Spec → Option Spec
then_step capacity a none = none
then_step capacity a (some s) = step capacity s a

-- A run of the actions, the latest first.
unfoldable pub run : ℕ → List Action → Option Spec
run capacity [] = some (record { idle = []; leased = []; reserved = 0 })
run capacity (a ∷ before) = then_step capacity a (run capacity before)
