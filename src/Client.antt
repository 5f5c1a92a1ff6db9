-- ===== src/Client.antt =====
-- services/gateway/client.py: the client that has a container started and shares the requests under
-- way, with the cache of services/gateway/services/container_cache.py. That cache is a library's:
-- its operations are an interface.
pub mod Flights
pub mod Cached
pub mod Cancelled
mod Tests
use edge_serverless_box.Base.{
  ℕ, zero, suc, ◌+◌, ◌-◌, ◌*◌, ◌≤◌, ◌<◌, ◌≡◌, ◌≢◌, ◌⊎◌, inl, inr, ◌↔◌, refl, sym, ap, ◌∙◌, subst,
  String, Bool, true, false, not, ◌&&◌, ◌||◌, Option, none, some, List, [], ◌∷◌, ◌++◌, map, arith,
  eq_iff, length, length-append, keep_if, any_of, str_eq, str_eq_refl, ltb, leb, ◌==◌,
  if◌then◌else◌, Bool-cases, Option-cases, Result, ok, err,
}
use edge_serverless_box.Base.Dict.{Dict, lookup, insert, erase}

-- A `TTLCache`: what a key has at a time, and the cache with a key set or deleted at a time.
pub record HostCache (C : Type 0) : Type 0 where
  pub get : ℕ → String → C → Option String
  pub set : ℕ → String → String → C → C
  pub delete : String → C → C
  -- an entry that is read just after it is set is there, and one that is deleted is not
  pub get-set : (now : ℕ) (k v : String) (c : C) → get now k (set now k v c) ≡ some v
  pub get-delete : (now : ℕ) (k : String) (c : C) → get now k (delete k c) ≡ none

-- Exceptions of services/gateway/core/exceptions.py, with the status code that they carry.
pub data ClientError : Type 0 where
  orchestrator_timeout_error : ClientError
  orchestrator_unreachable_error : ClientError
  function_not_found_error : ClientError
  orchestrator_error : ℕ → ClientError

-- How the request to the manager ends: no answer, or a status with the `host` of its answer.
pub data Posted : Type 0 where
  timed_out unreachable : Posted
  answered : ℕ → Option String → Posted

-- `if not host`
abbrev host_or_error : ℕ → Option String → Result ClientError String
host_or_error status none = err (orchestrator_error status)
host_or_error status (some h) = if str_eq h "" then err (orchestrator_error status) else ok h

-- `raise_for_status` raises for each status that is no success.
abbrev is_success : ℕ → Bool
is_success status = leb 200 status && ltb status 300

-- `_ensure_container_remote`
unfoldable pub ensure_container_remote : Posted → Result ClientError String
ensure_container_remote timed_out = err orchestrator_timeout_error
ensure_container_remote unreachable = err orchestrator_unreachable_error
ensure_container_remote (answered status host) =
    if is_success status
    then host_or_error status host
    else if status == 404
    then err function_not_found_error
    else err (orchestrator_error status)

-- The client, over a cache of type C. A future is a number, in the order of creation; `settled` has
-- the outcomes of those futures that are done.
pub record OrchestratorClient (C : Type 0) : Type 0 where
  pub cache : Option C
  pub inflight : Dict ℕ
  pub futures : ℕ
  pub settled : List (ℕ × Result ClientError String)

-- How the section under the lock ends.
pub data Joined : Type 0 where
  hit : String → Joined
  -- waits for another task's future, or makes the request and answers this future
  follows leads : ℕ → Joined

module _ {C : Type 0} (ops : HostCache C) where
  abbrev if_text : Option String → Option String
  if_text none = none
  if_text (some h) = if str_eq h "" then none else some h

  abbrev pub look_in : ℕ → String → Option C → Option String
  look_in now name none = none
  look_in now name (some c) = if_text (ops.get now name c)

  -- `cached = self.cache.get(function_name)`, of which an empty text is no hit
  unfoldable pub look : ℕ → String → OrchestratorClient C → Option String
  look now name s = look_in now name s.cache

  unfoldable pub take_part :
      String → OrchestratorClient C → Option ℕ → OrchestratorClient C × Joined
  take_part name s (some f) = (s, follows f)
  take_part name s none = (
    record s { inflight = insert name s.futures s.inflight; futures = suc s.futures },
    leads s.futures,
  )

  unfoldable pub join_with :
      String → OrchestratorClient C → Option String → OrchestratorClient C × Joined
  unfolding take_part
  join_with name s (some h) = (s, hit h)
  join_with name s none = take_part name s (lookup name s.inflight)

  -- The section of `ensure_container` under the lock.
  unfoldable pub join : ℕ → String → OrchestratorClient C → OrchestratorClient C × Joined
  unfolding look join_with
  join now name s = join_with name s (look now name s)

  abbrev cached : ℕ → String → Result ClientError String → Option C → Option C
  cached now name (ok h) (some c) = some (ops.set now name h c)
  cached now name r c = c

  -- A leader's request has ended: the host is cached, and the future gets the outcome.
  unfoldable pub resolve :
      ℕ → String → ℕ → Result ClientError String → OrchestratorClient C → OrchestratorClient C
  resolve now name f r s = record s {
    cache = cached now name r s.cache;
    settled = s.settled ++ (f, r) ∷ [];
  }

  abbrev pub drop_own : String → ℕ → Option ℕ → Dict ℕ → Dict ℕ
  drop_own name f none d = d
  drop_own name f (some g) d = if g == f then erase name d else d

  -- The `finally` clause of a leader. A leader that is cancelled does nothing else.
  unfoldable pub leave : String → ℕ → OrchestratorClient C → OrchestratorClient C
  leave name f s = record s { inflight = drop_own name f (lookup name s.inflight) s.inflight }

  abbrev invalidated : String → Option C → Option C
  invalidated name none = none
  invalidated name (some c) = some (ops.delete name c)

  unfoldable pub invalidate_cache : String → OrchestratorClient C → OrchestratorClient C
  invalidate_cache name s = record s { cache = invalidated name s.cache }
