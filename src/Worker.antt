-- ===== src/Worker.antt =====
-- services/common/models/internal.py: `WorkerInfo`, and Python's set of workers, which compares
-- them by `id`. Times are counted in the clock's ticks.
pub mod Count
use edge_serverless_box.Base.{
  ℕ, String, Bool, List, [], ◌∷◌, ◌++◌, any_of, keep_if, map, not, str_eq, if◌then◌else◌,
}

pub record WorkerInfo : Type 0 where
  pub id : String
  pub name : String
  pub ip_address : String
  pub port : ℕ
  pub created_at : ℕ
  pub last_used_at : ℕ

-- `WorkerInfo.__eq__` against a worker whose id is `i`
abbrev pub is_worker : String → WorkerInfo → Bool
is_worker i w = str_eq w.id i

-- `any(w.id == worker_id for w in workers)`, and `worker in workers`
unfoldable pub has_worker : String → List WorkerInfo → Bool
has_worker i ws = any_of (is_worker i) ws

-- `workers.discard(worker)` of a set, and `(w for w in workers if w.id != i)` of a deque
unfoldable pub without : String → List WorkerInfo → List WorkerInfo
without i ws = keep_if (λ w. not (is_worker i w)) ws

-- `workers.add(worker)`: an equal worker that is there already stays.
unfoldable pub set_add : WorkerInfo → List WorkerInfo → List WorkerInfo
unfolding has_worker
set_add w ws = if has_worker w.id ws then ws else ws ++ w ∷ []

-- `worker.last_used_at = now`, as every container that holds the object shows it
unfoldable pub touch : String → ℕ → List WorkerInfo → List WorkerInfo
touch i now ws = map (λ w. if is_worker i w then record w { last_used_at = now } else w) ws
