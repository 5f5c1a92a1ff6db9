-- ===== src/Worker/Count.antt =====
-- How often an id occurs in a list of workers, and what the operations on such lists do to it.
use edge_serverless_box.Base.{
  ℕ, suc, ◌+◌, ◌-◌, ◌≤◌, ◌≡◌, refl, String, false, List, [], ◌∷◌, ◌++◌, arith, eq_iff, length,
  keep_if, any_of, str_eq, if◌then◌else◌,
}
use edge_serverless_box.Worker.{WorkerInfo, is_worker, has_worker, without, set_add, touch}

unfoldable pub count : String → List WorkerInfo → ℕ
count i [] = 0
count i (w ∷ ws) = if is_worker i w then suc (count i ws) else count i ws

-- Without the first worker of that id.
unfoldable pub remove_one : String → List WorkerInfo → List WorkerInfo
remove_one i [] = []
remove_one i (w ∷ ws) = if is_worker i w then ws else w ∷ remove_one i ws

pub count-append :
    (i : String) (xs ys : List WorkerInfo) → count i (xs ++ ys) ≡ count i xs + count i ys
unfolding count
count-append i [] ys = omega arith
count-append i (w ∷ ws) ys = ground (arith, count-append i ws ys)

pub count-le-length : (i : String) (ws : List WorkerInfo) → count i ws ≤ length ws
unfolding count
count-le-length i [] = omega arith
count-le-length i (w ∷ ws) = ground (arith, count-le-length i ws)

pub has_worker-count :
    (i : String) (ws : List WorkerInfo) → has_worker i ws ≡ false → count i ws ≡ 0
unfolding count has_worker any_of
has_worker-count i [] h = refl
has_worker-count i (w ∷ ws) h = ground (arith, has_worker-count i ws)

pub count-has_worker :
    (i : String) (ws : List WorkerInfo) → count i ws ≡ 0 → has_worker i ws ≡ false
unfolding count has_worker any_of
count-has_worker i [] h = refl
count-has_worker i (w ∷ ws) h = ground (arith, count-has_worker i ws)

pub count-without :
    (i j : String) (ws : List WorkerInfo)
    → count j (without i ws) ≡ (if str_eq i j then 0 else count j ws)
unfolding count without keep_if
count-without i j [] = ground arith
count-without i j (w ∷ ws) =
    ground (arith, count-without i j ws, eq_iff i j, eq_iff w.id i, eq_iff w.id j)

pub length-without :
    (i : String) (ws : List WorkerInfo) → length (without i ws) + count i ws ≡ length ws
unfolding count without keep_if
length-without i [] = refl
length-without i (w ∷ ws) = ground (arith, length-without i ws)

pub count-touch :
    (i j : String) (now : ℕ) (ws : List WorkerInfo) → count j (touch i now ws) ≡ count j ws
unfolding count touch
count-touch i j now [] = refl
count-touch i j now (w ∷ ws) = ground (arith, count-touch i j now ws)

pub length-touch :
    (i : String) (now : ℕ) (ws : List WorkerInfo) → length (touch i now ws) ≡ length ws
unfolding touch
length-touch i now [] = refl
length-touch i now (w ∷ ws) = ground (arith, length-touch i now ws)

pub count-remove_one :
    (i j : String) (ws : List WorkerInfo)
    → count j (remove_one i ws) ≡ (if str_eq i j then count j ws - 1 else count j ws)
unfolding count remove_one
count-remove_one i j [] = ground arith
count-remove_one i j (w ∷ ws) =
    ground (arith, count-remove_one i j ws, eq_iff i j, eq_iff w.id i, eq_iff w.id j)

pub set_add_fresh :
    (w : WorkerInfo) (ws : List WorkerInfo) → count w.id ws ≡ 0 → set_add w ws ≡ ws ++ w ∷ []
unfolding set_add
set_add_fresh w ws fresh = ground (arith, count-has_worker w.id ws fresh)
