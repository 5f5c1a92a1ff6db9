-- ===== src/Manager/Names.antt =====
-- The names of containers, and `sync_with_manager`, of services/gateway/services/pool_manager.py.
use edge_serverless_box.Base.{
  ℕ, ◌≡◌, ◌≢◌, inl, inr, refl, ap, ◌∙◌, String, Bool, true, false, ◌&&◌, Option, none, some, List,
  [], ◌∷◌, ◌++◌, arith, eq_iff, keep_if, str_eq, ◌==◌, if◌then◌else◌, Bool-cases,
}
use Prim.Native.Char.{code}
use edge_serverless_box.Base.Dict.{lookup, lookup-insert}
use edge_serverless_box.Base.Text.{
  append, has_char, is_empty, split, join, split-after, split-before, split-nonempty, join-split,
}
use edge_serverless_box.Registry.{Scaling}
use edge_serverless_box.Worker.{WorkerInfo}
use edge_serverless_box.Pool.{ContainerPool, adopt}
use edge_serverless_box.Manager.{PoolManager, new_pool, keep_or_make, get_pool, set_pool}

-- `name.startswith("lambda-")`
abbrev starts_with_lambda : String → Bool
starts_with_lambda name = starts "lambda-" name
  where
    starts : String → String → Bool
    starts String.[] s = true
    starts (String.◌∷◌ c p) String.[] = false
    starts (String.◌∷◌ c p) (String.◌∷◌ d s) = code c == code d && starts p s

-- `parts[:-1]`
abbrev pub without_last : List String → List String
without_last [] = []
without_last (x ∷ []) = []
without_last (x ∷ y ∷ ys) = x ∷ without_last (y ∷ ys)

-- `"-".join(parts[1:-1])`, if there are three parts at least
abbrev pub middle : List String → Option String
middle [] = none
middle (x ∷ []) = none
middle (x ∷ y ∷ []) = none
middle (x ∷ y ∷ z ∷ zs) = some (join "-" (without_last (y ∷ z ∷ zs)))

unfoldable pub extract_function_name : String → Option String
extract_function_name name = if starts_with_lambda name then middle (split b'-' name) else none

abbrev pub adopt_into :
    ℕ → (String → Scaling) → ℕ → WorkerInfo → PoolManager → Option String → PoolManager
adopt_into second config_loader now w m none = m
adopt_into second config_loader now w m (some name) =
    if is_empty name
    then m
    else (let (m', p) = get_pool second config_loader m name in set_pool name (adopt now w p) m')

-- The loop of `sync_with_manager` over the containers that the agent lists.
unfoldable pub adopt_all : ℕ → (String → Scaling) → ℕ → List WorkerInfo → PoolManager → PoolManager
adopt_all second config_loader now [] m = m
adopt_all second config_loader now (w ∷ ws) m =
    adopt_all second config_loader now ws
      (adopt_into second config_loader now w m (extract_function_name w.name))

abbrev sync_with : ℕ → (String → Scaling) → ℕ → PoolManager → Option (List WorkerInfo) → PoolManager
sync_with second config_loader now m none = m
sync_with second config_loader now m (some ws) = adopt_all second config_loader now ws m

unfoldable pub sync_with_manager :
    ℕ → (String → Scaling) → ℕ → Option (List WorkerInfo) → PoolManager → PoolManager
unfolding adopt_all
sync_with_manager second config_loader now listed m = sync_with second config_loader now m listed

without_last-append : (ys : List String) (z : String) → without_last (ys ++ z ∷ []) ≡ ys
without_last-append [] z = refl
without_last-append (x ∷ []) z = refl
without_last-append (x ∷ y ∷ ys) z =
    ap (λ (xs : List String). x ∷ xs) (without_last-append (y ∷ ys) z)

middle-append :
    (x z : String) (ys : List String) → ys ≢ [] → middle (x ∷ (ys ++ z ∷ [])) ≡ some (join "-" ys)
middle-append x z [] ne = absurd (ne refl)
middle-append x z (y ∷ []) ne = refl
middle-append x z (y ∷ y2 ∷ ys) ne =
    ap (λ (xs : List String). some (join "-" xs)) (without_last-append (y ∷ y2 ∷ ys) z)

-- The name of a container that was made for a function gives that function back, whatever dashes
-- the function's name has, if the suffix has none.
pub extract_function_name_lem :
    (name suffix : String)
    → has_char b'-' suffix ≡ false
    → extract_function_name (append "lambda-" (append name (append "-" suffix))) ≡ some name
unfolding extract_function_name
extract_function_name_lem name suffix free =
    ap middle (
      split-before b'-' "-" "lambda" (append name (append "-" suffix)) refl no_dash
      ∙ ap (λ (xs : List String). "lambda" ∷ xs) (split-after b'-' "-" name suffix refl free))
    ∙ middle-append "lambda" suffix (split b'-' name) (split-nonempty b'-' name)
    ∙ ap some (join-split "-" name)
  where
    no_dash : has_char b'-' "lambda" ≡ false
    no_dash = unfold has_char in refl

-- Whether a container's name says that it is a function's.
abbrev pub is_for : String → Option String → Bool
is_for name none = false
is_for name (some other) = str_eq other name

-- The pool after it has adopted one worker after the other.
unfoldable pub adopt_each : ℕ → List WorkerInfo → ContainerPool → ContainerPool
adopt_each now [] p = p
adopt_each now (w ∷ ws) p = adopt_each now ws (adopt now w p)

apart :
    (other name : String)
    → is_empty other ≡ true
    → is_empty name ≡ false
    → str_eq other name ≡ false
apart other name empty text = elim (Bool-cases (str_eq other name)) [
  | inl same ↦ elim (differ (ap is_empty ((eq_iff other name).0 same))) [ ]
  | inr differ ↦ differ
]
  where
    differ : is_empty other ≡ is_empty name → ⊥
    differ e = ground arith

lookup-adopt_into :
    (second : ℕ) (config_loader : String → Scaling) (now : ℕ) (w : WorkerInfo) (m : PoolManager)
    (name : String) (o : Option String) (p : ContainerPool)
    → is_empty name ≡ false
    → lookup name m.pools ≡ some p
    → lookup name (adopt_into second config_loader now w m o).pools
      ≡ some (if is_for name o then adopt now w p else p)
unfolding get_pool keep_or_make
lookup-adopt_into second config_loader now w m name none p text found = found
lookup-adopt_into second config_loader now w m name (some other) p text found =
    elim (Bool-cases (is_empty other)) [
      | inl empty ↦ rw empty (rw (apart other name empty text) found)
      | inr full ↦ rw full (kept (lookup other m.pools) refl)
    ]
  where
    kept :
        (q : Option ContainerPool)
        → lookup other m.pools ≡ q
        → let (m', r) = keep_or_make second config_loader m other q in
          lookup name (set_pool other (adopt now w r) m').pools
          ≡ some (if str_eq other name then adopt now w p else p)
    kept none e =
        rw
          (lookup-insert other name (adopt now w (keep_or_make second config_loader m other none).1)
            (keep_or_make second config_loader m other none).0.pools)
          (rw (lookup-insert other name (new_pool second other (config_loader other)) m.pools)
            (ground (arith, eq_iff other name, found, e)))
    kept (some q) e =
        rw (lookup-insert other name (adopt now w q) m.pools)
          (ground (arith, eq_iff other name, found, e))

-- The containers that the agent lists go to the pools of the functions that their names say: a pool
-- that is there adopts exactly its own, in the order of the list, whatever others are listed.
pub adopt_all-lookup :
    (second : ℕ) (config_loader : String → Scaling) (now : ℕ) (ws : List WorkerInfo)
    (m : PoolManager) (name : String) (p : ContainerPool)
    → is_empty name ≡ false
    → lookup name m.pools ≡ some p
    → lookup name (adopt_all second config_loader now ws m).pools
      ≡ some (adopt_each now (keep_if (λ w. is_for name (extract_function_name w.name)) ws) p)
unfolding adopt_all adopt_each keep_if
adopt_all-lookup second config_loader now [] m name p text found = found
adopt_all-lookup second config_loader now (w ∷ ws) m name p text found =
    elim (Bool-cases (is_for name (extract_function_name w.name))) [
      | inl own ↦ rw own (
          adopt_all-lookup second config_loader now ws _ name (adopt now w p) text (
            lookup-adopt_into second config_loader now w m name (extract_function_name w.name) p
              text found
            ∙ rw own))
      | inr foreign ↦ rw foreign (
          adopt_all-lookup second config_loader now ws _ name p text (
            lookup-adopt_into second config_loader now w m name (extract_function_name w.name) p
              text found
            ∙ rw foreign))
    ]
