-- ===== src/Base/Lists.antt =====
-- Lists measured by native numbers, and Boolean searches.
use Prim.Native.Nat.{ℕ, suc, ◌+◌}
use mathlib.Core.Path.{◌≡◌}
use mathlib.Core.Bool.{Bool, false, ◌||◌}
use mathlib.Core.List.{List, [], ◌∷◌, ◌++◌}
use native.Mathlib.Omega.{arith}
use edge_serverless_box.Base.Tests.{if◌then◌else◌}

module _ {ℓ} {A : Type ℓ} where
  abbrev pub length : List A → ℕ
  length [] = 0
  length (x ∷ xs) = suc (length xs)

  pub length-append : (xs ys : List A) → length (xs ++ ys) ≡ length xs + length ys
  length-append [] ys = omega arith
  length-append (x ∷ xs) ys = omega (arith, length-append xs ys)

  -- `[x for x in xs if keep(x)]`
  unfoldable pub keep_if : (A → Bool) → List A → List A
  keep_if keep [] = []
  keep_if keep (x ∷ xs) = if keep x then x ∷ keep_if keep xs else keep_if keep xs

  -- `any(test(x) for x in xs)`
  unfoldable pub any_of : (A → Bool) → List A → Bool
  any_of test [] = false
  any_of test (x ∷ xs) = test x || any_of test xs
