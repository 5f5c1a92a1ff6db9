-- ===== src/Base/Chain.antt =====
-- Chains of results that may be missing, and tests of every element.
use mathlib.Core.Bool.{Bool, true, false, ◌&&◌}
use mathlib.Core.List.{List, [], ◌∷◌}
use mathlib.Core.Option.{Option, none, some, none-ne-some}
use mathlib.Core.Path.{◌≡◌, refl}
use native.Mathlib.Omega.{arith}
use edge_serverless_box.Base.Tests.{if◌then◌else◌}

infixl 5 ◌>>=◌
abbrev pub ◌>>=◌ {ℓ κ} : {A : Type ℓ} {B : Type κ} → Option A → (A → Option B) → Option B
none >>= k = none
some a >>= k = k a

-- What a chain needs of its first part, if it gives a value.
pub bind_cases {ℓ κ} :
    {A : Type ℓ} {B : Type κ} (m : Option A) (k : A → Option B) (b : B)
    → (m >>= k) ≡ some b
    → (a : A) × ((m ≡ some a) × (k a ≡ some b))
bind_cases none k b e = absurd (none-ne-some b e)
bind_cases (some a) k b e = (a, (refl, e))

pub taken {ℓ} : {A : Type ℓ} (c : Bool) (x y b : A) → c ≡ true → (if c then x else y) ≡ b → x ≡ b
taken true x y b holds e = e
taken false x y b holds e = ground arith

pub not_taken {ℓ} :
    {A : Type ℓ} (c : Bool) (x y b : A) → c ≡ false → (if c then x else y) ≡ b → y ≡ b
not_taken true x y b fails e = ground arith
not_taken false x y b fails e = e

-- Every element satisfies a test.
abbrev pub all_of {ℓ} : {A : Type ℓ} → (A → Bool) → List A → Bool
all_of test [] = true
all_of test (x ∷ xs) = test x && all_of test xs
