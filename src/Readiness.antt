-- ===== src/Readiness.antt =====
-- `_wait_for_readiness`, the same in services/gateway/services/grpc_backend.py and
-- services/gateway/services/grpc_provision.py: attempts to connect to a new container until one is
-- answered or the time is over. `clock k` is the time at which the loop is at its attempt k, and
-- `connects k` tells whether that attempt, if it is made, is answered.
use edge_serverless_box.Base.{
  ℕ, zero, suc, ◌+◌, ◌≤◌, ◌<◌, ◌≡◌, ◌⊎◌, inl, inr, Bool, true, false, Option, none, some, arith,
  ltb, if◌then◌else◌, Bool-cases,
}

-- The loop from attempt k on, with fuel; `none` means that the fuel ran out.
unfoldable pub wait_loop : ℕ → ℕ → (ℕ → ℕ) → (ℕ → Bool) → ℕ → Option Bool
wait_loop zero deadline clock connects k = none
wait_loop (suc fuel) deadline clock connects k =
    let rest = wait_loop fuel deadline clock connects (suc k) in
    if ltb (clock k) deadline then if connects k then some true else rest else some false

-- `true` if the container is ready, `false` for `ContainerStartError`. The clock advances from one
-- attempt to the next, since the loop sleeps: so many attempts as there are ticks are enough.
unfoldable pub wait_for_readiness : ℕ → (ℕ → ℕ) → (ℕ → Bool) → Option Bool
unfolding wait_loop
wait_for_readiness timeout clock connects =
    wait_loop (suc timeout) (clock 0 + timeout) clock connects 0

-- All attempts before attempt k failed.
abbrev pub FailedBefore : (ℕ → Bool) → ℕ → Type 0
FailedBefore connects k = (j : ℕ) → j < k → connects j ≡ false

abbrev pub Waited : ℕ → (ℕ → ℕ) → (ℕ → Bool) → Bool → Type 0
Waited deadline clock connects true =
    (k : ℕ) × (clock k < deadline) × (connects k ≡ true) × FailedBefore connects k
Waited deadline clock connects false = (k : ℕ) × (deadline ≤ clock k) × FailedBefore connects k

FailedBefore-suc :
    (connects : ℕ → Bool) (k : ℕ)
    → connects k ≡ false
    → FailedBefore connects k
    → FailedBefore connects (suc k)
FailedBefore-suc connects k failed before j h = elim (nat_split j k h) [
  | inl less ↦ before j less
  | inr same ↦ rw same failed
]
  where
    nat_split : (j k : ℕ) → j < suc k → (j < k) ⊎ (j ≡ k)
    nat_split j k h = omega arith

wait_loop_lem :
    (fuel deadline : ℕ) (clock : ℕ → ℕ) (connects : ℕ → Bool) (k : ℕ)
    → ((j : ℕ) → clock j < clock (suc j))
    → 0 < fuel
    → deadline < clock k + fuel
    → FailedBefore connects k
    → (b : Bool) × (wait_loop fuel deadline clock connects k ≡ some b)
      × Waited deadline clock connects b
unfolding wait_loop
wait_loop_lem zero deadline clock connects k advances some_fuel enough before = elim some_fuel [ ]
wait_loop_lem (suc fuel) deadline clock connects k advances some_fuel enough before =
    elim (Bool-cases (ltb (clock k) deadline)) [
      | inl early ↦ elim (Bool-cases (connects k)) [
        | inl answered ↦ (true, ground arith, (k, ground arith, answered, before))
        | inr failed ↦
            let tick = advances k in
            let (b, e, w) =
              wait_loop_lem fuel deadline clock connects (suc k) advances (ground arith)
                (omega arith) (FailedBefore-suc connects k failed before) in
            (b, ground arith, w)
      ]
      | inr late ↦ (false, ground arith, (k, ground arith, before))
    ]

-- If the clock advances between attempts, the wait ends: with readiness at the first attempt that is
-- answered, if that is made before the deadline, and otherwise with an error after the deadline, when
-- every attempt that was made has failed.
pub wait_for_readiness-Waited :
    (timeout : ℕ) (clock : ℕ → ℕ) (connects : ℕ → Bool)
    → ((j : ℕ) → clock j < clock (suc j))
    → (b : Bool) × (wait_for_readiness timeout clock connects ≡ some b)
      × Waited (clock 0 + timeout) clock connects b
unfolding wait_for_readiness
wait_for_readiness-Waited timeout clock connects advances =
    wait_loop_lem (suc timeout) (clock 0 + timeout) clock connects 0 advances (omega arith)
      (omega arith) (λ j h. elim h [ ])
