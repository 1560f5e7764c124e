-- ===== src/Service/Tools/Wait.antt =====
-- The wait for a decision of src/chat/tool_round_runner.cpp on fuel: it ends at the first moment at
-- which its predicate holds.
pub mod Decides
use Prim.Native.String.{String}
use yac.Common.{
  ℕ, zero, suc, ◌≡◌, refl, ◌≤◌, ◌<◌, inl, inr, Bool, true, false, some, arith, Bool-cases,
}
use yac.Common.{List}
use yac.Approvals.{wait_ready}
use yac.Service.State.{Service, Env, stop_requested}
use yac.Service.Calls.{Call}
use yac.Service.Tools.{yield_to, take_decision, await_decision}

module _ (env : Env) (others : ℕ → List Call) where
  -- The service after other threads have run `n + 1` times.
  abbrev pub after : ℕ → Service → Service
  after zero s = yield_to env others s
  after (suc n) s = after n (yield_to env others s)

  abbrev pub is_ready : Service → String → Bool
  is_ready s k = wait_ready s.approvals k (stop_requested s)

  -- `m` is the first moment, up to `n`, at which the wait for `k` is ready.
  pub IsFirst : Service → String → ℕ → ℕ → Type 0
  IsFirst s k n m =
      (m ≤ n) × (is_ready (after m s) k ≡ true) × ((i : ℕ) → i < m → is_ready (after i s) k ≡ false)

  IsFirst-later :
      (s : Service) (k : String) (n m : ℕ)
      → is_ready (yield_to env others s) k ≡ false
      → IsFirst (yield_to env others s) k n m
      → IsFirst s k (suc n) (suc m)
  unfolding IsFirst
  IsFirst-later s k n m more (b, r, first) = (omega (arith, b), r, below)
    where
      below : (i : ℕ) → i < suc m → is_ready (after i s) k ≡ false
      below zero lt = more
      below (suc i) lt = first i (omega (arith, lt))

  pub await_decision-is_ready :
      (n fuel : ℕ) (s : Service) (k : String)
      → n < fuel
      → is_ready (after n s) k ≡ true
      → (m : ℕ) × IsFirst s k n m
        × (await_decision env others fuel s k ≡ some (take_decision env others (after m s) k))
  unfolding await_decision IsFirst
  await_decision-is_ready n zero s k e h = absurd (omega (arith, e))
  await_decision-is_ready zero (suc fuel) s k e h =
      rw h (zero, (omega arith, h, λ i below. absurd (omega (arith, below))), refl)
  await_decision-is_ready (suc n) (suc fuel) s k e h =
      elim (Bool-cases (is_ready (yield_to env others s) k)) [
        | inl ready ↦
            rw ready (zero, (omega arith, ready, λ i below. absurd (omega (arith, below))), refl)
        | inr more ↦
            let (m, first, got) =
              await_decision-is_ready n fuel (yield_to env others s) k (omega (arith, e)) h in
            rw more (suc m, IsFirst-later s k n m more first, got)
      ]
