-- ===== src/Orchestrator/Service/Scheduler/Timeouts.antt =====
-- The timeouts of `StepTimeout`, for the numbers of attempts that the scheduler uses.
use Prim.Native.Nat.{min}
use go_saga_outbox.Base.{ℕ, zero, suc, ◌+◌, ◌*◌, ◌%◌, ◌^◌, ◌≤◌, ◌<◌, ◌≡◌, refl, pos, arith}
use go_saga_outbox.Orchestrator.Model.{max_saga_attempts, second, millisecond, step_timeout}

-- Below MaxSagaAttempts the timeout is 5 seconds doubled with each attempt, at most 60 seconds, and
-- the jitter; it is no less than 5 seconds and less than 61, and the 64-bit shift does not
-- overflow.
pub step_timeout_lem :
    (attempts drawn : ℕ)
    → attempts < max_saga_attempts
    → (d : ℕ) × (step_timeout attempts drawn ≡ pos d)
      × (d ≡ min (5 * 2 ^ attempts) 60 * second + drawn % 1000 * millisecond)
      × (5 * second ≤ d)
      × (d < 61 * second)
unfolding step_timeout
step_timeout_lem zero drawn h = (_, refl, omega arith, omega arith, omega arith)
step_timeout_lem (suc zero) drawn h = (_, refl, omega arith, omega arith, omega arith)
step_timeout_lem (suc (suc zero)) drawn h = (_, refl, omega arith, omega arith, omega arith)
step_timeout_lem (suc (suc (suc zero))) drawn h = (_, refl, omega arith, omega arith, omega arith)
step_timeout_lem (suc (suc (suc (suc zero)))) drawn h =
    (_, refl, omega arith, omega arith, omega arith)
step_timeout_lem (suc (suc (suc (suc (suc n))))) drawn h = absurd (omega arith)
