-- ===== src/Tests/Scheduling.antt =====
-- The scheduler at sagas whose deadline has passed.
use Prim.Native.Nat.{min}
use go_saga_outbox.Base.{ℕ, ◌+◌, ◌*◌, ◌%◌, ◌^◌, ◌≤◌, ◌<◌, ◌≡◌, refl, pos, arith}
use go_saga_outbox.Runtime.Ends.{Ends}
use go_saga_outbox.Contracts.Payment.{new_charge}
use go_saga_outbox.Orchestrator.Model.{
  running, compensating, charge_payment, send_notification, second, millisecond, step_timeout,
}
use go_saga_outbox.Orchestrator.Service.Effects.{charge}
use go_saga_outbox.Orchestrator.Service.Refusals.{TickRefusal}
use go_saga_outbox.Orchestrator.Service.Scheduler.{tick_saga, process_expired}
use go_saga_outbox.Orchestrator.Service.Scheduler.Timeouts.{step_timeout_lem}
use go_saga_outbox.Orchestrator.Service.Scheduler.Stuck.{process_expired_stuck}
use go_saga_outbox.Orchestrator.Service.Scheduler.Republish.{
  RepublishedEffect, tick_saga_republishes,
}
use go_saga_outbox.Orchestrator.Service.Scheduler.Escalate.{GivenUpEffect, tick_saga_escalates}
use go_saga_outbox.Tests.{calm, codecs, codecs_encode, saga_at, tables_of, world}

step_timeout_lem_example :
    (d : ℕ) × (step_timeout 4 1500 ≡ pos d)
    × (d ≡ min (5 * 2 ^ 4) 60 * second + 1500 % 1000 * millisecond)
    × (5 * second ≤ d)
    × (d < 61 * second)
step_timeout_lem_example = step_timeout_lem 4 1500 (omega arith)

process_expired_stuck_example :
    (process_expired calm codecs (world (tables_of (saga_at compensating charge_payment 0)))).1.db
    ≡ tables_of (saga_at compensating charge_payment 0)
process_expired_stuck_example =
    process_expired_stuck calm codecs (world (tables_of (saga_at compensating charge_payment 0))) (
      record { back = refl; below = refl; context = _; payload = _; had = refl; ordered = refl },
      tt,
    )

tick_saga_republishes_example :
    Ends
      (TickRefusal calm codecs
        (saga_at running charge_payment 1)
        (tables_of (saga_at running charge_payment 1)))
      (λ _ d'.
        RepublishedEffect calm codecs
          (saga_at running charge_payment 1)
          (charge (new_charge 7 4 (pos 250)))
          (tables_of (saga_at running charge_payment 1))
          d')
      (tick_saga calm codecs
        (saga_at running charge_payment 1)
        (world (tables_of (saga_at running charge_payment 1))))
tick_saga_republishes_example =
    tick_saga_republishes calm codecs (saga_at running charge_payment 1) _
      (charge (new_charge 7 4 (pos 250))) (world (tables_of (saga_at running charge_payment 1)))
      codecs_encode refl refl refl refl refl

tick_saga_escalates_example :
    Ends
      (TickRefusal calm codecs
        (saga_at running send_notification 4)
        (tables_of (saga_at running send_notification 4)))
      (λ _ d'.
        GivenUpEffect calm codecs
          (saga_at running send_notification 4)
          (tables_of (saga_at running send_notification 4))
          d')
      (tick_saga calm codecs
        (saga_at running send_notification 4)
        (world (tables_of (saga_at running send_notification 4))))
tick_saga_escalates_example =
    tick_saga_escalates calm codecs (saga_at running send_notification 4) _ 5 6
      (world (tables_of (saga_at running send_notification 4))) codecs_encode refl refl refl refl
      refl refl
