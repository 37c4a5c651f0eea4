-- ===== src/Orchestrator/Service/Scheduler.antt =====
-- The scheduler: `ProcessExpired`, `tickSaga`, `rePublishCurrentCommand` and `escalateSaga`.
pub mod Stuck
pub mod Timeouts
pub mod Republish
pub mod Escalate
pub mod Growing
use go_saga_outbox.Base.{
  ◌+◌, Bool, ◌||◌, not, Option, none, some, List, [], ◌∷◌, String, is_some, leb, if◌then◌else◌,
}
use go_saga_outbox.Runtime.{
  Outcome, ok, err, panic, Env, Metrics, M, pure, crash, lift, deref, count, now, ◌>>=◌, ◌>>◌,
}
use go_saga_outbox.Trx.{run}
use go_saga_outbox.Contracts.Inventory.{new_reserve_seat, new_release_seat}
use go_saga_outbox.Contracts.Inventory
use go_saga_outbox.Contracts.Payment.{new_charge}
use go_saga_outbox.Contracts.Payment
use go_saga_outbox.Contracts.Notification.{new_send}
use go_saga_outbox.Contracts.Notification
use go_saga_outbox.Orchestrator.Model.{
  SagaState, running, compensating, failed, SagaStepName, reserve_seat, charge_payment,
  send_notification, forward, step_failed, step_name_text, BookTicketPayload, BookTicketContext,
  Saga, decode_context, decode_payload, deadline, reset_schedule, max_saga_attempts,
}
use go_saga_outbox.Orchestrator.Repo.{SagaDb, upsert, find_expired}
use go_saga_outbox.Orchestrator.Service.Failures.{count_failed}
use go_saga_outbox.Orchestrator.Service.Shared.{Codecs, record_step, emit}

abbrev pub count_stuck : Metrics → Metrics
count_stuck m = record m { saga_stuck = m.saga_stuck + 1 }

abbrev pub count_retry : SagaStepName → Metrics → Metrics
count_retry step m = record m { saga_retries = step_name_text step ∷ m.saga_retries }

-- `fmt.Sprintf("max attempts exceeded (%d)", model.MaxSagaAttempts)`
abbrev pub exceeded : String
exceeded = "max attempts exceeded (5)"

module _ (e : Env) (c : Codecs) where
  -- The `switch` of `rePublishCurrentCommand`: the command to send, none in the default case.
  unfoldable pub current_command :
      SagaState → SagaStepName → Saga → BookTicketPayload → Option (M SagaDb Unit)
  current_command running reserve_seat saga p = some (
      emit e c c.reserve_seats Inventory.topic_commands Inventory.event_type_reserve_seat
        (new_reserve_seat saga.id p.event_id p.user_id) saga.id none)
  current_command running charge_payment saga p = some (
      emit e c c.charges Payment.topic_commands Payment.event_type_charge
        (new_charge saga.id p.user_id p.amount) saga.id none)
  current_command running send_notification saga p = some (
      emit e c c.sends Notification.topic_commands Notification.event_type_send
        (new_send saga.id p.user_id p.channel) saga.id none)
  current_command _ _ saga p = none

  unfoldable pub republish : Saga → Option (M SagaDb Unit) → M SagaDb Unit
  republish saga none = pure tt
  republish saga (some publish) = do
    publish
    count (count_retry saga.current_step)
    at ← now e
    next ← deadline e at saga.attempts
    updated_at ← now e
    upsert e (record saga { next_attempt_at = some next; updated_at = updated_at })

  unfoldable pub re_publish_current_command : Saga → M SagaDb Unit
  re_publish_current_command saga = do
    lift (decode_context c.contexts saga)
    payload ← lift (decode_payload c.payloads saga)
    republish saga (current_command saga.state saga.current_step saga payload)

  -- `sagaCtx.ReservationID == nil || sagaCtx.SeatID == nil`
  abbrev has_no_seat : BookTicketContext → Bool
  has_no_seat ctx = not (is_some ctx.reservation_id) || not (is_some ctx.seat_id)

  escalate_running : Saga → M SagaDb Unit
  escalate_running saga = do
    ctx ← lift (decode_context c.contexts saga)
    at ← now e
    let stopped = reset_schedule (record saga { state = compensating }) at
    upsert e stopped
    count count_stuck
    record_step e saga.id saga.current_step forward step_failed (some exceeded)
    if has_no_seat ctx
        then (do count count_failed; upsert e (record stopped { state = failed }))
        else do
          reservation_id ← deref ctx.reservation_id
          seat_id ← deref ctx.seat_id
          emit e c c.release_seats Inventory.topic_commands Inventory.event_type_release_seat
              (new_release_seat saga.id reservation_id seat_id) saga.id none

  escalate_compensating : Saga → M SagaDb Unit
  escalate_compensating saga = do
    at ← now e
    count count_stuck
    count count_failed
    upsert e (reset_schedule (record saga { state = failed }) at)

  escalate_at : SagaState → Saga → M SagaDb Unit
  unfolding escalate_running escalate_compensating
  escalate_at running saga = escalate_running saga
  escalate_at compensating saga = escalate_compensating saga
  escalate_at _ saga = pure tt

  unfoldable pub escalate_saga : Saga → M SagaDb Unit
  unfolding escalate_at
  escalate_saga saga = escalate_at saga.state saga

  unfoldable pub tick_saga : Saga → M SagaDb Unit
  unfolding escalate_saga re_publish_current_command
  tick_saga saga =
      let ticked = record saga { attempts = saga.attempts + 1 } in
      if leb max_saga_attempts ticked.attempts
      then escalate_saga ticked
      else re_publish_current_command ticked

  -- An error of one saga is only logged.
  abbrev pub logged : Outcome Unit → M SagaDb Unit
  logged (ok done) = pure tt
  logged (err x) = pure tt
  logged panic = crash

  -- The loop of `ProcessExpired`.
  unfoldable pub tick_all : List Saga → M SagaDb Unit
  unfolding tick_saga
  tick_all [] = pure tt
  tick_all (saga ∷ rest) = do λ w. let (r, w') = tick_saga saga w in logged r w'; tick_all rest

  unfoldable pub process_expired : M SagaDb Unit
  unfolding run
  process_expired = run e do at ← now e; sagas ← find_expired e at 10; tick_all sagas
