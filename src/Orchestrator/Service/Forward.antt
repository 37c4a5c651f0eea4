-- ===== src/Orchestrator/Service/Forward.antt =====
-- The handlers that take a saga forward: `HandleSeatReserved`, `HandlePaymentCharged` and
-- `HandleNotificationSent`.
pub mod SeatReserved
pub mod PaymentCharged
pub mod NotificationSent
use go_saga_outbox.Base.{ℕ, suc, ◌+◌, none, some}
use go_saga_outbox.Runtime.{Uuid, decode_saga_ctx, Env, Metrics, M, lift, count, now, ◌>>=◌, ◌>>◌}
use go_saga_outbox.Contracts.Payment.{new_charge}
use go_saga_outbox.Contracts.Payment
use go_saga_outbox.Contracts.Notification.{new_send}
use go_saga_outbox.Contracts.Notification
use go_saga_outbox.Kafka.{Message, get_saga_id_from_headers}
use go_saga_outbox.Orchestrator.Model.{
  SagaStepName, running, completed, reserve_seat, charge_payment, send_notification, forward,
  step_succeeded, Saga, set_context, decode_context, decode_payload, deadline, reset_schedule,
}
use go_saga_outbox.Orchestrator.Repo.{SagaDb, upsert, find_by_id}
use go_saga_outbox.Orchestrator.Service.Shared.{Codecs, or_error, once, record_step, emit}

abbrev pub count_completed : Metrics → Metrics
count_completed m = record m { saga_completed = m.saga_completed + 1 }

module _ (e : Env) (c : Codecs) where
  -- The saga goes on running at the next step, with a fresh deadline.
  unfoldable pub advance : Saga → SagaStepName → M SagaDb Unit
  advance saga step = do
    updated_at ← now e
    at ← now e
    next ← deadline e at 0
    upsert e (record saga {
      state = running;
      current_step = step;
      updated_at = updated_at;
      attempts = 0;
      next_attempt_at = some next;
    })

  on_seat_reserved : Message → M SagaDb Unit
  on_seat_reserved msg = do
    p ← lift (c.seats_reserved.unmarshal msg.value)
    saga_id ← lift (get_saga_id_from_headers e msg)
    saga ← find_by_id e saga_id
    ctx ← lift (decode_context c.contexts saga)
    saga ←
        set_context c.contexts saga
          (record ctx { reservation_id = some p.reservation_id; seat_id = some p.seat_id })
    advance saga charge_payment
    record_step e saga_id reserve_seat forward step_succeeded none
    payload ← lift (decode_payload c.payloads saga)
    emit e c c.charges Payment.topic_commands Payment.event_type_charge
        (new_charge saga_id payload.user_id payload.amount) saga_id (some msg.message_id)

  unfoldable pub handle_seat_reserved : Message → M SagaDb Unit
  unfolding on_seat_reserved
  handle_seat_reserved msg = once e msg (on_seat_reserved msg)

  on_payment_charged : Message → M SagaDb Unit
  on_payment_charged msg = do
    saga_id ← lift (get_saga_id_from_headers e msg)
    p ← lift (c.charged.unmarshal msg.value)
    saga ← find_by_id e saga_id
    ctx ← lift (decode_context c.contexts saga)
    saga ← set_context c.contexts saga (record ctx { payment_id = some p.payment_id })
    advance saga send_notification
    record_step e saga_id charge_payment forward step_succeeded none
    payload ← lift (decode_payload c.payloads saga)
    emit e c c.sends Notification.topic_commands Notification.event_type_send
        (new_send saga_id payload.user_id payload.channel) saga_id (some msg.message_id)

  unfoldable pub handle_payment_charged : Message → M SagaDb Unit
  unfolding on_payment_charged
  handle_payment_charged msg = once e msg (on_payment_charged msg)

  on_notification_sent : Message → M SagaDb Unit
  on_notification_sent msg = do
    saga_id ← lift (get_saga_id_from_headers e msg)
    p ← lift (c.sent.unmarshal msg.value)
    saga ← find_by_id e saga_id
    ctx ← lift (or_error decode_saga_ctx (decode_context c.contexts saga))
    saga ← set_context c.contexts saga (record ctx { notification_id = some p.notification_id })
    updated_at ← now e
    at ← now e
    upsert e (reset_schedule (record saga { state = completed; updated_at = updated_at }) at)
    count count_completed
    record_step e saga_id send_notification forward step_succeeded none

  unfoldable pub handle_notification_sent : Message → M SagaDb Unit
  unfolding on_notification_sent
  handle_notification_sent msg = once e msg (on_notification_sent msg)
