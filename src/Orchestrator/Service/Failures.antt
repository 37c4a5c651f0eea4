-- ===== src/Orchestrator/Service/Failures.antt =====
-- The handlers of failed steps: `HandleSeatReservationFailed`, `HandlePaymentFailed` and
-- `HandleNotificationFailed`.
pub mod SeatReservationFailed
pub mod PaymentFailed
pub mod NotificationFailed
use go_saga_outbox.Base.{ℕ, ◌+◌, ◌||◌, none, some, if◌then◌else◌}
use go_saga_outbox.Runtime.{
  decode_saga_ctx, Env, Metrics, M, pure, lift, deref, count, now, ◌>>=◌, ◌>>◌,
}
use go_saga_outbox.Contracts.Inventory.{new_release_seat}
use go_saga_outbox.Contracts.Inventory
use go_saga_outbox.Contracts.Payment.{new_refund}
use go_saga_outbox.Contracts.Payment
use go_saga_outbox.Kafka.{Message, get_saga_id_from_headers}
use go_saga_outbox.Orchestrator.Model.{
  compensating, failed, reserve_seat, charge_payment, send_notification, forward, step_failed, Saga,
  set_context, decode_context, is_compensated, is_compensating, validate_reservation_id,
  validate_seat_id, validate_payment_id,
}
use go_saga_outbox.Orchestrator.Repo.{SagaDb, upsert, find_by_id}
use go_saga_outbox.Orchestrator.Service.Shared.{
  Codecs, reason_ptr, or_error, once, record_step, emit,
}

abbrev pub count_failed : Metrics → Metrics
count_failed m = record m { saga_failed = m.saga_failed + 1 }

module _ (e : Env) (c : Codecs) where
  on_seat_reservation_failed : Message → M SagaDb Unit
  on_seat_reservation_failed msg = do
    saga_id ← lift (get_saga_id_from_headers e msg)
    saga ← find_by_id e saga_id
    payload ← lift (c.reservations_failed.unmarshal msg.value)
    at ← now e
    upsert e (record saga { state = failed; updated_at = at })
    count count_failed
    record_step e saga_id reserve_seat forward step_failed (reason_ptr payload.reason)

  unfoldable pub handle_seat_reservation_failed : Message → M SagaDb Unit
  unfolding on_seat_reservation_failed
  handle_seat_reservation_failed msg = once e msg (on_seat_reservation_failed msg)

  on_payment_failed : Message → M SagaDb Unit
  on_payment_failed msg = do
    saga_id ← lift (get_saga_id_from_headers e msg)
    payload ← lift (c.payments_failed.unmarshal msg.value)
    saga ← find_by_id e saga_id
    if is_compensated saga || is_compensating saga then pure tt else do
      ctx ← lift (decode_context c.contexts saga)
      at ← now e
      upsert e (record saga { state = compensating; updated_at = at })
      record_step e saga_id charge_payment forward step_failed (reason_ptr payload.reason)
      lift (validate_reservation_id ctx)
      lift (validate_seat_id ctx)
      reservation_id ← deref ctx.reservation_id
      seat_id ← deref ctx.seat_id
      emit e c c.release_seats Inventory.topic_commands Inventory.event_type_release_seat
          (new_release_seat saga_id reservation_id seat_id) saga_id (some msg.message_id)

  unfoldable pub handle_payment_failed : Message → M SagaDb Unit
  unfolding on_payment_failed
  handle_payment_failed msg = once e msg (on_payment_failed msg)

  on_notification_failed : Message → M SagaDb Unit
  on_notification_failed msg = do
    saga_id ← lift (get_saga_id_from_headers e msg)
    failure ← lift (c.notifications_failed.unmarshal msg.value)
    saga ← find_by_id e saga_id
    if is_compensated saga || is_compensating saga then pure tt else do
      ctx ← lift (or_error decode_saga_ctx (decode_context c.contexts saga))
      lift (validate_payment_id ctx)
      saga ←
          set_context c.contexts saga
            (record ctx { notification_id = some failure.notification_id })
      at ← now e
      upsert e (record saga { state = compensating; updated_at = at })
      record_step e saga_id send_notification forward step_failed (reason_ptr failure.reason)
      payment_id ← deref ctx.payment_id
      emit e c c.refunds Payment.topic_commands Payment.event_type_refund
          (new_refund saga_id payment_id) saga_id (some msg.message_id)

  unfoldable pub handle_notification_failed : Message → M SagaDb Unit
  unfolding on_notification_failed
  handle_notification_failed msg = once e msg (on_notification_failed msg)
