-- ===== src/Orchestrator/Service/Compensation.antt =====
-- The handlers of a compensating saga: `HandlePaymentRefunded` and `HandleSeatReleased`.
pub mod PaymentRefunded
pub mod SeatReleased
use go_saga_outbox.Base.{ℕ, ◌+◌, Bool, true, not, none, some, ◌==◌, if◌then◌else◌}
use go_saga_outbox.Runtime.{
  payload_context_mismatch, decode_saga_ctx, Env, Metrics, M, pure, raise, lift, deref, count, now,
  ◌>>=◌, ◌>>◌,
}
use go_saga_outbox.Contracts.Inventory.{new_release_seat}
use go_saga_outbox.Contracts.Inventory
use go_saga_outbox.Kafka.{Message, get_saga_id_from_headers}
use go_saga_outbox.Orchestrator.Model.{
  compensated, reserve_seat, charge_payment, compensate, step_succeeded, BookTicketContext, Saga,
  decode_context, is_compensating, compare_payment_id, validate_reservation_id, validate_seat_id,
}
use go_saga_outbox.Orchestrator.Repo.{SagaDb, upsert, find_by_id}
use go_saga_outbox.Orchestrator.Service.Shared.{Codecs, or_error, once, record_step, emit}

abbrev pub count_compensated : Metrics → Metrics
count_compensated m = record m { saga_compensated = m.saga_compensated + 1 }

module _ (e : Env) (c : Codecs) where
  on_payment_refunded : Message → M SagaDb Unit
  on_payment_refunded msg = do
    refunded ← lift (c.refunded.unmarshal msg.value)
    saga_id ← lift (get_saga_id_from_headers e msg)
    saga ← find_by_id e saga_id
    if not (is_compensating saga) then pure tt else do
      ctx ← lift (or_error decode_saga_ctx (decode_context c.contexts saga))
      lift (validate_reservation_id ctx)
      lift (validate_seat_id ctx)
      if not (compare_payment_id ctx refunded.payment_id)
          then raise payload_context_mismatch
          else do
            at ← now e
            upsert e (record saga { updated_at = at })
            record_step e saga_id charge_payment compensate step_succeeded none
            reservation_id ← deref ctx.reservation_id
            seat_id ← deref ctx.seat_id
            emit e c c.release_seats Inventory.topic_commands Inventory.event_type_release_seat
                (new_release_seat saga_id reservation_id seat_id) saga_id (some msg.message_id)

  unfoldable pub handle_payment_refunded : Message → M SagaDb Unit
  unfolding on_payment_refunded
  handle_payment_refunded msg = once e msg (on_payment_refunded msg)

  -- `*sagaCtx.ReservationID != payload.ReservationID || *sagaCtx.SeatID != payload.SeatID`
  unfoldable pub is_mismatch : BookTicketContext → Inventory.SeatReleased → M SagaDb Bool
  is_mismatch ctx payload = do
    reservation_id ← deref ctx.reservation_id
    if not (reservation_id == payload.reservation_id)
        then pure true
        else do seat_id ← deref ctx.seat_id; pure (not (seat_id == payload.seat_id))

  on_seat_released : Message → M SagaDb Unit
  on_seat_released msg = do
    payload ← lift (c.seats_released.unmarshal msg.value)
    saga_id ← lift (get_saga_id_from_headers e msg)
    saga ← find_by_id e saga_id
    if not (is_compensating saga) then pure tt else do
      ctx ← lift (or_error decode_saga_ctx (decode_context c.contexts saga))
      lift (validate_reservation_id ctx)
      lift (validate_seat_id ctx)
      mismatch ← is_mismatch ctx payload
      if mismatch then raise payload_context_mismatch else do
        at ← now e
        upsert e (record saga { state = compensated; updated_at = at })
        count count_compensated
        record_step e saga_id reserve_seat compensate step_succeeded none

  unfoldable pub handle_seat_released : Message → M SagaDb Unit
  unfolding on_seat_released
  handle_seat_released msg = once e msg (on_seat_released msg)
