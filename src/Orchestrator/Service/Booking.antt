-- ===== src/Orchestrator/Service/Booking.antt =====
-- `StartBooking` and `GetBooking`.
pub mod Created
use go_saga_outbox.Base.{ℤ, String, none}
use go_saga_outbox.Runtime.{Uuid, Env, M, pure, now, v7, ◌>>=◌, ◌>>◌}
use go_saga_outbox.Trx.{run, autocommit}
use go_saga_outbox.Contracts.Inventory.{topic_commands, event_type_reserve_seat, new_reserve_seat}
use go_saga_outbox.Orchestrator.Model.{
  reserve_seat, Saga, new_book_ticket_payload, new_saga, schedule_next,
}
use go_saga_outbox.Orchestrator.Repo.{SagaDb, upsert, find_by_id}
use go_saga_outbox.Orchestrator.Service.Shared.{Codecs, saga_type, emit}

module _ (e : Env) (c : Codecs) where
  -- The transaction of `StartBooking`.
  create_saga : Uuid → Uuid → Uuid → String → ℤ → M SagaDb Unit
  create_saga saga_id event_id user_id channel amount = do
    let payload = new_book_ticket_payload event_id user_id amount channel
    created_at ← now e
    saga ← new_saga e c.payloads saga_id saga_type payload created_at
    at ← now e
    saga ← schedule_next e (record saga { current_step = reserve_seat }) at
    upsert e saga
    emit e c c.reserve_seats topic_commands event_type_reserve_seat
        (new_reserve_seat saga_id event_id user_id) saga_id none

  unfoldable pub start_booking : Uuid → Uuid → String → ℤ → M SagaDb Uuid
  unfolding run create_saga
  start_booking event_id user_id channel amount = do
    saga_id ← v7 e
    run e (create_saga saga_id event_id user_id channel amount)
    pure saga_id

  unfoldable pub get_booking : Uuid → M SagaDb Saga
  unfolding autocommit
  get_booking saga_id = autocommit (find_by_id e saga_id)
