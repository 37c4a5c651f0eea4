-- ===== src/Orchestrator/Service/Shared.antt =====
-- What the handlers of the saga service share: the codecs, the inbox check at the start, a new
-- step row, a new command in the outbox, and `IsPermanent`.
use go_saga_outbox.Base.{String, Bool, true, false, ◌||◌, Option, none, some, str_eq, if◌then◌else◌}
use go_saga_outbox.Runtime.{
  Uuid, Error, malformed_headers, payload_context_mismatch, no_reservation_id, no_payment_id,
  no_seat_id, joined, Result, good, bad, Codec, Env, M, pure, now, v7, ◌>>=◌,
}
use go_saga_outbox.Trx.{run}
use go_saga_outbox.Contracts.{MessageHeaders, new_message_headers}
use go_saga_outbox.Contracts.Inventory.{
  ReserveSeat, ReleaseSeat, SeatReserved, SeatReservationFailed, SeatReleased,
}
use go_saga_outbox.Contracts.Payment.{Charge, Charged, Refund, Refunded, Failed as PaymentFailed}
use go_saga_outbox.Contracts.Notification.{Send, Sent, Failed as NotificationFailed}
use go_saga_outbox.Inbox.{dedup}
use go_saga_outbox.Outbox.{new_outbox, append}
use go_saga_outbox.Kafka.{Message}
use go_saga_outbox.Dlq.{is_base_permanent}
use go_saga_outbox.Orchestrator.Model.{
  BookTicketPayload, BookTicketContext, SagaStepName, SagaStepDirection, SagaStepStatus,
  new_saga_step,
}
use go_saga_outbox.Orchestrator.Repo.{SagaDb, append_step}

-- JSON at the types that the service encodes and decodes.
pub record Codecs : Type 0 where
  pub payloads : Codec BookTicketPayload
  pub contexts : Codec BookTicketContext
  pub headers : Codec MessageHeaders
  pub reserve_seats : Codec ReserveSeat
  pub release_seats : Codec ReleaseSeat
  pub charges : Codec Charge
  pub refunds : Codec Refund
  pub sends : Codec Send
  pub seats_reserved : Codec SeatReserved
  pub reservations_failed : Codec SeatReservationFailed
  pub seats_released : Codec SeatReleased
  pub charged : Codec Charged
  pub payments_failed : Codec PaymentFailed
  pub refunded : Codec Refunded
  pub sent : Codec Sent
  pub notifications_failed : Codec NotificationFailed

abbrev pub consumer_name : String
consumer_name = "orchestrator"

abbrev pub saga_type : String
saga_type = "book_ticket"

abbrev pub aggregate_type : String
aggregate_type = "saga"

-- `if payload.Reason != "" { step.Error = &payload.Reason }`
abbrev pub reason_ptr : String → Option String
reason_ptr reason = if str_eq reason "" then none else some reason

-- A decoding error gives way to a sentinel.
abbrev pub or_error : {A : Type 0} → Error → Result A → Result A
or_error x (good a) = good a
or_error x (bad y) = bad x

-- The start of every handler: nothing is left to do for a message that the inbox has seen.
unfoldable pub unless_seen : Env → Message → M SagaDb Unit → M SagaDb Unit
unless_seen e msg body = do
  at ← now e
  inserted ← dedup e msg.message_id consumer_name at
  if inserted then body else pure tt

-- The body of a handler runs in a transaction.
unfoldable pub once : Env → Message → M SagaDb Unit → M SagaDb Unit
once e msg body = run e (unless_seen e msg body)

-- A row of `saga_step` with its status and error.
unfoldable pub record_step :
    Env → Uuid → SagaStepName → SagaStepDirection → SagaStepStatus → Option String → M SagaDb Unit
record_step e saga_id name direction status error = do
  id ← v7 e
  at ← now e
  append_step e
      (record (new_saga_step id saga_id name direction at) { status = status; error = error })

-- A command in the outbox, for the saga and its key.
unfoldable pub emit :
    {P : Type 0} → Env → Codecs → Codec P → String → String → P → Uuid → Option Uuid → M SagaDb Unit
emit e c codec topic event_type cmd saga_id causation = do
  msg_id ← v7 e
  let headers = new_message_headers msg_id saga_id causation event_type
  at ← now e
  row ← new_outbox codec c.headers msg_id saga_id saga_id aggregate_type topic cmd headers at
  append e row

abbrev has_sentinel : Error → Bool
has_sentinel malformed_headers = true
has_sentinel payload_context_mismatch = true
has_sentinel no_reservation_id = true
has_sentinel no_payment_id = true
has_sentinel no_seat_id = true
has_sentinel (joined x) = has_sentinel x
has_sentinel _ = false

-- `IsPermanent`
unfoldable pub is_permanent : Error → Bool
is_permanent x = is_base_permanent x || has_sentinel x
