-- ===== src/Orchestrator/Service/Router.antt =====
-- orchestrator/internal/consumer/router.go, and the handler that orchestrator/internal/app.go
-- gives to its consumers.
pub mod Atomic
pub mod Delivery
pub mod Moves
pub mod Transitions
use go_saga_outbox.Base.{String, str_eq, if◌then◌else◌}
use go_saga_outbox.Runtime.{Codec, Env, M, pure}
use go_saga_outbox.Contracts.Inventory
use go_saga_outbox.Contracts.Payment
use go_saga_outbox.Contracts.Notification
use go_saga_outbox.Kafka.{Headers, Message, Handler, header_or_empty}
use go_saga_outbox.Dlq.{wrap}
use go_saga_outbox.Orchestrator.Repo.{SagaDb}
use go_saga_outbox.Orchestrator.Service.Shared.{Codecs, consumer_name, is_permanent}
use go_saga_outbox.Orchestrator.Service.Forward.{
  handle_seat_reserved, handle_payment_charged, handle_notification_sent,
}
use go_saga_outbox.Orchestrator.Service.Failures.{
  handle_seat_reservation_failed, handle_payment_failed, handle_notification_failed,
}
use go_saga_outbox.Orchestrator.Service.Compensation.{handle_payment_refunded, handle_seat_released}

module _ (e : Env) (c : Codecs) where
  unfoldable pub dispatch : String → Message → M SagaDb Unit
  dispatch event_type msg =
      if str_eq event_type Inventory.event_type_seat_reserved
      then handle_seat_reserved e c msg
      else if str_eq event_type Inventory.event_type_seat_reservation_failed
      then handle_seat_reservation_failed e c msg
      else if str_eq event_type Inventory.event_type_seat_released
      then handle_seat_released e c msg
      else if str_eq event_type Payment.event_type_charged
      then handle_payment_charged e c msg
      else if str_eq event_type Payment.event_type_failed
      then handle_payment_failed e c msg
      else if str_eq event_type Payment.event_type_refunded
      then handle_payment_refunded e c msg
      else if str_eq event_type Notification.event_type_sent
      then handle_notification_sent e c msg
      else if str_eq event_type Notification.event_type_failed
      then handle_notification_failed e c msg
      else pure tt

  -- `Route`
  unfoldable pub route : Handler SagaDb
  unfolding dispatch
  route msg = dispatch (header_or_empty "event_type" msg.headers) msg

  -- The handler of all three consumers.
  unfoldable pub consumer_handler : Codec Headers → Handler SagaDb
  unfolding wrap route
  consumer_handler maps = wrap e maps consumer_name is_permanent route
