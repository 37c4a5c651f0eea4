-- ===== src/Contracts.antt =====
-- pkg/contracts and pkg/messaging: the topics, event types and payloads that services exchange.
pub mod Inventory
pub mod Payment
pub mod Notification
use go_saga_outbox.Base.{ℕ, String, Option}
use go_saga_outbox.Runtime.{Uuid}

-- `messaging.MessageHeaders`
pub record MessageHeaders : Type 0 where
  pub message_id : Uuid
  pub saga_id : Uuid
  pub causation_id : Option Uuid
  pub event_type : String
  pub schema_version : ℕ

abbrev pub new_message_headers : Uuid → Uuid → Option Uuid → String → MessageHeaders
new_message_headers message_id saga_id causation event_type = record {
  message_id = message_id;
  saga_id = saga_id;
  causation_id = causation;
  event_type = event_type;
  schema_version = 1;
}
