-- ===== src/Contracts/Notification.antt =====
-- pkg/contracts/notification. Its `Refund` and `Refunded`, and their event types, are used by no
-- service and are left out.
use go_saga_outbox.Base.{String}
use go_saga_outbox.Runtime.{Uuid}

abbrev pub topic_commands : String
topic_commands = "saga.notification.commands"

abbrev pub event_type_send : String
event_type_send = "send.command"

pub record Send : Type 0 where
  pub saga_id : Uuid
  pub user_id : Uuid
  pub channel : String

abbrev pub new_send : Uuid → Uuid → String → Send
new_send saga_id user_id channel = record {
  saga_id = saga_id;
  user_id = user_id;
  channel = channel;
}

abbrev pub topic_events : String
topic_events = "saga.notification.events"

abbrev pub event_type_sent : String
event_type_sent = "notification.sent"

abbrev pub event_type_failed : String
event_type_failed = "notification.failed"

pub record Sent : Type 0 where
  pub notification_id : Uuid
  pub saga_id : Uuid

abbrev pub new_sent : Uuid → Uuid → Sent
new_sent notification_id saga_id = record { notification_id = notification_id; saga_id = saga_id }

pub record Failed : Type 0 where
  pub saga_id : Uuid
  pub notification_id : Uuid
  pub reason : String

abbrev pub new_failed : Uuid → Uuid → String → Failed
new_failed saga_id notification_id reason = record {
  saga_id = saga_id;
  notification_id = notification_id;
  reason = reason;
}
