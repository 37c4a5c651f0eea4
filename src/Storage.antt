-- ===== src/Storage.antt =====
-- The tables that every service's database has (the migrations): `inbox`, `outbox` and
-- `dead_message`, beside the tables of its own. A table is a list of rows, the latest first.
use go_saga_outbox.Base.{String, Option, List}
use go_saga_outbox.Runtime.{Uuid, Time, Bytes}

-- pkg/inbox/inbox.go
pub record Inbox : Type 0 where
  pub message_id : Uuid
  pub consumer : String
  pub processed_at : Time

abbrev pub new_inbox : Uuid → String → Time → Inbox
new_inbox message_id consumer now = record {
  message_id = message_id;
  consumer = consumer;
  processed_at = now;
}

-- pkg/outbox/outbox.go
pub record Outbox : Type 0 where
  pub id : Uuid
  pub aggregate_type : String
  pub aggregate_id : Uuid
  pub topic : String
  pub key : Uuid
  pub payload : Bytes
  pub headers : Bytes
  pub created_at : Time
  pub published_at : Option Time

-- pkg/dlq/dead_message.go
pub record DeadMessage : Type 0 where
  pub id : Uuid
  pub saga_id : Option Uuid
  pub message_id : Uuid
  pub topic : String
  pub payload : Bytes
  pub headers : Bytes
  pub reason : String
  pub consumer : String
  pub created_at : Time
  pub replayed_at : Option Time

pub record Db (T : Type 0) : Type 0 where
  pub inbox : List Inbox
  pub outbox : List Outbox
  pub dead_message : List DeadMessage
  pub own : T
