-- ===== src/Handling.antt =====
-- What the handlers of the payment, inventory and notification services repeat: a body that runs
-- once for a message, in a transaction, and an event in the outbox.
pub mod Ends
use go_saga_outbox.Base.{String, some, if◌then◌else◌}
use go_saga_outbox.Runtime.{Uuid, Codec, Env, M, pure, now, v7, ◌>>=◌}
use go_saga_outbox.Trx.{run}
use go_saga_outbox.Storage.{Db}
use go_saga_outbox.Contracts.{MessageHeaders, new_message_headers}
use go_saga_outbox.Inbox.{dedup}
use go_saga_outbox.Outbox.{new_outbox, append}
use go_saga_outbox.Kafka.{Message}

module _ {T : Type 0} (e : Env) where
  -- Nothing is left to do for a message that the consumer's inbox has seen.
  unless_seen : String → Message → M (Db T) Unit → M (Db T) Unit
  unfolding dedup
  unless_seen consumer msg body = do
    at ← now e
    inserted ← dedup e msg.message_id consumer at
    if inserted then body else pure tt

  unfoldable pub once : String → Message → M (Db T) Unit → M (Db T) Unit
  unfolding run unless_seen
  once consumer msg body = run e (unless_seen consumer msg body)

  -- The `emit` of the three services, by its aggregate type and topic.
  unfoldable pub emit :
      {P : Type 0}
      → Codec MessageHeaders
      → Codec P
      → String
      → String
      → Uuid
      → Uuid
      → String
      → P
      → Uuid
      → M (Db T) Unit
  unfolding append
  emit headings codec aggregate_type topic aggregate_id saga_id event_type payload causation_id = do
    msg_id ← v7 e
    let headers = new_message_headers msg_id saga_id (some causation_id) event_type
    at ← now e
    row ←
        new_outbox codec headings msg_id aggregate_id saga_id aggregate_type topic payload headers
          at
    append e row
