-- ===== src/Orchestrator/Service/Effects.antt =====
-- An abstract description of what a handler of the saga service does: the rows that it writes when
-- it commits.
use go_saga_outbox.Base.{String, ◌≡◌, Option, none, some, List, [], ◌∷◌, ◌++◌}
use go_saga_outbox.Runtime.{Uuid, Time, Bytes, Result, good, Env}
use go_saga_outbox.Storage.{new_inbox, Outbox}
use go_saga_outbox.Contracts.{MessageHeaders, new_message_headers}
use go_saga_outbox.Contracts.Inventory.{ReserveSeat, ReleaseSeat}
use go_saga_outbox.Contracts.Inventory
use go_saga_outbox.Contracts.Payment.{Charge, Refund}
use go_saga_outbox.Contracts.Payment
use go_saga_outbox.Contracts.Notification.{Send}
use go_saga_outbox.Contracts.Notification
use go_saga_outbox.Inbox.Ends.{Unwritten}
use go_saga_outbox.Kafka.{Message}
use go_saga_outbox.Orchestrator.Model.{
  BookTicketContext, BookTicketPayload, SagaStepName, SagaStepDirection, SagaStepStatus, Saga,
  new_saga_step,
}
use go_saga_outbox.Orchestrator.Repo.{SagaDb, upsert_saga}
use go_saga_outbox.Orchestrator.Service.Shared.{Codecs, consumer_name, aggregate_type}

-- The commands that the saga service sends.
pub data Command : Type 0 where
  reserve : ReserveSeat → Command
  release : ReleaseSeat → Command
  charge : Charge → Command
  refund : Refund → Command
  send : Send → Command

abbrev pub topic_of : Command → String
topic_of (reserve p) = Inventory.topic_commands
topic_of (release p) = Inventory.topic_commands
topic_of (charge p) = Payment.topic_commands
topic_of (refund p) = Payment.topic_commands
topic_of (send p) = Notification.topic_commands

abbrev pub event_type_of : Command → String
event_type_of (reserve p) = Inventory.event_type_reserve_seat
event_type_of (release p) = Inventory.event_type_release_seat
event_type_of (charge p) = Payment.event_type_charge
event_type_of (refund p) = Payment.event_type_refund
event_type_of (send p) = Notification.event_type_send

abbrev pub encoded : Codecs → Command → Result Bytes
encoded c (reserve p) = c.reserve_seats.marshal p
encoded c (release p) = c.release_seats.marshal p
encoded c (charge p) = c.charges.marshal p
encoded c (refund p) = c.refunds.marshal p
encoded c (send p) = c.sends.marshal p

-- What encoding/json does for structs of texts, numbers and UUIDs: marshalling does not fail.
pub record Encodes (c : Codecs) : Type 0 where
  pub contexts : (v : BookTicketContext) → (b : Bytes) × (c.contexts.marshal v ≡ good b)
  pub payloads : (v : BookTicketPayload) → (b : Bytes) × (c.payloads.marshal v ≡ good b)
  pub headers : (v : MessageHeaders) → (b : Bytes) × (c.headers.marshal v ≡ good b)
  pub commands : (v : Command) → (b : Bytes) × (encoded c v ≡ good b)

-- One row of the outbox for a command, under the saga's key.
abbrev pub outbox_row : Uuid → Uuid → Command → Bytes → Bytes → Time → Outbox
outbox_row id saga_id cmd payload headers at = record {
  id = id;
  aggregate_type = aggregate_type;
  aggregate_id = saga_id;
  topic = topic_of cmd;
  key = saga_id;
  payload = payload;
  headers = headers;
  created_at = at;
  published_at = none;
}

-- `rows` is one outbox row with the command's JSON and headers that name its cause.
pub record SentRow (c : Codecs) (saga_id : Uuid) (cause : Option Uuid) (cmd : Command)
    (rows : List Outbox) : Type 0 where
  pub id : Uuid
  pub at : Time
  pub payload : Bytes
  pub headers : Bytes
  pub payload_json : encoded c cmd ≡ good payload
  pub headers_json :
      c.headers.marshal (new_message_headers id saga_id cause (event_type_of cmd)) ≡ good headers
  pub row : rows ≡ outbox_row id saga_id cmd payload headers at ∷ []

abbrev pub Sent : Codecs → Uuid → Option Uuid → Option Command → List Outbox → Type 0
Sent c saga_id cause none rows = rows ≡ []
Sent c saga_id cause (some cmd) rows = SentRow c saga_id cause cmd rows

-- What a handler means to write: the saga's new row, a step, and a command or none.
pub record Plan : Type 0 where
  pub saga : Saga
  pub saga_id : Uuid
  pub step_name : SagaStepName
  pub direction : SagaStepDirection
  pub status : SagaStepStatus
  pub error : Option String
  pub command : Option Command

-- The handler of `msg` took the tables from `d` to `d'` by one inbox row, the saga's row, one step
-- row and the outbox rows of its command, and touched nothing else.
pub record Wrote (c : Codecs) (msg : Message) (x : Plan) (d d' : SagaDb) : Type 0 where
  pub processed_at : Time
  pub step_id : Uuid
  pub step_at : Time
  pub rows : List Outbox
  pub sent : Sent c x.saga_id (some msg.message_id) x.command rows
  pub tables : d' ≡ record {
    inbox = new_inbox msg.message_id consumer_name processed_at ∷ d.inbox;
    outbox = rows ++ d.outbox;
    dead_message = d.dead_message;
    own = record {
      saga = upsert_saga x.saga d.own.saga;
      saga_step =
          record (new_saga_step step_id x.saga_id x.step_name x.direction step_at) {
            status = x.status;
            error = x.error;
          }
          ∷ d.own.saga_step;
    };
  }

-- The handler only noted the message in the inbox.
pub record Ignored (msg : Message) (d d' : SagaDb) : Type 0 where
  pub processed_at : Time
  pub tables :
      d' ≡ record d { inbox = new_inbox msg.message_id consumer_name processed_at ∷ d.inbox }

-- The message had been seen or the commit failed, and no table changed.
abbrev pub Skipped : Env → Message → SagaDb → SagaDb → Type 0
Skipped e msg d d' = Unwritten e consumer_name msg.message_id d d'

-- The scheduler took the tables from `d` to `d'` by the saga's row, one step row and the outbox
-- rows of a command without a cause, and touched nothing else.
pub record Acted (c : Codecs) (x : Plan) (d d' : SagaDb) : Type 0 where
  pub step_id : Uuid
  pub step_at : Time
  pub rows : List Outbox
  pub sent : Sent c x.saga_id none x.command rows
  pub tables : d' ≡ record d {
    outbox = rows ++ d.outbox;
    own = record {
      saga = upsert_saga x.saga d.own.saga;
      saga_step =
          record (new_saga_step step_id x.saga_id x.step_name x.direction step_at) {
            status = x.status;
            error = x.error;
          }
          ∷ d.own.saga_step;
    };
  }
