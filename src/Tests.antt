-- ===== src/Tests.antt =====
-- The theorems at concrete inputs: one saga at each point of its way, with codecs that write the
-- numbers of a value as a list. (Texts are left out of it and come back as constants.)
pub mod Handlers
pub mod Compensating
pub mod Messaging
pub mod Relaying
pub mod Paying
pub mod Scheduling
pub mod Reserving
pub mod Notifying
pub mod Serving
pub mod Collecting
pub mod Texts
pub mod Sequences
pub mod Flowing
use go_saga_outbox.Base.{
  ℕ, suc, ◌+◌, ◌-◌, ◌==◌, pos, String, true, false, Option, none, some, [], ◌∷◌, str_eq,
  if◌then◌else◌, ◌≡◌, refl,
}
use go_saga_outbox.Runtime.{
  Uuid, Bytes, Error, json_syntax, json_type, Result, good, bad, Codec, Env, Metrics, World,
}
use go_saga_outbox.Storage.{Db}
use go_saga_outbox.Contracts.{MessageHeaders}
use go_saga_outbox.Contracts.Inventory.{
  ReserveSeat, ReleaseSeat, SeatReserved, SeatReservationFailed, SeatReleased,
}
use go_saga_outbox.Contracts.Payment.{Charge, Charged, Refund, Refunded, Failed as PaymentFailed}
use go_saga_outbox.Contracts.Notification.{Send, Sent, Failed as NotificationFailed}
use go_saga_outbox.Kafka.{Headers, Message}
use go_saga_outbox.Orchestrator.Model.{
  BookTicketPayload, BookTicketContext, SagaState, SagaStepName, Saga,
}
use go_saga_outbox.Orchestrator.Repo.{SagaDb}
use go_saga_outbox.Orchestrator.Service.Shared.{Codecs}
use go_saga_outbox.Orchestrator.Service.Effects.{
  Command, reserve, release, charge, refund, send, encoded, Encodes,
}

-- A clock that ticks, fresh ids from 100 on, and no faults.
abbrev pub calm : Env
calm = record {
  now = λ n. n;
  fresh = λ n. 100 + n;
  rand = λ n. 0;
  fault = λ n. false;
  locked = λ n id. false;
  parse_uuid = λ s. if str_eq s "7" then some 7 else none;
  uuid_text = λ id. "7";
  int_text = λ n. "1";
  error_text = λ x. "error";
  jsonb = λ b. b;
}

-- The third statement fails.
abbrev pub faulty : Env
faulty = record calm { fault = λ n. n == 3 }

abbrev optional : Option Uuid → ℕ
optional none = 0
optional (some id) = suc id

abbrev as_optional : ℕ → Option Uuid
as_optional n = if n == 0 then none else some (n - 1)

abbrev read_context : Bytes → Result BookTicketContext
read_context (r ∷ s ∷ p ∷ n ∷ []) = good (record {
  reservation_id = as_optional r;
  seat_id = as_optional s;
  payment_id = as_optional p;
  notification_id = as_optional n;
})
read_context _ = bad json_syntax

abbrev read_payload : Bytes → Result BookTicketPayload
read_payload (event ∷ user ∷ []) =
    good (record { event_id = event; user_id = user; amount = pos 250; channel = "email" })
read_payload _ = bad json_syntax

-- A JSON object of texts starts with 0 here.
abbrev read_headers : Bytes → Result MessageHeaders
read_headers (mark ∷ m ∷ s ∷ cause ∷ []) =
    if mark == 0
    then bad json_type
    else good (record {
      message_id = m;
      saga_id = s;
      causation_id = as_optional cause;
      event_type = "charge.command";
      schema_version = 1;
    })
read_headers _ = bad json_type

-- A codec for values that the service only writes.
abbrev pub write_only : {A : Type 0} → (A → Bytes) → Codec A
write_only f = record { marshal = λ a. good (f a); unmarshal = λ b. bad json_syntax }

-- A codec for events: every text is this event.
abbrev pub read_only : {A : Type 0} → A → Codec A
read_only a = record { marshal = λ a. bad json_syntax; unmarshal = λ b. good a }

abbrev pub codecs : Codecs
codecs = record {
  payloads = record { marshal = λ p. good (p.event_id ∷ p.user_id ∷ []); unmarshal = read_payload };
  contexts = record {
    marshal = λ v. good (
        optional v.reservation_id
        ∷ optional v.seat_id
        ∷ optional v.payment_id
        ∷ optional v.notification_id
        ∷ []);
    unmarshal = read_context;
  };
  headers = record {
    marshal = λ h. good (1 ∷ h.message_id ∷ h.saga_id ∷ optional h.causation_id ∷ []);
    unmarshal = read_headers;
  };
  reserve_seats = write_only λ v. v.saga_id ∷ v.event_id ∷ v.user_id ∷ [];
  release_seats = write_only λ v. v.saga_id ∷ v.reservation_id ∷ v.seat_id ∷ [];
  charges = write_only λ v. v.saga_id ∷ v.user_id ∷ [];
  refunds = write_only λ v. v.saga_id ∷ v.payment_id ∷ [];
  sends = write_only λ v. v.saga_id ∷ v.user_id ∷ [];
  seats_reserved =
      read_only (record { reservation_id = 5; seat_id = 6; event_id = 3; user_id = 4 });
  reservations_failed =
      read_only (record { saga_id = 7; event_id = 3; user_id = 4; reason = "no free seats" });
  seats_released = read_only (record { saga_id = 7; seat_id = 6; reservation_id = 5 });
  charged = read_only (record { payment_id = 8; saga_id = 7; amount = pos 250 });
  payments_failed = read_only (record { saga_id = 7; reason = "declined" });
  refunded = read_only (record { saga_id = 7; payment_id = 8 });
  sent = read_only (record { notification_id = 9; saga_id = 7 });
  notifications_failed =
      read_only (record { saga_id = 7; notification_id = 9; reason = "unreachable" });
}

command_json : (v : Command) → (b : Bytes) × (encoded codecs v ≡ good b)
command_json (reserve p) = (_, refl)
command_json (release p) = (_, refl)
command_json (charge p) = (_, refl)
command_json (refund p) = (_, refl)
command_json (send p) = (_, refl)

pub codecs_encode : Encodes codecs
codecs_encode = record {
  contexts = λ v. (_, refl);
  payloads = λ v. (_, refl);
  headers = λ v. (_, refl);
  commands = command_json;
}

-- Saga 7: event 3, user 4, reservation 5, seat 6, payment 8.
abbrev pub saga_at : SagaState → SagaStepName → ℕ → Saga
saga_at state step attempts = record {
  id = 7;
  type = "book_ticket";
  state = state;
  current_step = step;
  payload = 3 ∷ 4 ∷ [];
  context = 6 ∷ 7 ∷ 9 ∷ 0 ∷ [];
  attempts = attempts;
  next_attempt_at = some 0;
  created_at = 0;
  updated_at = 0;
}

abbrev pub tables_of : Saga → SagaDb
tables_of saga = record {
  inbox = [];
  outbox = [];
  dead_message = [];
  own = record { saga = saga ∷ []; saga_step = [] };
}

abbrev pub world : {D : Type 0} → D → World D
world db = record {
  db = db;
  aborted = false;
  tick = 0;
  metrics = record {
    saga_completed = 0;
    saga_compensated = 0;
    saga_failed = 0;
    saga_stuck = 0;
    saga_retries = [];
    inbox_duplicates = [];
    dlq_messages = [];
  };
  sent = [];
}

abbrev pub message : String → Message
message event_type = record {
  topic = "saga.payment.events";
  partition = 0;
  offset = 12;
  key = 7 ∷ [];
  value = 1 ∷ [];
  headers = ("saga_id", "7") ∷ ("event_type", event_type) ∷ ("schema_version", "1") ∷ [];
  message_id = 55;
}
