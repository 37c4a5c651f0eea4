-- ===== src/Tests/Flowing.antt =====
-- A booking that goes to the inventory service.
use mathlib.Core.List.Perm
use go_saga_outbox.Base.{◌≡◌, refl, none, [], ◌∷◌, ◌+◌}
use go_saga_outbox.Runtime.{Bytes, json_syntax, Result, good, bad, ok, Env}
use go_saga_outbox.Runtime.Ends.{Ends}
use go_saga_outbox.Storage.{Outbox}
use go_saga_outbox.Contracts.{MessageHeaders, new_message_headers}
use go_saga_outbox.Contracts.Inventory.{ReserveSeat}
use go_saga_outbox.Kafka.{Fetched, to_message}
use go_saga_outbox.Orchestrator.Model.{running, charge_payment}
use go_saga_outbox.Orchestrator.Repo.{SagaDb}
use go_saga_outbox.Orchestrator.Service.Shared
use go_saga_outbox.Reservations
use go_saga_outbox.Reservations.{route}
use go_saga_outbox.Tests.{codecs, saga_at, tables_of, world}
use go_saga_outbox.Tests.Reserving.{seat_codecs, for_sale}
use go_saga_outbox.Tests.Sequences.{lettered}
use go_saga_outbox.Tests.Texts.{text_of}

abbrev read_command : Bytes → Result ReserveSeat
read_command (saga ∷ event ∷ user ∷ []) =
    good (record { saga_id = saga; event_id = event; user_id = user })
read_command _ = bad json_syntax

-- The inventory service reads the commands that the orchestrator writes.
abbrev reading : Reservations.Codecs
reading = record seat_codecs {
  reserves = record {
    marshal = λ p. good (p.saga_id ∷ p.event_id ∷ p.user_id ∷ []);
    unmarshal = read_command;
  };
}

abbrev read_back : Bytes → Result MessageHeaders
read_back (mark ∷ id ∷ saga ∷ cause ∷ []) =
    good (new_message_headers id saga none "reserve.command")
read_back _ = bad json_syntax

abbrev writing : Shared.Codecs
writing = record codecs {
  headers = record { marshal = codecs.headers.marshal; unmarshal = read_back };
}

abbrev then_read : {A : Type 0} → (Bytes → Result A) → Result Bytes → Result A
then_read f (good b) = f b
then_read f (bad x) = bad x

abbrev before : SagaDb
before = tables_of (saga_at running charge_payment 1)

abbrev calling : Env
calling = record lettered { fresh = λ n. 10 + n }

-- The row that the booking leaves.
abbrev row : Outbox
row = record {
  id = 17;
  aggregate_type = "saga";
  aggregate_id = 10;
  topic = "saga.inventory.commands";
  key = 10;
  payload = 10 ∷ 3 ∷ 4 ∷ [];
  headers = 1 ∷ 17 ∷ 10 ∷ 0 ∷ [];
  created_at = 8;
  published_at = none;
}

-- The headers arrive in another order.
abbrev arrived : Fetched
arrived = record {
  topic = "saga.inventory.commands";
  partition = 0;
  offset = 3;
  key = 1 ∷ [];
  value = 10 ∷ 3 ∷ 4 ∷ [];
  headers =
      ("saga_id", text_of 10)
      ∷ ("message_id", text_of 17)
      ∷ ("event_type", "reserve.command")
      ∷ ("schema_version", "1")
      ∷ [];
}

-- The seat is reserved.
served_ok : (route calling reading (to_message calling arrived) (world for_sale)).0 ≡ ok tt
unfolding route go_saga_outbox.Reservations.handle_reserve_seat_command to_message
served_ok = refl
