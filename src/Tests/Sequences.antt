-- ===== src/Tests/Sequences.antt =====
-- Several operations after each other, the relay's end, and a message on its way.
use mathlib.Core.List.Perm
use Prim.Native.String.{count}
use go_saga_outbox.Base.{◌≡◌, refl, ap, none, some, [], ◌∷◌, ℕ, arith}
use go_saga_outbox.Runtime.{ok, good, Env}
use go_saga_outbox.Storage.{Outbox}
use go_saga_outbox.Contracts.{MessageHeaders, new_message_headers}
use go_saga_outbox.Kafka.{Fetched, to_message, get_saga_id_from_headers, header}
use go_saga_outbox.Relay.{run_ticks}
use go_saga_outbox.Relay.Waiting.{waiting}
use go_saga_outbox.Relay.Draining.{run_ticks-drains}
use go_saga_outbox.Relay.RoundTrip.{to_message-record_of}
use go_saga_outbox.Orchestrator.Model.{running, charge_payment}
use go_saga_outbox.Orchestrator.Repo.{SagaDb}
use go_saga_outbox.Orchestrator.Repo.Growth.{Grew}
use go_saga_outbox.Orchestrator.Service.Growing.{
  deliver, poll, nothing, next, tables_after, Operated-Grew,
}
use go_saga_outbox.Orchestrator.Service.Router.{route}
use go_saga_outbox.Orchestrator.Service.Router.Moves.{Moves}
use go_saga_outbox.Orchestrator.Service.Router.Transitions.{route-Moves}
use go_saga_outbox.Tests.{calm, faulty, codecs, codecs_encode, saga_at, tables_of, world, message}
use go_saga_outbox.Tests.Texts.{text_of, count-text_of}

abbrev charging : SagaDb
charging = tables_of (saga_at running charge_payment 1)

-- A payment fails, and the scheduler polls, with a statement that fails.
abbrev failed_payment : SagaDb
failed_payment = tables_after calm codecs (deliver (message "payment.failed")) (world charging)

Operated-Grew_example : Grew charging (tables_after faulty codecs poll (world failed_payment))
Operated-Grew_example =
    Operated-Grew charging (tables_after faulty codecs poll (world failed_payment)) (
      next faulty codecs poll (world failed_payment)
        (next calm codecs (deliver (message "payment.failed")) (world charging) nothing))

route-Moves_example :
    Moves charging (route calm codecs (message "payment.failed") (world charging)).1.db
route-Moves_example =
    route-Moves calm codecs (message "payment.failed") (world charging) codecs_encode refl

abbrev row : Outbox
row = record {
  id = 63;
  aggregate_type = "saga";
  aggregate_id = 7;
  topic = "saga.payment.commands";
  key = 7;
  payload = 7 ∷ 4 ∷ [];
  headers = 1 ∷ 63 ∷ 7 ∷ 0 ∷ [];
  created_at = 30;
  published_at = none;
}

-- Two rows that wait.
abbrev pending : SagaDb
pending = record charging { outbox = row ∷ record row { id = 62; created_at = 20 } ∷ [] }

run_ticks-drains_example :
    let r = run_ticks calm codecs.headers 1 2 (world pending) in
    (r.0 ≡ ok tt) × (waiting r.1.db.outbox ≡ 0)
run_ticks-drains_example =
    run_ticks-drains calm codecs.headers (λ n. refl) (λ n id. refl) 0 2 (world pending)
      ((_, refl), ((_, refl), tt)) (omega arith)

-- UUIDs whose texts parse back.
abbrev pub lettered : Env
lettered = record calm { uuid_text = text_of; parse_uuid = λ s. some (count s) }

pub parses_back : (n : ℕ) → lettered.parse_uuid (lettered.uuid_text n) ≡ some n
parses_back n = ap some (count-text_of n)

abbrev sent_headers : MessageHeaders
sent_headers = new_message_headers 63 7 (some 55) "charge.command"

abbrev arrived : Fetched
arrived = record {
  topic = "saga.payment.commands";
  partition = 0;
  offset = 12;
  key = 7 ∷ [];
  value = 7 ∷ 4 ∷ [];
  headers =
      ("saga_id", text_of 7)
      ∷ ("message_id", text_of 63)
      ∷ ("event_type", "charge.command")
      ∷ ("schema_version", "1")
      ∷ ("causation_id", text_of 55)
      ∷ [];
}

to_message-record_of_example :
    let msg = to_message lettered arrived in
    (msg.topic ≡ row.topic)
    × (msg.value ≡ row.payload)
    × (msg.message_id ≡ 63)
    × (get_saga_id_from_headers lettered msg ≡ good 7)
    × (header "event_type" msg.headers ≡ some "charge.command")
    × (header "schema_version" msg.headers ≡ some "1")
    × (header "causation_id" msg.headers ≡ some (text_of 55))
to_message-record_of_example =
    to_message-record_of lettered row sent_headers parses_back arrived
      (record { same_topic = refl; same_value = refl; same_headers = Perm.swap _ _ _ })
