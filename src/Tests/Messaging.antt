-- ===== src/Tests/Messaging.antt =====
-- Deliveries, the consumer's offsets, bookings and replays.
use go_saga_outbox.Base.{
  ◌==◌, ◌≡◌, ◌≢◌, ◌⊎◌, ◌<◌, ◌*◌, All, refl, pos, none, some, [], ◌∷◌, List, arith,
}
use go_saga_outbox.Runtime.{Env, db_error, ok, err, panic, good, Bytes, Codec, World, Time}
use go_saga_outbox.Runtime.Ends.{Ends}
use go_saga_outbox.Trx.Atomic.{KeptOrDone}
use go_saga_outbox.Kafka.{
  Message, Headers, Handler, Fetch, fetched, fetch_failed, cancelled, run, backoff_limit,
}
use go_saga_outbox.Kafka.Offsets.{run-commits}
use go_saga_outbox.Trx.Ends.{Lost}
use go_saga_outbox.Orchestrator.Model.{running, charge_payment}
use go_saga_outbox.Orchestrator.Repo.{SagaDb}
use go_saga_outbox.Orchestrator.Service.Booking.{start_booking}
use go_saga_outbox.Orchestrator.Service.Booking.Created.{
  BookingRefusal, BookedEffect, start_booking-Ends,
}
use go_saga_outbox.Orchestrator.Service.Replay.{replay_dead_message}
use go_saga_outbox.Orchestrator.Service.Replay.Replayed.{
  ReplayRefusal, ReplayedEffect, replay_dead_message-Ends,
}
use go_saga_outbox.Orchestrator.Service.Router.{route}
use go_saga_outbox.Orchestrator.Service.Router.Atomic.{route-KeptOrDone}
use go_saga_outbox.Orchestrator.Service.Router.Delivery.{Routed, route-Delivered, route-twice}
use go_saga_outbox.Tests.{calm, faulty, codecs, codecs_encode, saga_at, tables_of, world, message}

abbrev charging : SagaDb
charging = tables_of (saga_at running charge_payment 1)

-- Here the third statement fails.
route-KeptOrDone_example :
    KeptOrDone (world charging) (route faulty codecs (message "payment.charged") (world charging))
route-KeptOrDone_example =
    route-KeptOrDone faulty codecs (message "payment.charged") (world charging)

route-Delivered_example :
    Ends
      (λ x. Unit)
      (λ _ d'. Routed calm (message "payment.failed") charging d')
      (route calm codecs (message "payment.failed") (world charging))
route-Delivered_example =
    route-Delivered calm codecs (message "payment.failed") (world charging) codecs_encode refl

charged_ok : (route calm codecs (message "payment.charged") (world charging)).0 ≡ ok tt
unfolding route go_saga_outbox.Orchestrator.Service.Forward.handle_payment_charged
    go_saga_outbox.Orchestrator.Service.Shared.once go_saga_outbox.Trx.run
    go_saga_outbox.Orchestrator.Service.Shared.unless_seen go_saga_outbox.Inbox.dedup
    go_saga_outbox.Orchestrator.Repo.find_by_id go_saga_outbox.Orchestrator.Service.Forward.advance
    go_saga_outbox.Orchestrator.Model.deadline go_saga_outbox.Orchestrator.Repo.upsert
    go_saga_outbox.Orchestrator.Service.Shared.record_step
    go_saga_outbox.Orchestrator.Repo.append_step go_saga_outbox.Orchestrator.Service.Shared.emit
    go_saga_outbox.Outbox.append
charged_ok = refl

route-twice_example :
    Lost calm charging (route calm codecs (message "payment.charged") (world charging)).1.db
    ⊎ (route calm codecs
        (message "payment.charged")
        (route calm codecs (message "payment.charged") (world charging)).1).1.db
      ≡ (route calm codecs (message "payment.charged") (world charging)).1.db
route-twice_example =
    route-twice calm codecs (message "payment.charged") (world charging) codecs_encode charged_ok

abbrev texts : Codec Headers
texts = record { marshal = λ h. good (0 ∷ 0 ∷ 0 ∷ 0 ∷ []); unmarshal = λ b. good [] }

-- A handler that always fails, and not for good: the offset is committed all the same.
abbrev failing : Handler SagaDb
failing msg w = (err db_error, w)

abbrev two_fetches : List Fetch
two_fetches =
    fetch_failed
    ∷ fetched (record {
      topic = "saga.payment.events";
      partition = 0;
      offset = 12;
      key = [];
      value = [];
      headers = [];
    })
    ∷ cancelled
    ∷ []

failing_ends : (msg : Message) (w : World SagaDb) → (failing msg w).0 ≢ panic
failing_ends msg w h = cc

run-commits_example :
    (waits : List Time) × ((run calm failing 500000000 500000000 two_fetches (world charging)).0
      ≡ ok (12 ∷ [], waits))
    × All (λ t. t < backoff_limit * 2) waits
run-commits_example =
    run-commits calm failing (λ n. refl) failing_ends 500000000 500000000 two_fetches
      (world charging) (omega arith) (omega arith)

start_booking-Ends_example :
    Ends
      (BookingRefusal calm charging)
      (λ saga_id d'.
        Lost calm charging d' ⊎ BookedEffect calm codecs 3 4 "email" (pos 250) saga_id charging d')
      (start_booking calm codecs 3 4 "email" (pos 250) (world charging))
start_booking-Ends_example =
    start_booking-Ends calm codecs 3 4 "email" (pos 250) (world charging) codecs_encode

-- Only the commit fails.
abbrev lossy : Env
lossy = record calm { fault = λ n. n == 10 }

-- The booking returns an id and stores nothing.
booking_lost :
    let r = start_booking lossy codecs 3 4 "email" (pos 250) (world charging) in
    (r.0 ≡ ok 100) × (r.1.db ≡ charging)
unfolding start_booking go_saga_outbox.Orchestrator.Model.new_saga
    go_saga_outbox.Orchestrator.Model.schedule_next go_saga_outbox.Orchestrator.Repo.upsert
    go_saga_outbox.Orchestrator.Service.Shared.emit go_saga_outbox.Outbox.append
booking_lost = (refl, refl)

abbrev raw : Codec Bytes
raw = record { marshal = λ b. good b; unmarshal = λ b. good b }

-- A dead message of saga 7 with these headers.
abbrev buried : Bytes → SagaDb
buried headers = record charging {
  dead_message =
      record {
        id = 90;
        saga_id = some 7;
        message_id = 55;
        topic = "saga.payment.events";
        payload = 1 ∷ [];
        headers = headers;
        reason = "error";
        consumer = "orchestrator";
        created_at = 0;
        replayed_at = none;
      }
      ∷ [];
}

replay_dead_message-Ends_example :
    Ends
      (ReplayRefusal calm codecs raw 90 (buried (1 ∷ 55 ∷ 7 ∷ 0 ∷ [])))
      (λ _ d'.
        Lost calm (buried (1 ∷ 55 ∷ 7 ∷ 0 ∷ [])) d'
        ⊎ ReplayedEffect calm codecs raw 90 (buried (1 ∷ 55 ∷ 7 ∷ 0 ∷ [])) d')
      (replay_dead_message calm codecs raw 90 (world (buried (1 ∷ 55 ∷ 7 ∷ 0 ∷ []))))
replay_dead_message-Ends_example =
    replay_dead_message-Ends calm codecs raw 90 (world (buried (1 ∷ 55 ∷ 7 ∷ 0 ∷ [])))
