-- ===== src/Tests/Serving.antt =====
-- The HTTP handlers, and the dead messages that they read.
use go_saga_outbox.Base.{true, ◌⊎◌, List, Answers, ◌≡◌, refl, pos, none, some, [], ◌∷◌}
use go_saga_outbox.Runtime.{err, db_error, Error, good, bad, ok, Bytes, Codec}
use go_saga_outbox.Storage.{DeadMessage}
use go_saga_outbox.Dlq.{list_unreplayed}
use go_saga_outbox.Dlq.Listing.{list_unreplayed_lem}
use go_saga_outbox.Contracts.{new_message_headers}
use go_saga_outbox.Orchestrator.Model.{running, charge_payment}
use go_saga_outbox.Orchestrator.Repo.{SagaDb}
use go_saga_outbox.Orchestrator.Service.Shared.{Codecs}
use go_saga_outbox.Orchestrator.Handler.{
  CreateBookingRequest, respond, created, no_content, create, get, replay,
}
use go_saga_outbox.Orchestrator.Handler.Replies.{Replied}
use go_saga_outbox.Orchestrator.Handler.Booking.{CreateReply, GetReply, create-Replied, get-Replied}
use go_saga_outbox.Orchestrator.Handler.Replay.{JsonError, ReplayReply, replay-Replied}
use go_saga_outbox.Tests.{calm, codecs, codecs_encode, saga_at, tables_of, world}

abbrev order : CreateBookingRequest
order = record { event_id = 3; user_id = 4; amount = pos 250; channel = "email" }

abbrev stored : SagaDb
stored = tables_of (saga_at running charge_payment 1)

create-Replied_example :
    Replied
      (CreateReply calm codecs (good order) stored)
      (create calm codecs (good order) (world stored))
create-Replied_example = create-Replied calm codecs (good order) (world stored) codecs_encode

-- The answer is 202 with the id that was drawn.
create_accepted :
    (create calm codecs (good order) (world stored)).0 ≡ ok (respond 202 (created 100))
unfolding create go_saga_outbox.Orchestrator.Service.Booking.start_booking
    go_saga_outbox.Orchestrator.Model.new_saga go_saga_outbox.Orchestrator.Model.schedule_next
    go_saga_outbox.Orchestrator.Repo.upsert go_saga_outbox.Orchestrator.Service.Shared.emit
    go_saga_outbox.Outbox.append
create_accepted = refl

get-Replied_example : Replied (GetReply calm codecs "7" stored) (get calm codecs "7" (world stored))
get-Replied_example = get-Replied calm codecs "7" (world stored)

-- Saga 7 has a dead message.
abbrev poisoned : SagaDb
poisoned = record stored {
  dead_message =
      record {
        id = 7;
        saga_id = some 7;
        message_id = 55;
        topic = "saga.payment.events";
        payload = 1 ∷ [];
        headers = 1 ∷ 55 ∷ 7 ∷ 0 ∷ [];
        reason = "error";
        consumer = "orchestrator";
        created_at = 0;
        replayed_at = none;
      }
      ∷ [];
}

abbrev compact : Codec Bytes
compact = record { marshal = λ b. good b; unmarshal = λ b. good b }

never : {A : Type 0} (a : A) (x : Error) → good a ≡ bad x → JsonError x
never a x h = cc

-- Headers that always decode.
abbrev plain : Codecs
plain = record codecs {
  headers = record {
    marshal = λ h. good (h.message_id ∷ []);
    unmarshal = λ b. good (new_message_headers 55 7 none "payment.charged");
  };
}

replay-Replied_example :
    Replied
      (ReplayReply calm plain compact "7" poisoned)
      (replay calm plain compact "7" (world poisoned))
replay-Replied_example =
    replay-Replied calm plain compact (λ b x h. never _ x h)
      (λ h x b. never (h.message_id ∷ []) x b) (λ b x c. never b x c) "7" (world poisoned)

-- The message is replayed.
replay_accepted : (replay calm plain compact "7" (world poisoned)).0 ≡ ok (respond 202 no_content)
unfolding replay go_saga_outbox.Orchestrator.Service.Replay.replay_dead_message
    go_saga_outbox.Dlq.find_by_id go_saga_outbox.Outbox.append go_saga_outbox.Dlq.mark_replayed
replay_accepted = refl

list_unreplayed_lem_example :
    let r = list_unreplayed calm 10 (world poisoned) in
    ((calm.fault 0 ≡ true) × (r.0 ≡ err db_error))
    ⊎ ((rows : List DeadMessage) × (r.0 ≡ ok rows)
        × (r.1.db ≡ poisoned)
        × Answers
            (λ row. row.replayed_at ≡ none)
            (λ row. row.created_at)
            10
            poisoned.dead_message
            rows)
list_unreplayed_lem_example = list_unreplayed_lem calm 10 (world poisoned) refl
