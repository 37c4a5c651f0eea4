-- ===== src/Orchestrator/Service/Growing.antt =====
-- No operation of the saga service loses or changes a row of its tables, but for the progress of a
-- saga's own row.
use go_saga_outbox.Base.{ℤ, String}
use go_saga_outbox.Runtime.{Uuid, Bytes, Codec, Env, World}
use go_saga_outbox.Runtime.Keeps.{Keeps, Keeps-pure}
use go_saga_outbox.Kafka.{Message, header_or_empty}
use go_saga_outbox.Orchestrator.Model.{new_saga, schedule_next}
use go_saga_outbox.Orchestrator.Repo.{SagaDb}
use go_saga_outbox.Orchestrator.Repo.Growth.{Grew, Grew-refl}
use go_saga_outbox.Orchestrator.Service.Shared.{Codecs}
use go_saga_outbox.Orchestrator.Service.Forward.{
  advance, handle_seat_reserved, handle_payment_charged, handle_notification_sent,
}
use go_saga_outbox.Orchestrator.Service.Failures.{
  handle_seat_reservation_failed, handle_payment_failed, handle_notification_failed,
}
use go_saga_outbox.Orchestrator.Service.Compensation.{
  is_mismatch, handle_payment_refunded, handle_seat_released,
}
use go_saga_outbox.Orchestrator.Service.Booking.{start_booking}
use go_saga_outbox.Orchestrator.Service.Scheduler.{process_expired}
use go_saga_outbox.Orchestrator.Service.Scheduler.Growing.{Keeps-process_expired}
use go_saga_outbox.Orchestrator.Service.Replay.{replay_dead_message}
use go_saga_outbox.Orchestrator.Service.Router.{route}
use go_saga_outbox.Orchestrator.Service.Router.Atomic.{dispatch-elim}
use go_saga_outbox.Orchestrator.Service.Growth.{Keeps-once, growth_rules}

module _ {d : SagaDb} (e : Env) (c : Codecs) (msg : Message) where
  Keeps-seat_reserved : Keeps (Grew d) (handle_seat_reserved e c msg)
  unfolding handle_seat_reserved advance
  Keeps-seat_reserved = Keeps-once e msg _ (search growth_rules depth 40 fits 2000)

  Keeps-payment_charged : Keeps (Grew d) (handle_payment_charged e c msg)
  unfolding handle_payment_charged advance
  Keeps-payment_charged = Keeps-once e msg _ (search growth_rules depth 40 fits 2000)

  Keeps-notification_sent : Keeps (Grew d) (handle_notification_sent e c msg)
  unfolding handle_notification_sent
  Keeps-notification_sent = Keeps-once e msg _ (search growth_rules depth 40 fits 2000)

  Keeps-seat_reservation_failed : Keeps (Grew d) (handle_seat_reservation_failed e c msg)
  unfolding handle_seat_reservation_failed
  Keeps-seat_reservation_failed = Keeps-once e msg _ (search growth_rules depth 40 fits 2000)

  Keeps-payment_failed : Keeps (Grew d) (handle_payment_failed e c msg)
  unfolding handle_payment_failed
  Keeps-payment_failed = Keeps-once e msg _ (search growth_rules depth 40 fits 2000)

  Keeps-notification_failed : Keeps (Grew d) (handle_notification_failed e c msg)
  unfolding handle_notification_failed
  Keeps-notification_failed = Keeps-once e msg _ (search growth_rules depth 40 fits 2000)

  Keeps-payment_refunded : Keeps (Grew d) (handle_payment_refunded e c msg)
  unfolding handle_payment_refunded
  Keeps-payment_refunded = Keeps-once e msg _ (search growth_rules depth 40 fits 2000)

  Keeps-seat_released : Keeps (Grew d) (handle_seat_released e c msg)
  unfolding handle_seat_released is_mismatch
  Keeps-seat_released = Keeps-once e msg _ (search growth_rules depth 40 fits 2000)

  pub Keeps-route : Keeps (Grew d) (route e c msg)
  unfolding route
  Keeps-route =
      dispatch-elim e c msg (λ m. Keeps (Grew d) m) (header_or_empty "event_type" msg.headers)
        Keeps-seat_reserved Keeps-seat_reservation_failed Keeps-seat_released Keeps-payment_charged
        Keeps-payment_failed Keeps-payment_refunded Keeps-notification_sent
        Keeps-notification_failed (λ _. Keeps-pure tt)

module _ {d : SagaDb} (e : Env) (c : Codecs) where
  pub Keeps-start_booking :
      (event_id user_id : Uuid) (channel : String) (amount : ℤ)
      → Keeps (Grew d) (start_booking e c event_id user_id channel amount)
  unfolding start_booking new_saga schedule_next
  Keeps-start_booking event_id user_id channel amount = search growth_rules depth 40 fits 2000

  pub Keeps-replay :
      (compact : Codec Bytes) (id : Uuid) → Keeps (Grew d) (replay_dead_message e c compact id)
  unfolding replay_dead_message
  Keeps-replay compact id = search growth_rules depth 40 fits 2000

-- An operation of the saga service: a delivery of a message, a poll of the scheduler, a booking, or
-- the replay of a dead message.
pub data Operation : Type 0 where
  deliver : Message → Operation
  poll : Operation
  book : Uuid → Uuid → String → ℤ → Operation
  replay : Codec Bytes → Uuid → Operation

abbrev pub tables_after : Env → Codecs → Operation → World SagaDb → SagaDb
tables_after e c (deliver msg) w = (route e c msg w).1.db
tables_after e c poll w = (process_expired e c w).1.db
tables_after e c (book event_id user_id channel amount) w =
    (start_booking e c event_id user_id channel amount w).1.db
tables_after e c (replay compact id) w = (replay_dead_message e c compact id w).1.db

tables_after-Grew :
    (e : Env) (c : Codecs) (op : Operation) (d : SagaDb) (w : World SagaDb)
    → Grew d w.db
    → Grew d (tables_after e c op w)
tables_after-Grew e c (deliver msg) d w h = (Keeps-route e c msg).at w h
tables_after-Grew e c poll d w h = (Keeps-process_expired e c).at w h
tables_after-Grew e c (book event_id user_id channel amount) d w h =
    (Keeps-start_booking e c event_id user_id channel amount).at w h
tables_after-Grew e c (replay compact id) d w h = (Keeps-replay e c compact id).at w h

-- Any operations in any order, each in a world of its own: with other faults, another clock and
-- other locks.
pub data Operated (d : SagaDb) : SagaDb → Type 0 where
  nothing : Operated d d
  next :
      (e : Env) (c : Codecs) (op : Operation) (w : World SagaDb)
      → Operated d w.db
      → Operated d (tables_after e c op w)

-- Whatever operations of the saga service follow on each other, with whatever faults: no row of the
-- inbox, of the outbox or of the saga's steps is lost or changed, for new rows stand in front of
-- the old ones; and each saga that was stored is still stored, with its id, type, payload and time
-- of creation.
pub Operated-Grew : (d d' : SagaDb) → Operated d d' → Grew d d'
Operated-Grew d _ nothing = Grew-refl d
Operated-Grew d _ (next e c op w before) =
    tables_after-Grew e c op d w (Operated-Grew d w.db before)
