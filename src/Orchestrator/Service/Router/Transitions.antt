-- ===== src/Orchestrator/Service/Router/Transitions.antt =====
-- Which ways the state of a saga can go when a message is delivered.
use go_saga_outbox.Base.{◌≡◌, refl, inl, inr, false}
use go_saga_outbox.Runtime.{Env, World, M}
use go_saga_outbox.Runtime.Ends.{Ends, Ends-weaken, Ends-pure}
use go_saga_outbox.Handling.Ends.{invariant}
use go_saga_outbox.Kafka.{Message, header_or_empty}
use go_saga_outbox.Orchestrator.Repo.{SagaDb}
use go_saga_outbox.Orchestrator.Service.Shared.{Codecs}
use go_saga_outbox.Orchestrator.Service.Effects.{Encodes}
use go_saga_outbox.Orchestrator.Service.Forward.{
  handle_seat_reserved, handle_payment_charged, handle_notification_sent,
}
use go_saga_outbox.Orchestrator.Service.Forward.SeatReserved.{handle_seat_reserved-Ends}
use go_saga_outbox.Orchestrator.Service.Forward.PaymentCharged.{handle_payment_charged-Ends}
use go_saga_outbox.Orchestrator.Service.Forward.NotificationSent.{handle_notification_sent-Ends}
use go_saga_outbox.Orchestrator.Service.Failures.{
  handle_seat_reservation_failed, handle_payment_failed, handle_notification_failed,
}
use go_saga_outbox.Orchestrator.Service.Failures.SeatReservationFailed.{
  handle_seat_reservation_failed-Ends,
}
use go_saga_outbox.Orchestrator.Service.Failures.PaymentFailed.{handle_payment_failed-Ends}
use go_saga_outbox.Orchestrator.Service.Failures.NotificationFailed.{
  handle_notification_failed-Ends,
}
use go_saga_outbox.Orchestrator.Service.Compensation.{handle_payment_refunded, handle_seat_released}
use go_saga_outbox.Orchestrator.Service.Compensation.PaymentRefunded.{handle_payment_refunded-Ends}
use go_saga_outbox.Orchestrator.Service.Compensation.SeatReleased.{handle_seat_released-Ends}
use go_saga_outbox.Orchestrator.Service.Router.{route}
use go_saga_outbox.Orchestrator.Service.Router.Atomic.{dispatch-elim, route-KeptOrDone}
use go_saga_outbox.Orchestrator.Service.Router.Moves.{
  stay, advances, completes, fails, Moves, Moves-refl, starts, ends, repeats, ignores, writes,
}

module _ (e : Env) (c : Codecs) (msg : Message) (w : World SagaDb) (json : Encodes c) where
  abbrev Moved : M SagaDb Unit → Type 0
  Moved m = Ends (λ x. Unit) (λ _ d'. Moves w.db d') (m w)

  Moved-seat_reserved : Moved (handle_seat_reserved e c msg)
  Moved-seat_reserved =
      Ends-weaken _ (handle_seat_reserved-Ends e c msg w json) (λ x _. tt)
        λ a d' q. elim q [
          | inl r ↦ repeats c msg w.db d' e r
          | inr h ↦
              writes c msg w.db d' _ h.saga_id h.saga h.known refl (advances h.saga.state) h.wrote
        ]

  Moved-payment_charged : Moved (handle_payment_charged e c msg)
  Moved-payment_charged =
      Ends-weaken _ (handle_payment_charged-Ends e c msg w json) (λ x _. tt)
        λ a d' q. elim q [
          | inl r ↦ repeats c msg w.db d' e r
          | inr h ↦
              writes c msg w.db d' _ h.saga_id h.saga h.known refl (advances h.saga.state) h.wrote
        ]

  Moved-notification_sent : Moved (handle_notification_sent e c msg)
  Moved-notification_sent =
      Ends-weaken _ (handle_notification_sent-Ends e c msg w json) (λ x _. tt)
        λ a d' q. elim q [
          | inl r ↦ repeats c msg w.db d' e r
          | inr h ↦
              writes c msg w.db d' _ h.saga_id h.saga h.known refl (completes h.saga.state) h.wrote
        ]

  Moved-seat_reservation_failed : Moved (handle_seat_reservation_failed e c msg)
  Moved-seat_reservation_failed =
      Ends-weaken _ (handle_seat_reservation_failed-Ends e c msg w) (λ x _. tt)
        λ a d' q. elim q [
          | inl r ↦ repeats c msg w.db d' e r
          | inr h ↦
              writes c msg w.db d' _ h.saga_id h.saga h.known refl (fails h.saga.state) h.wrote
        ]

  Moved-payment_failed : Moved (handle_payment_failed e c msg)
  Moved-payment_failed =
      Ends-weaken _ (handle_payment_failed-Ends e c msg w json) (λ x _. tt)
        λ a d' q. elim q [
          | inl r ↦ repeats c msg w.db d' e r
          | inr (inl late) ↦ ignores c msg w.db d' late.ignored
          | inr (inr h) ↦
              writes c msg w.db d' _ h.saga_id h.saga h.known refl (starts h.saga h.going) h.wrote
        ]

  Moved-notification_failed : Moved (handle_notification_failed e c msg)
  Moved-notification_failed =
      Ends-weaken _ (handle_notification_failed-Ends e c msg w json) (λ x _. tt)
        λ a d' q. elim q [
          | inl r ↦ repeats c msg w.db d' e r
          | inr (inl late) ↦ ignores c msg w.db d' late.ignored
          | inr (inr h) ↦
              writes c msg w.db d' _ h.saga_id h.saga h.known refl (starts h.saga h.going) h.wrote
        ]

  Moved-payment_refunded : Moved (handle_payment_refunded e c msg)
  Moved-payment_refunded =
      Ends-weaken _ (handle_payment_refunded-Ends e c msg w json) (λ x _. tt)
        λ a d' q. elim q [
          | inl r ↦ repeats c msg w.db d' e r
          | inr (inl stray) ↦ ignores c msg w.db d' stray.ignored
          | inr (inr h) ↦
              writes c msg w.db d' _ h.saga_id h.saga h.known refl (stay h.saga.state) h.wrote
        ]

  Moved-seat_released : Moved (handle_seat_released e c msg)
  Moved-seat_released =
      Ends-weaken _ (handle_seat_released-Ends e c msg w) (λ x _. tt)
        λ a d' q. elim q [
          | inl r ↦ repeats c msg w.db d' e r
          | inr (inl stray) ↦ ignores c msg w.db d' stray.ignored
          | inr (inr h) ↦
              writes c msg w.db d' _ h.saga_id h.saga h.known refl (ends h.saga h.back) h.wrote
        ]

  Moved-route : w.aborted ≡ false → Moved (route e c msg)
  unfolding route
  Moved-route fine =
      dispatch-elim e c msg Moved (header_or_empty "event_type" msg.headers) Moved-seat_reserved
        Moved-seat_reservation_failed Moved-seat_released Moved-payment_charged Moved-payment_failed
        Moved-payment_refunded Moved-notification_sent Moved-notification_failed
        (λ _. Ends-pure tt w fine (Moves-refl w.db))

  -- Route, for codecs that encode, in a transaction that is not aborted: however the call ends, the
  -- state of each saga stays as it is or goes to running, completed or failed; or from one of these
  -- three to compensating; or from compensating to compensated. So no message sets a compensated
  -- saga back to compensating, and a saga is compensated only out of compensating.
  pub route-Moves : w.aborted ≡ false → Moves w.db (route e c msg w).1.db
  route-Moves fine =
      invariant (Moves w.db) w (route e c msg w) (Moved-route fine) (route-KeptOrDone e c msg w)
        (λ d' h _. h) (Moves-refl w.db)
