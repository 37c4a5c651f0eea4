-- ===== src/Orchestrator/Service/Router/Delivery.antt =====
-- What a delivered message leaves: its inbox row, and so nothing to do for the next delivery.
use go_saga_outbox.Base.{
  Bool-cases, sym, ◌∙◌, ◌≤◌, ◌≡◌, refl, true, false, ◌⊎◌, inl, inr, none, some, List, [], ◌++◌,
  length, Option, arith, ==_refl,
}
use go_saga_outbox.Runtime.{Uuid, ok, Env, World, M}
use go_saga_outbox.Runtime.Ends.{Ends, Ends-weaken, Ends-ok, Ends-pure}
use go_saga_outbox.Trx.Ends.{Lost}
use go_saga_outbox.Storage.{Outbox}
use go_saga_outbox.Inbox.{seen}
use go_saga_outbox.Inbox.Ends.{repeated, lost}
use go_saga_outbox.Kafka.{Message, header_or_empty}
use go_saga_outbox.Orchestrator.Repo.{SagaDb}
use go_saga_outbox.Orchestrator.Service.Shared.{Codecs, consumer_name, once}
use go_saga_outbox.Orchestrator.Service.Effects.{
  Command, Encodes, Sent, Plan, Wrote, Ignored, Skipped,
}
use go_saga_outbox.Orchestrator.Service.Forward.{
  handle_seat_reserved, handle_payment_charged, handle_notification_sent,
}
use go_saga_outbox.Orchestrator.Service.Forward.SeatReserved.{
  SeatReservedEffect, handle_seat_reserved-Ends,
}
use go_saga_outbox.Orchestrator.Service.Forward.PaymentCharged.{
  PaymentChargedEffect, handle_payment_charged-Ends,
}
use go_saga_outbox.Orchestrator.Service.Forward.NotificationSent.{
  NotificationSentEffect, handle_notification_sent-Ends,
}
use go_saga_outbox.Orchestrator.Service.Failures.{
  handle_seat_reservation_failed, handle_payment_failed, handle_notification_failed,
}
use go_saga_outbox.Orchestrator.Service.Failures.SeatReservationFailed.{
  SeatReservationFailedEffect, handle_seat_reservation_failed-Ends,
}
use go_saga_outbox.Orchestrator.Service.Failures.PaymentFailed.{
  LatePaymentFailure, PaymentFailedEffect, handle_payment_failed-Ends,
}
use go_saga_outbox.Orchestrator.Service.Failures.NotificationFailed.{
  LateNotificationFailure, NotificationFailedEffect, handle_notification_failed-Ends,
}
use go_saga_outbox.Orchestrator.Service.Compensation.{handle_payment_refunded, handle_seat_released}
use go_saga_outbox.Orchestrator.Service.Compensation.PaymentRefunded.{
  StrayRefund, PaymentRefundedEffect, handle_payment_refunded-Ends,
}
use go_saga_outbox.Orchestrator.Service.Compensation.SeatReleased.{
  StrayRelease, SeatReleasedEffect, handle_seat_released-Ends,
}
use go_saga_outbox.Orchestrator.Service.Router.{route}
use go_saga_outbox.Orchestrator.Service.Router.Atomic.{
  is_known, route-unknown, dispatch-elim, once-seen,
}

-- The message is in the inbox, at most one row is new in the outbox, and no row of the outbox or
-- of the dead messages is lost or changed.
pub record Delivered (msg : Message) (d d' : SagaDb) : Type 0 where
  pub noted : seen msg.message_id consumer_name d' ≡ true
  pub rows : List Outbox
  pub few : length rows ≤ 1
  pub outbox : d'.outbox ≡ rows ++ d.outbox
  pub dead : d'.dead_message ≡ d.dead_message

Sent-few :
    (c : Codecs) (saga_id : Uuid) (cause : Option Uuid) (cmd : Option Command) (rows : List Outbox)
    → Sent c saga_id cause cmd rows
    → length rows ≤ 1
Sent-few c saga_id cause none rows h = rw h (omega arith)
Sent-few c saga_id cause (some cmd) rows h = rw h.row (omega arith)

-- How a handler that succeeds leaves the tables.
abbrev pub Settled : Env → Message → SagaDb → SagaDb → Type 0
Settled e msg d d' = Lost e d d' ⊎ Delivered msg d d'

module _ (msg : Message) (d d' : SagaDb) where
  Settled-Skipped : (e : Env) → Skipped e msg d d' → Settled e msg d d'
  Settled-Skipped e (repeated dup same) =
      rw same
        (inr (record { noted = dup; rows = []; few = omega arith; outbox = refl; dead = refl }))
  Settled-Skipped e (lost n h same) = inl (n, h, same)

  Delivered-Ignored : Ignored msg d d' → Delivered msg d d'
  Delivered-Ignored h = rw h.tables (record {
    noted = simp (==_refl msg.message_id);
    rows = [];
    few = omega arith;
    outbox = refl;
    dead = refl;
  })

  Delivered-Wrote : (c : Codecs) (x : Plan) → Wrote c msg x d d' → Delivered msg d d'
  Delivered-Wrote c x h = rw h.tables (record {
    noted = simp (==_refl msg.message_id);
    rows = h.rows;
    few = Sent-few c x.saga_id (some msg.message_id) x.command h.rows h.sent;
    outbox = refl;
    dead = refl;
  })

-- How a handler that cannot panic ends.
abbrev Delivers : Env → Message → World SagaDb → M SagaDb Unit → Type 0
Delivers e msg w m = Ends (λ x. Unit) (λ _ d'. Settled e msg w.db d') (m w)

module _ (e : Env) (msg : Message) (w : World SagaDb) where
  either :
      (P : SagaDb → Type 0) (d' : SagaDb)
      → (P d' → Delivered msg w.db d')
      → Skipped e msg w.db d' ⊎ P d'
      → Settled e msg w.db d'
  either P d' f (inl r) = Settled-Skipped msg w.db d' e r
  either P d' f (inr p) = inr (f p)

  either3 :
      (P Q : SagaDb → Type 0) (d' : SagaDb)
      → (P d' → Ignored msg w.db d')
      → (Q d' → Delivered msg w.db d')
      → Skipped e msg w.db d' ⊎ P d' ⊎ Q d'
      → Settled e msg w.db d'
  either3 P Q d' f g (inl r) = Settled-Skipped msg w.db d' e r
  either3 P Q d' f g (inr (inl p)) = inr (Delivered-Ignored msg w.db d' (f p))
  either3 P Q d' f g (inr (inr q)) = inr (g q)

module _ (e : Env) (c : Codecs) (msg : Message) (w : World SagaDb) (json : Encodes c) where
  Delivers-seat_reserved : Delivers e msg w (handle_seat_reserved e c msg)
  Delivers-seat_reserved =
      Ends-weaken _ (handle_seat_reserved-Ends e c msg w json) (λ x _. tt)
        λ a d'.
          either e msg w (SeatReservedEffect e c msg w.db) d'
            λ h. Delivered-Wrote msg w.db d' c _ h.wrote

  Delivers-payment_charged : Delivers e msg w (handle_payment_charged e c msg)
  Delivers-payment_charged =
      Ends-weaken _ (handle_payment_charged-Ends e c msg w json) (λ x _. tt)
        λ a d'.
          either e msg w (PaymentChargedEffect e c msg w.db) d'
            λ h. Delivered-Wrote msg w.db d' c _ h.wrote

  Delivers-notification_sent : Delivers e msg w (handle_notification_sent e c msg)
  Delivers-notification_sent =
      Ends-weaken _ (handle_notification_sent-Ends e c msg w json) (λ x _. tt)
        λ a d'.
          either e msg w (NotificationSentEffect e c msg w.db) d'
            λ h. Delivered-Wrote msg w.db d' c _ h.wrote

  Delivers-seat_reservation_failed : Delivers e msg w (handle_seat_reservation_failed e c msg)
  Delivers-seat_reservation_failed =
      Ends-weaken _ (handle_seat_reservation_failed-Ends e c msg w) (λ x _. tt)
        λ a d'.
          either e msg w (SeatReservationFailedEffect e c msg w.db) d'
            λ h. Delivered-Wrote msg w.db d' c _ h.wrote

  Delivers-payment_failed : Delivers e msg w (handle_payment_failed e c msg)
  Delivers-payment_failed =
      Ends-weaken _ (handle_payment_failed-Ends e c msg w json) (λ x _. tt)
        λ a d'.
          either3 e msg w (LatePaymentFailure e c msg w.db) (PaymentFailedEffect e c msg w.db) d'
            (λ h. h.ignored) λ h. Delivered-Wrote msg w.db d' c _ h.wrote

  Delivers-notification_failed : Delivers e msg w (handle_notification_failed e c msg)
  Delivers-notification_failed =
      Ends-weaken _ (handle_notification_failed-Ends e c msg w json) (λ x _. tt)
        λ a d'.
          either3 e msg w (LateNotificationFailure e c msg w.db)
            (NotificationFailedEffect e c msg w.db) d' (λ h. h.ignored)
            λ h. Delivered-Wrote msg w.db d' c _ h.wrote

  Delivers-payment_refunded : Delivers e msg w (handle_payment_refunded e c msg)
  Delivers-payment_refunded =
      Ends-weaken _ (handle_payment_refunded-Ends e c msg w json) (λ x _. tt)
        λ a d'.
          either3 e msg w (StrayRefund e c msg w.db) (PaymentRefundedEffect e c msg w.db) d'
            (λ h. h.ignored) λ h. Delivered-Wrote msg w.db d' c _ h.wrote

  Delivers-seat_released : Delivers e msg w (handle_seat_released e c msg)
  Delivers-seat_released =
      Ends-weaken _ (handle_seat_released-Ends e c msg w) (λ x _. tt)
        λ a d'.
          either3 e msg w (StrayRelease e c msg w.db) (SeatReleasedEffect e c msg w.db) d'
            (λ h. h.ignored) λ h. Delivered-Wrote msg w.db d' c _ h.wrote

-- After the message was delivered with success, a second delivery changes nothing.
abbrev Twice : Env → World SagaDb → M SagaDb Unit → Type 0
Twice e w m = (m w).0 ≡ ok tt → Lost e w.db (m w).1.db ⊎ ((m (m w).1).1.db ≡ (m w).1.db)

twice :
    (e : Env) (msg : Message) (body : M SagaDb Unit) (w : World SagaDb)
    → Delivers e msg w (once e msg body)
    → Twice e w (once e msg body)
twice e msg body w h done = elim (Ends-ok (once e msg body w) h done) [
  | inl gone ↦ inl gone
  | inr delivered ↦ inr (once-seen e msg body (once e msg body w).1 delivered.noted)
]

-- How Route leaves the tables where it succeeds.
pub data Routed (e : Env) (msg : Message) (d d' : SagaDb) : Type 0 where
  unknown : is_known (header_or_empty "event_type" msg.headers) ≡ false → d' ≡ d → Routed e msg d d'
  settled :
      is_known (header_or_empty "event_type" msg.headers) ≡ true
      → Settled e msg d d'
      → Routed e msg d d'

module _ (e : Env) (c : Codecs) (msg : Message) (w : World SagaDb) (json : Encodes c) where
  settles :
      w.aborted ≡ false
      → is_known (header_or_empty "event_type" msg.headers) ≡ true
      → Delivers e msg w (route e c msg)
  unfolding route
  settles fine known =
      dispatch-elim e c msg (Delivers e msg w) (header_or_empty "event_type" msg.headers)
        (Delivers-seat_reserved e c msg w json) (Delivers-seat_reservation_failed e c msg w json)
        (Delivers-seat_released e c msg w json) (Delivers-payment_charged e c msg w json)
        (Delivers-payment_failed e c msg w json) (Delivers-payment_refunded e c msg w json)
        (Delivers-notification_sent e c msg w json) (Delivers-notification_failed e c msg w json)
        λ not_known. absurd (clash (sym known ∙ not_known))
    where
      clash : true ≡ false → ⊥
      clash h = cc

  -- Route, for codecs that encode, in a transaction that is not aborted: it never panics. Where it
  -- returns without an error and the event type is one of the eight that the orchestrator takes,
  -- the message is in the inbox, at most one row is new in the outbox, and the other rows of the
  -- outbox and the dead messages stay; or the commit failed and the tables are as they were. For
  -- any other event type the tables are as they were.
  pub route-Delivered :
      w.aborted ≡ false → Ends (λ x. Unit) (λ _ d'. Routed e msg w.db d') (route e c msg w)
  route-Delivered fine = elim (Bool-cases (is_known (header_or_empty "event_type" msg.headers))) [
    | inl known ↦ Ends-weaken _ (settles fine known) (λ x _. tt) λ a d' q. settled known q
    | inr other ↦ rw (route-unknown e c msg other) (Ends-pure tt w fine (unknown other refl))
  ]

  -- Where the delivery of a message ended without an error, a second delivery of it, right after,
  -- leaves the tables as the first one left them, whatever faults and clock readings it meets; but
  -- where the commit of the first one failed, which it does not tell, the first one changed no
  -- table.
  pub route-twice :
      (route e c msg w).0 ≡ ok tt
      → Lost e w.db (route e c msg w).1.db
        ⊎ ((route e c msg (route e c msg w).1).1.db ≡ (route e c msg w).1.db)
  unfolding route handle_seat_reserved handle_seat_reservation_failed handle_seat_released
      handle_payment_charged handle_payment_failed handle_payment_refunded handle_notification_sent
      handle_notification_failed
  route-twice =
      dispatch-elim e c msg (Twice e w) (header_or_empty "event_type" msg.headers)
        (twice e msg _ w (Delivers-seat_reserved e c msg w json))
        (twice e msg _ w (Delivers-seat_reservation_failed e c msg w json))
        (twice e msg _ w (Delivers-seat_released e c msg w json))
        (twice e msg _ w (Delivers-payment_charged e c msg w json))
        (twice e msg _ w (Delivers-payment_failed e c msg w json))
        (twice e msg _ w (Delivers-payment_refunded e c msg w json))
        (twice e msg _ w (Delivers-notification_sent e c msg w json))
        (twice e msg _ w (Delivers-notification_failed e c msg w json)) (λ _ h. inr refl)
