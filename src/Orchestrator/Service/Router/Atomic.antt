-- ===== src/Orchestrator/Service/Router/Atomic.antt =====
-- What a delivery leaves of the tables where it fails, and where the message was seen before.
use go_saga_outbox.Base.{
  ◌||◌, String, str_eq, List, [], ◌∷◌, any, ◌+◌, ◌≡◌, refl, Bool, true, false, inl, inr, Bool-cases,
  if◌then◌else◌,
}
use go_saga_outbox.Runtime.{Env, World, M, pure}
use go_saga_outbox.Trx.{run}
use go_saga_outbox.Trx.Atomic.{KeptOrDone, run-KeptOrDone}
use go_saga_outbox.Inbox.{seen, dedup}
use go_saga_outbox.Kafka.{Message, header_or_empty}
use go_saga_outbox.Orchestrator.Repo.{SagaDb}
use go_saga_outbox.Orchestrator.Service.Shared.{Codecs, consumer_name, once, unless_seen}
use go_saga_outbox.Orchestrator.Service.Forward.{
  handle_seat_reserved, handle_payment_charged, handle_notification_sent,
}
use go_saga_outbox.Orchestrator.Service.Failures.{
  handle_seat_reservation_failed, handle_payment_failed, handle_notification_failed,
}
use go_saga_outbox.Orchestrator.Service.Compensation.{handle_payment_refunded, handle_seat_released}
use go_saga_outbox.Orchestrator.Service.Router.{dispatch, route}

once-KeptOrDone :
    (e : Env) (msg : Message) (body : M SagaDb Unit) (w : World SagaDb)
    → KeptOrDone w (once e msg body w)
unfolding once
once-KeptOrDone e msg body w = run-KeptOrDone e (unless_seen e msg body) w

pub once-seen :
    (e : Env) (msg : Message) (body : M SagaDb Unit) (w : World SagaDb)
    → seen msg.message_id consumer_name w.db ≡ true
    → (once e msg body w).1.db ≡ w.db
unfolding once unless_seen dedup run
once-seen e msg body w h = elim (Bool-cases (e.fault w.tick)) [
  | inl a ↦ simp a
  | inr a ↦ elim (Bool-cases (e.fault (w.tick + 1 + 1))) [
    | inl b ↦ simp (a, b)
    | inr b ↦ elim (Bool-cases (e.fault (w.tick + 1 + 1 + 1))) [
      | inl z ↦ simp (a, b, h, z)
      | inr z ↦ simp (a, b, h, z)
    ]
  ]
]

-- The event types that the orchestrator takes.
abbrev pub event_types : List String
event_types =
    "seat.reserved" ∷ "seat.reservation_failed" ∷ "seat.released" ∷ "payment.charged"
    ∷ "payment.failed" ∷ "payment.refunded" ∷ "notification.sent" ∷ "notification.failed" ∷ []

abbrev pub is_known : String → Bool
is_known event_type = any (λ known. str_eq event_type known) event_types

none_of :
    {a b c d e f g h : Bool}
    → a ≡ false
    → b ≡ false
    → c ≡ false
    → d ≡ false
    → e ≡ false
    → f ≡ false
    → g ≡ false
    → h ≡ false
    → (a || (b || (c || (d || (e || (f || (g || (h || false)))))))) ≡ false
none_of n1 n2 n3 n4 n5 n6 n7 n8 = simp (n1, n2, n3, n4, n5, n6, n7, n8) refl

-- A property of two calls is one of the choice between them.
choose :
    (P : M SagaDb Unit → Type 0) (b : Bool) (m k : M SagaDb Unit)
    → P m
    → (b ≡ false → P k)
    → P (if b then m else k)
choose P true m k p q = p
choose P false m k p q = q refl

module _ (e : Env) (c : Codecs) (msg : Message) (P : M SagaDb Unit → Type 0) where
  pub dispatch-elim :
      (event_type : String)
      → P (handle_seat_reserved e c msg)
      → P (handle_seat_reservation_failed e c msg)
      → P (handle_seat_released e c msg)
      → P (handle_payment_charged e c msg)
      → P (handle_payment_failed e c msg)
      → P (handle_payment_refunded e c msg)
      → P (handle_notification_sent e c msg)
      → P (handle_notification_failed e c msg)
      → (is_known event_type ≡ false → P (pure tt))
      → P (dispatch e c event_type msg)
  unfolding dispatch
  dispatch-elim event_type h1 h2 h3 h4 h5 h6 h7 h8 other =
      choose P (str_eq event_type "seat.reserved") _ _ h1 λ n1.
        choose P (str_eq event_type "seat.reservation_failed") _ _ h2 λ n2.
          choose P (str_eq event_type "seat.released") _ _ h3 λ n3.
            choose P (str_eq event_type "payment.charged") _ _ h4 λ n4.
              choose P (str_eq event_type "payment.failed") _ _ h5 λ n5.
                choose P (str_eq event_type "payment.refunded") _ _ h6 λ n6.
                  choose P (str_eq event_type "notification.sent") _ _ h7 λ n7.
                    choose P (str_eq event_type "notification.failed") _ _ h8
                      λ n8. other (none_of n1 n2 n3 n4 n5 n6 n7 n8)

  -- Every handler is a body that runs once.
  dispatch-once :
      (event_type : String)
      → ((body : M SagaDb Unit) → P (once e msg body))
      → P (pure tt)
      → P (dispatch e c event_type msg)
  unfolding handle_seat_reserved handle_seat_reservation_failed handle_seat_released
      handle_payment_charged handle_payment_failed handle_payment_refunded handle_notification_sent
      handle_notification_failed
  dispatch-once event_type each other =
      dispatch-elim event_type (each _) (each _) (each _) (each _) (each _) (each _) (each _)
        (each _) (λ _. other)

module _ (e : Env) (c : Codecs) (msg : Message) (w : World SagaDb) where
  -- Route leaves the tables as they were where it returns an error or panics, whatever the message.
  pub route-KeptOrDone : KeptOrDone w (route e c msg w)
  unfolding route
  route-KeptOrDone =
      dispatch-once e c msg (λ m. KeptOrDone w (m w)) (header_or_empty "event_type" msg.headers)
        (λ body. once-KeptOrDone e msg body w) tt

  -- A message that the inbox has seen changes no table, whatever its event type.
  pub route-seen : seen msg.message_id consumer_name w.db ≡ true → (route e c msg w).1.db ≡ w.db
  unfolding route
  route-seen h =
      dispatch-once e c msg (λ m. (m w).1.db ≡ w.db) (header_or_empty "event_type" msg.headers)
        (λ body. once-seen e msg body w h) refl

neither : (a b : Bool) → (a || b) ≡ false → (a ≡ false) × (b ≡ false)
neither false b h = (refl, h)
neither true b h = cc

skip : (b : Bool) (x y z : M SagaDb Unit) → b ≡ false → y ≡ z → (if b then x else y) ≡ z
skip false x y z n same = same
skip true x y z n same = cc

-- No handler takes an event of another type.
dispatch-unknown :
    (e : Env) (c : Codecs) (msg : Message) (event_type : String)
    → is_known event_type ≡ false
    → dispatch e c event_type msg ≡ pure tt
unfolding dispatch
dispatch-unknown e c msg event_type h =
    let (n1, h1) = neither (str_eq event_type "seat.reserved") _ h in
    let (n2, h2) = neither (str_eq event_type "seat.reservation_failed") _ h1 in
    let (n3, h3) = neither (str_eq event_type "seat.released") _ h2 in
    let (n4, h4) = neither (str_eq event_type "payment.charged") _ h3 in
    let (n5, h5) = neither (str_eq event_type "payment.failed") _ h4 in
    let (n6, h6) = neither (str_eq event_type "payment.refunded") _ h5 in
    let (n7, h7) = neither (str_eq event_type "notification.sent") _ h6 in
    let (n8, h8) = neither (str_eq event_type "notification.failed") _ h7 in
    skip (str_eq event_type "seat.reserved") _ _ _ n1 (
      skip (str_eq event_type "seat.reservation_failed") _ _ _ n2 (
        skip (str_eq event_type "seat.released") _ _ _ n3 (
          skip (str_eq event_type "payment.charged") _ _ _ n4 (
            skip (str_eq event_type "payment.failed") _ _ _ n5 (
              skip (str_eq event_type "payment.refunded") _ _ _ n6 (
                skip (str_eq event_type "notification.sent") _ _ _ n7
                  (skip (str_eq event_type "notification.failed") _ _ _ n8 refl)))))))

pub route-unknown :
    (e : Env) (c : Codecs) (msg : Message)
    → is_known (header_or_empty "event_type" msg.headers) ≡ false
    → route e c msg ≡ pure tt
unfolding route
route-unknown e c msg h = dispatch-unknown e c msg (header_or_empty "event_type" msg.headers) h
