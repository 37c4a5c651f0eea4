-- ===== src/Orchestrator/Handler/Booking.antt =====
-- How the handlers of `/bookings` answer, and what they did to the tables.
use go_saga_outbox.Base.{
  ℕ, String, ◌≡◌, refl, inl, inr, true, false, none, some, ◌==◌, Bool-cases, Option-cases,
}
use go_saga_outbox.Runtime.{Uuid, Error, db_error, Result, good, bad, Env, World}
use go_saga_outbox.Trx.Ends.{Lost}
use go_saga_outbox.Orchestrator.Model.{Saga}
use go_saga_outbox.Orchestrator.Repo.{SagaDb, lookup_saga, find_by_id}
use go_saga_outbox.Orchestrator.Service.Shared.{Codecs}
use go_saga_outbox.Orchestrator.Service.Effects.{Encodes}
use go_saga_outbox.Orchestrator.Service.Booking.{start_booking, get_booking}
use go_saga_outbox.Orchestrator.Service.Booking.Created.{
  BookingRefusal, BookedEffect, start_booking-Ends, start_booking-KeptOrDone,
}
use go_saga_outbox.Orchestrator.Handler.{
  CreateBookingRequest, Response, respond, message, created, booking, settle, booking_response,
  created_reply, create, get,
}
use go_saga_outbox.Orchestrator.Handler.Replies.{Replied, settle-Replied}

module _ (e : Env) (c : Codecs) where
  -- How `create` answers a bound request.
  pub data CreateReply (bound : Result CreateBookingRequest) (d : SagaDb) (reply : Response)
      (d' : SagaDb) : Type 0 where
    unbound :
        (x : Error)
        → bound ≡ bad x
        → reply ≡ respond 400 (message (e.error_text x))
        → d' ≡ d
        → CreateReply bound d reply d'
    no_event :
        (req : CreateBookingRequest)
        → bound ≡ good req
        → (req.event_id == 0) ≡ true
        → reply ≡ respond 400 (message "event_id is required")
        → d' ≡ d
        → CreateReply bound d reply d'
    no_user :
        (req : CreateBookingRequest)
        → bound ≡ good req
        → (req.event_id == 0) ≡ false
        → (req.user_id == 0) ≡ true
        → reply ≡ respond 400 (message "user_id is required")
        → d' ≡ d
        → CreateReply bound d reply d'
    accepted :
        (req : CreateBookingRequest) (saga_id : Uuid)
        → bound ≡ good req
        → (req.event_id == 0) ≡ false
        → (req.user_id == 0) ≡ false
        → reply ≡ respond 202 (created saga_id)
        → BookedEffect e c req.event_id req.user_id req.channel req.amount saga_id d d'
        → CreateReply bound d reply d'
    lost :
        (req : CreateBookingRequest) (saga_id : Uuid)
        → bound ≡ good req
        → (req.event_id == 0) ≡ false
        → (req.user_id == 0) ≡ false
        → reply ≡ respond 202 (created saga_id)
        → Lost e d d'
        → CreateReply bound d reply d'
    not_booked :
        (req : CreateBookingRequest) (x : Error)
        → bound ≡ good req
        → BookingRefusal e d x
        → reply ≡ respond 500 (message (e.error_text x))
        → d' ≡ d
        → CreateReply bound d reply d'

  create_booking :
      (req : CreateBookingRequest) (w : World SagaDb)
      → Encodes c
      → (req.event_id == 0) ≡ false
      → (req.user_id == 0) ≡ false
      → Replied (CreateReply (good req) w.db) (
          settle
            (created_reply e c)
            (start_booking e c req.event_id req.user_id req.channel req.amount w).0
            (start_booking e c req.event_id req.user_id req.channel req.amount w).1)
  create_booking req w json event user =
      settle-Replied (CreateReply (good req) w.db) (created_reply e c) w _
        (start_booking-Ends e c req.event_id req.user_id req.channel req.amount w json)
        (start_booking-KeptOrDone e c req.event_id req.user_id req.channel req.amount w)
        (λ saga_id d' q. elim q [
          | inl gone ↦ lost req saga_id refl event user refl gone
          | inr booked ↦ accepted req saga_id refl event user refl booked
        ])
        λ x why. not_booked req x refl why refl refl

  -- For codecs that encode, POST /bookings always answers, and in one of these ways: 400 with no
  -- table changed where the request does not bind or its event or user is nil; 202 with the id of
  -- the saga that is stored, running at its first step with one reserve command; 202 with an id and
  -- no table changed, where the commit failed; or 500 with no table changed, where a statement
  -- failed or the drawn id of the outbox row was taken.
  pub create-Replied :
      (bound : Result CreateBookingRequest) (w : World SagaDb)
      → Encodes c
      → Replied (CreateReply bound w.db) (create e c bound w)
  unfolding create
  create-Replied (bad x) w json = unbound x refl refl refl
  create-Replied (good req) w json = elim (Bool-cases (req.event_id == 0)) [
    | inl absent ↦ simp absent (no_event req refl absent refl refl)
    | inr event ↦ elim (Bool-cases (req.user_id == 0)) [
      | inl absent ↦ simp (event, absent) (no_user req refl event absent refl refl)
      | inr user ↦ simp (event, user) (create_booking req w json event user)
    ]
  ]

  -- How `get` answers.
  pub data GetReply (text : String) (d : SagaDb) (reply : Response) (d' : SagaDb) : Type 0 where
    unparsed :
        e.parse_uuid text ≡ none
        → reply ≡ respond 400 (message "invalid saga id")
        → d' ≡ d
        → GetReply text d reply d'
    shown :
        (id : Uuid) (saga : Saga)
        → e.parse_uuid text ≡ some id
        → lookup_saga id d ≡ some saga
        → reply ≡ respond 200 (booking (booking_response saga))
        → d' ≡ d
        → GetReply text d reply d'
    absent :
        (id : Uuid)
        → e.parse_uuid text ≡ some id
        → lookup_saga id d ≡ none
        → reply ≡ respond 404 (message "saga not found")
        → d' ≡ d
        → GetReply text d reply d'
    broken :
        (n : ℕ)
        → e.fault n ≡ true
        → reply ≡ respond 500 (message (e.error_text db_error))
        → d' ≡ d
        → GetReply text d reply d'

  -- GET /bookings/:id always answers and changes no table: 400 where the id does not parse, 200
  -- with the stored saga, 404 where there is no saga of that id, or 500 where the statement failed.
  pub get-Replied :
      (text : String) (w : World SagaDb) → Replied (GetReply text w.db) (get e c text w)
  unfolding get get_booking go_saga_outbox.Trx.autocommit find_by_id
  get-Replied text w = elim (Option-cases (e.parse_uuid text)) [
    | inl none_parsed ↦ simp none_parsed (unparsed none_parsed refl refl)
    | inr (id, parsed) ↦ elim (Bool-cases (e.fault w.tick)) [
      | inl s ↦ simp (parsed, s) (broken w.tick s refl refl)
      | inr s ↦ elim (Option-cases (lookup_saga id w.db)) [
        | inl gone ↦ simp (parsed, s, gone) (absent id parsed gone refl refl)
        | inr (saga, there) ↦ simp (parsed, s, there) (shown id saga parsed there refl refl)
      ]
    ]
  ]
