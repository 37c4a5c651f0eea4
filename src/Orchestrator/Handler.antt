-- ===== src/Orchestrator/Handler.antt =====
-- orchestrator/internal/handler and dto: the HTTP handlers. Binding a request and writing a
-- response belong to echo: a handler takes the result of `c.Bind` or the text of `c.Param`, and
-- gives the status and the body that it hands to echo.
pub mod Replies
pub mod Booking
pub mod Replay
use go_saga_outbox.Base.{
  ℕ, ℤ, String, Bool, true, false, ◌||◌, Option, none, some, ◌==◌, if◌then◌else◌,
}
use go_saga_outbox.Runtime.{
  Uuid, Time, Bytes, Error, saga_not_found, dead_message_not_found, already_replayed, cannot_replay,
  Result, good, bad, Outcome, ok, err, panic, Codec, Env, World, M, pure,
}
use go_saga_outbox.Orchestrator.Model.{Saga, state_text, step_name_text}
use go_saga_outbox.Orchestrator.Repo.{SagaDb}
use go_saga_outbox.Orchestrator.Service.Shared.{Codecs}
use go_saga_outbox.Orchestrator.Service.Booking.{start_booking, get_booking}
use go_saga_outbox.Orchestrator.Service.Replay.{replay_dead_message}

pub record CreateBookingRequest : Type 0 where
  pub event_id : Uuid
  pub user_id : Uuid
  pub amount : ℤ  -- int64
  pub channel : String

pub record BookingResponse : Type 0 where
  pub saga_id : Uuid
  pub type : String
  pub state : String
  pub current_step : String
  pub payload : Bytes
  pub context : Bytes
  pub attempts : ℕ
  pub created_at : Time
  pub updated_at : Time

-- What a response holds: the message of an HTTP error, `echo.Map{"error": ...}`, a created saga, a
-- saga, or nothing.
pub data Body : Type 0 where
  message : String → Body
  error_map : String → Body
  created : Uuid → Body
  booking : BookingResponse → Body
  no_content : Body

pub record Response : Type 0 where
  pub status : ℕ
  pub body : Body

abbrev pub respond : ℕ → Body → Response
respond status body = record { status = status; body = body }

-- A handler answers a result and an error; a panic goes on to echo.
abbrev pub settle : {A : Type 0} → (Result A → Response) → Outcome A → M SagaDb Response
settle f (ok a) w = (ok (f (good a)), w)
settle f (err x) w = (ok (f (bad x)), w)
settle f panic w = (panic, w)

abbrev pub answer : {A : Type 0} → M SagaDb A → (Result A → Response) → M SagaDb Response
answer m f w = let (r, w') = m w in settle f r w'

-- `BookingResponse` of a saga.
abbrev pub booking_response : Saga → BookingResponse
booking_response saga = record {
  saga_id = saga.id;
  type = saga.type;
  state = state_text saga.state;
  current_step = step_name_text saga.current_step;
  payload = saga.payload;
  context = saga.context;
  attempts = saga.attempts;
  created_at = saga.created_at;
  updated_at = saga.updated_at;
}

module _ (e : Env) (c : Codecs) where
  abbrev pub created_reply : Result Uuid → Response
  created_reply (good saga_id) = respond 202 (created saga_id)
  created_reply (bad x) = respond 500 (message (e.error_text x))

  -- `BookingHandler.create`
  unfoldable pub create : Result CreateBookingRequest → M SagaDb Response
  create (bad x) = pure (respond 400 (message (e.error_text x)))
  create (good req) =
      if req.event_id == 0
      then pure (respond 400 (message "event_id is required"))
      else if req.user_id == 0
      then pure (respond 400 (message "user_id is required"))
      else answer (start_booking e c req.event_id req.user_id req.channel req.amount) created_reply

  abbrev pub booking_reply : Result Saga → Response
  booking_reply (good saga) = respond 200 (booking (booking_response saga))
  booking_reply (bad saga_not_found) = respond 404 (message "saga not found")
  booking_reply (bad x) = respond 500 (message (e.error_text x))

  get_parsed : Option Uuid → M SagaDb Response
  get_parsed none = pure (respond 400 (message "invalid saga id"))
  get_parsed (some id) = answer (get_booking e c id) booking_reply

  -- `BookingHandler.get`
  unfoldable pub get : String → M SagaDb Response
  unfolding get_parsed
  get id = get_parsed (e.parse_uuid id)

abbrev pub replayed_reply : Result Unit → Response
replayed_reply (good done) = respond 202 no_content
replayed_reply (bad dead_message_not_found) = respond 404 (error_map "not found")
replayed_reply (bad already_replayed) = respond 409 (error_map "already replayed")
replayed_reply (bad cannot_replay) = respond 422 (error_map "cannot replay: missing saga_id")
replayed_reply (bad x) = respond 500 (error_map "internal")

module _ (e : Env) (c : Codecs) (compact : Codec Bytes) where
  replay_parsed : Option Uuid → M SagaDb Response
  replay_parsed none = pure (respond 400 (error_map "invalid id"))
  replay_parsed (some id) = answer (replay_dead_message e c compact id) replayed_reply

  -- `DLQHandler.Replay`
  unfoldable pub replay : String → M SagaDb Response
  unfolding replay_parsed
  replay id = replay_parsed (e.parse_uuid id)
