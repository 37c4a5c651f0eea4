-- ===== src/Orchestrator/Model.antt =====
-- orchestrator/internal/model: the saga, its context, payload and steps.
use go_saga_outbox.Base.{
  ℕ, ◌+◌, ◌-◌, ◌*◌, ◌%◌, ◌^◌, ℤ, pos, negsuc, String, Bool, true, false, Option, none, some, [],
  ◌∷◌, ltb, ◌==◌, if◌then◌else◌,
}
use go_saga_outbox.Runtime.{
  Uuid, Time, Bytes, Error, payload_empty, no_seat_id, no_reservation_id, no_payment_id, Result,
  good, bad, ok, Codec, Env, M, pure, lift, ◌>>=◌,
}

pub data SagaState : Type 0 where
  running completed compensating compensated failed : SagaState

pub data SagaStepName : Type 0 where
  initial reserve_seat charge_payment send_notification : SagaStepName

pub data SagaStepDirection : Type 0 where
  forward compensate : SagaStepDirection

pub data SagaStepStatus : Type 0 where
  step_pending step_sent step_succeeded step_failed : SagaStepStatus

-- `string(saga.State)`
abbrev pub state_text : SagaState → String
state_text running = "running"
state_text completed = "completed"
state_text compensating = "compensating"
state_text compensated = "compensated"
state_text failed = "failed"

-- `string(saga.CurrentStep)`
abbrev pub step_name_text : SagaStepName → String
step_name_text initial = "Initial"
step_name_text reserve_seat = "ReserveSeat"
step_name_text charge_payment = "ChargePayment"
step_name_text send_notification = "SendNotification"

pub record BookTicketContext : Type 0 where
  pub reservation_id : Option Uuid
  pub seat_id : Option Uuid
  pub payment_id : Option Uuid
  pub notification_id : Option Uuid

abbrev pub empty_context : BookTicketContext
empty_context = record {
  reservation_id = none;
  seat_id = none;
  payment_id = none;
  notification_id = none;
}

abbrev pub same_id : Option Uuid → Uuid → Bool
same_id none id = false
same_id (some own) id = own == id

-- `ComparePaymentID`
abbrev pub compare_payment_id : BookTicketContext → Uuid → Bool
compare_payment_id b payment_id = same_id b.payment_id payment_id

abbrev pub require : Option Uuid → Error → Result Unit
require none x = bad x
require (some id) x = good tt

abbrev pub validate_reservation_id : BookTicketContext → Result Unit
validate_reservation_id b = require b.reservation_id no_reservation_id

abbrev pub validate_seat_id : BookTicketContext → Result Unit
validate_seat_id b = require b.seat_id no_seat_id

abbrev pub validate_payment_id : BookTicketContext → Result Unit
validate_payment_id b = require b.payment_id no_payment_id

pub record BookTicketPayload : Type 0 where
  pub event_id : Uuid
  pub user_id : Uuid
  pub amount : ℤ  -- int64
  pub channel : String

abbrev pub new_book_ticket_payload : Uuid → Uuid → ℤ → String → BookTicketPayload
new_book_ticket_payload event_id user_id amount channel = record {
  event_id = event_id;
  user_id = user_id;
  amount = amount;
  channel = channel;
}

pub record Saga : Type 0 where
  pub id : Uuid
  pub type : String
  pub state : SagaState
  pub current_step : SagaStepName
  pub payload : Bytes
  pub context : Bytes
  pub attempts : ℕ  -- an INT column, so far from the bounds of Go's int
  pub next_attempt_at : Option Time
  pub created_at : Time
  pub updated_at : Time

abbrev pub max_saga_attempts : ℕ
max_saga_attempts = 5

abbrev pub initial_step_timeout_sec : ℕ
initial_step_timeout_sec = 5

abbrev pub max_step_timeout_sec : ℕ
max_step_timeout_sec = 60

abbrev pub second : ℕ
second = 1000000000

abbrev pub millisecond : ℕ
millisecond = 1000000

-- `base << attempts` of an int64, as a signed number.
unfoldable pub shift_left : ℕ → ℕ → ℤ
shift_left base attempts =
    let bits = base * 2 ^ attempts % 2 ^ 64 in
    if ltb bits (2 ^ 63) then pos bits else negsuc (2 ^ 64 - bits - 1)

-- `if timeout > c { timeout = c }`
abbrev pub cap_at : ℕ → ℤ → ℤ
cap_at c (pos n) = if ltb c n then pos c else pos n
cap_at c (negsuc n) = negsuc n

-- `d + j`, for a j of at most 999 milliseconds.
abbrev pub add_jitter : ℤ → ℕ → ℤ
add_jitter (pos n) j = pos (n + j)
add_jitter (negsuc n) j = if ltb n j then pos (j - n - 1) else negsuc (n - j)

-- `StepTimeout`, with the value that `rand.Intn(1000)` draws.
unfoldable pub step_timeout : ℕ → ℕ → ℤ
unfolding shift_left
step_timeout attempts drawn =
    add_jitter
      (cap_at (max_step_timeout_sec * second)
        (shift_left (initial_step_timeout_sec * second) attempts))
      (drawn % 1000 * millisecond)

-- `t.Add(d)`; times are counted from Go's zero time, and do not go below it.
abbrev pub add_duration : Time → ℤ → Time
add_duration t (pos d) = t + d
add_duration t (negsuc d) = t - (d + 1)

-- `now.Add(StepTimeout(attempts))`
unfoldable pub deadline : {D : Type 0} → Env → Time → ℕ → M D Time
unfolding step_timeout
deadline e at attempts w =
    (ok (add_duration at (step_timeout attempts (e.rand w.tick))), record w { tick = w.tick + 1 })

-- `NewSaga`
unfoldable pub new_saga :
    {D : Type 0}
    → Env
    → Codec BookTicketPayload
    → Uuid
    → String
    → BookTicketPayload
    → Time
    → M D Saga
unfolding deadline
new_saga e payloads id saga_type payload now = do
  payload_bytes ← lift (payloads.marshal payload)
  next_attempt ← deadline e now 0
  pure (record {
    id = id;
    type = saga_type;
    state = running;
    current_step = initial;
    payload = payload_bytes;
    context = [];
    attempts = 0;
    next_attempt_at = some next_attempt;
    created_at = now;
    updated_at = now;
  })

-- `SetContext`
abbrev pub set_context :
    {D : Type 0} → Codec BookTicketContext → Saga → BookTicketContext → M D Saga
set_context contexts saga ctx = do
  bytes ← lift (contexts.marshal ctx)
  pure (record saga { context = bytes })

abbrev pub decode_context_bytes : Codec BookTicketContext → Bytes → Result BookTicketContext
decode_context_bytes contexts [] = good empty_context
decode_context_bytes contexts (b ∷ bs) = contexts.unmarshal (b ∷ bs)

-- `DecodeContext`
abbrev pub decode_context : Codec BookTicketContext → Saga → Result BookTicketContext
decode_context contexts saga = decode_context_bytes contexts saga.context

abbrev pub decode_payload_bytes : Codec BookTicketPayload → Bytes → Result BookTicketPayload
decode_payload_bytes payloads [] = bad payload_empty
decode_payload_bytes payloads (b ∷ bs) = payloads.unmarshal (b ∷ bs)

-- `DecodePayload`
abbrev pub decode_payload : Codec BookTicketPayload → Saga → Result BookTicketPayload
decode_payload payloads saga = decode_payload_bytes payloads saga.payload

abbrev state_is_compensated : SagaState → Bool
state_is_compensated compensated = true
state_is_compensated _ = false

abbrev state_is_compensating : SagaState → Bool
state_is_compensating compensating = true
state_is_compensating _ = false

abbrev pub is_compensated : Saga → Bool
is_compensated saga = state_is_compensated saga.state

abbrev pub is_compensating : Saga → Bool
is_compensating saga = state_is_compensating saga.state

-- `ScheduleNext`
unfoldable pub schedule_next : {D : Type 0} → Env → Saga → Time → M D Saga
unfolding deadline
schedule_next e saga now = do
  next ← deadline e now saga.attempts
  pure (record saga { next_attempt_at = some next; updated_at = now })

-- `ResetSchedule`
abbrev pub reset_schedule : Saga → Time → Saga
reset_schedule saga now = record saga { attempts = 0; next_attempt_at = none; updated_at = now }

pub record SagaStep : Type 0 where
  pub id : Uuid
  pub saga_id : Uuid
  pub step_name : SagaStepName
  pub direction : SagaStepDirection
  pub status : SagaStepStatus
  pub command_message_id : Option Uuid
  pub reply_message_id : Option Uuid
  pub error : Option String
  pub created_at : Time

-- `NewSagaStep`
abbrev pub new_saga_step : Uuid → Uuid → SagaStepName → SagaStepDirection → Time → SagaStep
new_saga_step id saga_id name dir now = record {
  id = id;
  saga_id = saga_id;
  step_name = name;
  direction = dir;
  status = step_pending;
  command_message_id = none;
  reply_message_id = none;
  error = none;
  created_at = now;
}
