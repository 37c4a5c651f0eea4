-- ===== src/Runtime.antt =====
-- The machine that the services run on: errors, panics, the clock, random values and SQL
-- statements that can fail. Code outside of the repository enters as the fields of `Env`.
pub mod Ends
pub mod Keeps
use go_saga_outbox.Base.{ℕ, ◌+◌, String, Bool, true, ◌||◌, Option, none, some, List, if◌then◌else◌}

-- A UUID is its 128-bit value; `uuid.Nil` is 0. UUIDs are only compared.
abbrev pub Uuid : Type 0
Uuid = ℕ

-- Nanoseconds.
abbrev pub Time : Type 0
Time = ℕ

abbrev pub Bytes : Type 0
Bytes = List ℕ

-- What `errors.Is` and `errors.As` can find in an error's chain: the sentinel or the kind at its
-- end. The texts that `fmt.Errorf("...: %w", err)` puts in front are left out.
-- `joined e` is `errors.Join(kafka.ErrPermanent, e)`.
pub data Error : Type 0 where
  db_error : Error
  json_syntax json_type json_other : Error
  invalid_payload payload_empty : Error
  malformed_headers : Error
  saga_not_found dead_message_not_found : Error
  already_replayed cannot_replay : Error
  payload_context_mismatch decode_saga_ctx : Error
  no_seat_id no_reservation_id no_payment_id : Error
  no_free_seats seat_not_found reservation_not_found seats_mismatch : Error
  payment_not_found cannot_refund_not_charged negative_amount : Error
  notification_not_found : Error
  send_failed : Error
  panicked : Error
  joined : Error → Error

-- What a function returns that can fail and does not panic.
pub data Result (A : Type 0) : Type 0 where
  good : A → Result A
  bad : Error → Result A

-- How a call ends.
pub data Outcome (A : Type 0) : Type 0 where
  ok : A → Outcome A
  err : Error → Outcome A
  panic : Outcome A

-- `json.Marshal` and `json.Unmarshal` at one type.
pub record Codec (A : Type 0) : Type 0 where
  pub marshal : A → Result Bytes
  pub unmarshal : Bytes → Result A

-- What the code takes from outside, by the number of the event that asks for it.
pub record Env : Type 0 where
  pub now : ℕ → Time
  pub fresh : ℕ → Uuid  -- `uuid.NewV7`
  pub rand : ℕ → ℕ  -- `rand.Intn(1000)` is this modulo 1000
  pub fault : ℕ → Bool  -- a statement, BEGIN, COMMIT or a call to Kafka fails
  pub locked : ℕ → Uuid → Bool  -- another transaction holds the row's lock
  pub parse_uuid : String → Option Uuid
  pub uuid_text : Uuid → String
  pub int_text : ℕ → String  -- `strconv.Itoa`
  pub error_text : Error → String  -- `err.Error()`
  pub jsonb : Bytes → Bytes  -- what a JSONB column gives back of JSON text

-- Prometheus counters. A counter vector is the list of the labels of its increments.
pub record Metrics : Type 0 where
  pub saga_completed : ℕ
  pub saga_compensated : ℕ
  pub saga_failed : ℕ
  pub saga_stuck : ℕ
  pub saga_retries : List String
  pub inbox_duplicates : List String
  pub dlq_messages : List String

-- A message as `kafka.Writer` takes it. Header values are texts.
pub record Record : Type 0 where
  pub topic : String
  pub key : String
  pub value : Bytes
  pub headers : List (String × String)

-- A service: its database, whether the transaction at hand is aborted, the events so far, and
-- the counters of the process and what it has sent to Kafka (the latest first), which no rollback
-- restores.
pub record World (D : Type 0) : Type 0 where
  pub db : D
  pub aborted : Bool
  pub tick : ℕ
  pub metrics : Metrics
  pub sent : List Record

abbrev pub M : Type 0 → Type 0 → Type 0
M D A = World D → Outcome A × World D

module _ {D A : Type 0} where
  abbrev pub pure : A → M D A
  pure a w = (ok a, w)

  abbrev pub raise : Error → M D A
  raise e w = (err e, w)

  abbrev pub crash : M D A
  crash w = (panic, w)

  -- A call that touches no state.
  abbrev pub lift : Result A → M D A
  lift (good a) = pure a
  lift (bad x) = raise x

  -- `*p`; a nil pointer panics.
  abbrev pub deref : Option A → M D A
  deref none = crash
  deref (some a) = pure a

module _ {D A B : Type 0} where
  abbrev pub continue : Outcome A → (A → M D B) → M D B
  continue (ok a) f w = f a w
  continue (err e) f w = (err e, w)
  continue panic f w = (panic, w)

  infixl 5 ◌>>=◌ ◌>>◌
  abbrev pub ◌>>=◌ : M D A → (A → M D B) → M D B
  ◌>>=◌ m f w = let (r, w') = m w in continue r f w'

  abbrev pub ◌>>◌ : M D A → M D B → M D B
  m >> k = m >>= λ _. k

-- `metrics.X.Inc()`
abbrev pub count : {D : Type 0} → (Metrics → Metrics) → M D Unit
count f w = (ok tt, record w { metrics = f w.metrics })

module _ {D : Type 0} (e : Env) where
  -- `s.now()`
  abbrev pub now : M D Time
  now w = (ok (e.now w.tick), record w { tick = w.tick + 1 })

  -- `uuidv7.V7()`
  abbrev pub v7 : M D Uuid
  v7 w = (ok (e.fresh w.tick), record w { tick = w.tick + 1 })

-- One SQL statement. It fails by the fault of the moment, in an aborted transaction, and where
-- its effect `q` is `none`, which is a violated constraint; each failure aborts the transaction.
module _ {D A : Type 0} where
  effect : Option (A × D) → World D → Outcome A × World D
  effect none w = (err db_error, record w { aborted = true; tick = w.tick + 1 })
  effect (some (a, d)) w = (ok a, record w { db = d; tick = w.tick + 1 })

  unfoldable pub statement : Env → (D → Option (A × D)) → M D A
  unfolding effect
  statement e q w =
      if w.aborted || e.fault w.tick
      then (err db_error, record w { aborted = true; tick = w.tick + 1 })
      else effect (q w.db) w
