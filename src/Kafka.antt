-- ===== src/Kafka.antt =====
-- pkg/kafka/consumer.go: a received message and what the consumer does with a handler's result.
pub mod Offsets
use go_saga_outbox.Base.{
  ◌+◌, ◌*◌, ◌++◌, Bool, true, false, ltb, ℕ, String, Option, none, some, List, [], ◌∷◌, str_eq,
  if◌then◌else◌,
}
use go_saga_outbox.Runtime.{
  ◌>>=◌, pure, crash, Time, Uuid, Bytes, Error, malformed_headers, joined, Result, good, bad,
  Outcome, ok, err, panic, Env, M,
}

-- A `map[string]string`: the first entry of a key counts.
abbrev pub Headers : Type 0
Headers = List (String × String)

abbrev pub header : String → Headers → Option String
header k [] = none
header k ((j, v) ∷ rest) = if str_eq j k then some v else header k rest

-- `headers[k]` for a key that may be missing.
abbrev pub header_or_empty : String → Headers → String
header_or_empty k h = elim (header k h) [ none ↦ "" | some v ↦ v ]

pub record Message : Type 0 where
  pub topic : String
  pub partition : ℕ
  pub offset : ℕ
  pub key : Bytes
  pub value : Bytes
  pub headers : Headers
  pub message_id : Uuid

abbrev pub Handler : Type 0 → Type 0
Handler D = Message → M D Unit

abbrev pub parse_saga_id : Env → String → Result Uuid
parse_saga_id e text = elim (e.parse_uuid text) [ none ↦ bad malformed_headers | some id ↦ good id ]

abbrev pub saga_id_of : Env → Option String → Result Uuid
saga_id_of e none = bad malformed_headers
saga_id_of e (some text) = parse_saga_id e text

-- `Message.GetSagaIDFromHeaders`; empty headers have no saga_id either.
abbrev pub get_saga_id_from_headers : Env → Message → Result Uuid
get_saga_id_from_headers e msg = saga_id_of e (header "saga_id" msg.headers)

-- What `reader.FetchMessage` gives: a message, an error, or the end of the context.
pub record Fetched : Type 0 where
  pub topic : String
  pub partition : ℕ
  pub offset : ℕ
  pub key : Bytes
  pub value : Bytes
  pub headers : Headers

pub data Fetch : Type 0 where
  fetched : Fetched → Fetch
  fetch_failed : Fetch
  cancelled : Fetch

-- A later header replaces an earlier one of the same key.
abbrev pub header_map : Headers → Headers → Headers
header_map acc [] = acc
header_map acc (kv ∷ rest) = header_map (kv ∷ acc) rest

-- `uuid.Parse` fails with the nil UUID, which the code goes on with.
abbrev pub parsed_id : Option Uuid → Uuid
parsed_id none = 0
parsed_id (some id) = id

abbrev pub message_id_of : Env → Option String → Uuid
message_id_of e none = 0
message_id_of e (some text) = parsed_id (e.parse_uuid text)

-- `toMessage`
unfoldable pub to_message : Env → Fetched → Message
to_message e m =
    let h = header_map [] m.headers in
    record {
      topic = m.topic;
      partition = m.partition;
      offset = m.offset;
      key = m.key;
      value = m.value;
      headers = h;
      message_id = message_id_of e (header "message_id" h);
    }

-- `errors.Is(err, ErrPermanent)`
abbrev pub is_permanent_error : Error → Bool
is_permanent_error (joined x) = true
is_permanent_error _ = false

-- `reader.CommitMessages`: the offsets that it commits. A failure is only logged.
commit_messages : {D : Type 0} → Env → ℕ → M D (List ℕ)
commit_messages e offset w =
    (ok (if e.fault w.tick then [] else offset ∷ []), record w { tick = w.tick + 1 })

-- What follows the handler's result in the loop of `Run`.
after_handler : {D : Type 0} → Env → ℕ → Outcome Unit → M D (List ℕ)
unfolding commit_messages
after_handler e offset (ok done) = commit_messages e offset
after_handler e offset (err x) =
    if is_permanent_error x then commit_messages e offset else commit_messages e offset
after_handler e offset panic = crash

-- The round of `Run` for one message: the offsets that are committed.
unfoldable pub consume : {D : Type 0} → Env → Handler D → Fetched → M D (List ℕ)
unfolding after_handler
consume e handler m w = let (r, w') = handler (to_message e m) w in after_handler e m.offset r w'

-- 2 * time.Second
abbrev pub backoff_limit : Time
backoff_limit = 2000000000

-- `Run`, over what the reader will give: the committed offsets, in order, and the waits between
-- failed fetches. An empty list stands for a reader that blocks.
unfoldable pub run :
    {D : Type 0} → Env → Handler D → Time → Time → List Fetch → M D (List ℕ × List Time)
run e handler retry_backoff backoff [] = pure ([], [])
run e handler retry_backoff backoff (cancelled ∷ rest) = pure ([], [])
run e handler retry_backoff backoff (fetch_failed ∷ rest) = do
  (commits, waits) ←
      run e handler retry_backoff (if ltb backoff backoff_limit then backoff * 2 else backoff) rest
  pure (commits, backoff ∷ waits)
run e handler retry_backoff backoff (fetched m ∷ rest) = do
  committed ← consume e handler m
  (commits, waits) ← run e handler retry_backoff retry_backoff rest
  pure (committed ++ commits, waits)
