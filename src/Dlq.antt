-- ===== src/Dlq.antt =====
-- pkg/dlq: poison messages are put aside.
pub mod Wrapping
pub mod Ends
pub mod Listing
use go_saga_outbox.Base.{
  ℕ, String, Bool, true, false, not, Option, none, some, List, [], ◌∷◌, ◌&&◌, is_some, take,
  sort_by, select, find, any, update, str_eq, ◌==◌, if◌then◌else◌,
}
use go_saga_outbox.Runtime.{
  Uuid, Time, Bytes, Error, json_syntax, json_type, invalid_payload, dead_message_not_found,
  already_replayed, cannot_replay, panicked, joined, Result, good, bad, Outcome, ok, err, panic,
  Codec, Env, Metrics, M, pure, raise, crash, count, now, v7, statement, ◌>>=◌, ◌>>◌,
}
use go_saga_outbox.Storage.{DeadMessage, Db}
use go_saga_outbox.Trx.{run}
use go_saga_outbox.Kafka.{Headers, Message, Handler, get_saga_id_from_headers}

-- `NewDeadMessage`, with the UUID that it draws.
abbrev pub new_dead_message :
    Uuid → Uuid → Option Uuid → String → String → String → Bytes → Bytes → Time → DeadMessage
new_dead_message id message_id saga_id topic reason consumer payload headers now = record {
  id = id;
  saga_id = saga_id;
  message_id = message_id;
  topic = topic;
  payload = payload;
  headers = headers;
  reason = reason;
  consumer = consumer;
  created_at = now;
  replayed_at = none;
}

abbrev replayable_saga : Option Uuid → Result Unit
replayable_saga none = bad cannot_replay
replayable_saga (some id) = good tt

abbrev pub replayable : Option Time → Option Uuid → Result Unit
replayable (some at) saga_id = bad already_replayed
replayable none saga_id = replayable_saga saga_id

-- `DeadMessage.CanReplay`
abbrev pub can_replay : DeadMessage → Result Unit
can_replay dm = replayable dm.replayed_at dm.saga_id

-- `IsBasePermanent`, of an error that is not nil.
abbrev pub is_base_permanent : Error → Bool
is_base_permanent json_syntax = true
is_base_permanent json_type = true
is_base_permanent invalid_payload = true
is_base_permanent (joined x) = is_base_permanent x
is_base_permanent _ = false

abbrev pub same_message : DeadMessage → DeadMessage → Bool
same_message msg row = row.message_id == msg.message_id && str_eq row.consumer msg.consumer

-- The statement of `Insert`. The column `headers` is JSONB, and no other.
abbrev pub insert_row :
    {T : Type 0} → (Bytes → Bytes) → DeadMessage → Db T → Option (Unit {0} × Db T)
insert_row jsonb msg db =
    if any (same_message msg) db.dead_message
    then some (tt, db)
    else if any (λ row. row.id == msg.id) db.dead_message
    then none
    else some (
      tt,
      record db {
        dead_message =
            record msg { headers = jsonb msg.headers; replayed_at = none } ∷ db.dead_message;
      },
    )

-- `Repo.Insert`
unfoldable pub insert : {T : Type 0} → Env → DeadMessage → M (Db T) Unit
unfolding statement
insert e msg = statement e (insert_row e.jsonb msg)

abbrev pub found : {D : Type 0} → Option DeadMessage → M D DeadMessage
found none = raise dead_message_not_found
found (some dm) = pure dm

-- `Repo.FindByID`
unfoldable pub find_by_id : {T : Type 0} → Env → Uuid → M (Db T) DeadMessage
unfolding statement
find_by_id e id = do
  row ← statement e (λ db. some (find (λ row. row.id == id) db.dead_message, db))
  found row

abbrev pub mark_rows : {T : Type 0} → Uuid → Time → Db T → Db T
mark_rows id at db = record db {
  dead_message =
      update (λ row. row.id == id) (λ row. record row { replayed_at = some at }) db.dead_message;
}

-- `Repo.MarkReplayed`
unfoldable pub mark_replayed : {T : Type 0} → Env → Uuid → Time → M (Db T) Unit
unfolding statement
mark_replayed e id at = statement e (λ db. some (tt, mark_rows id at db))

abbrev pub unreplayed : {T : Type 0} → ℕ → Db T → List DeadMessage
unreplayed limit db = take limit (
    sort_by (λ row. row.created_at) (select (λ row. not (is_some row.replayed_at)) db.dead_message))

-- `Repo.ListUnreplayed`
unfoldable pub list_unreplayed : {T : Type 0} → Env → ℕ → M (Db T) (List DeadMessage)
unfolding statement
list_unreplayed e limit = statement e (λ db. some (unreplayed limit db, db))

abbrev pub or_nothing : Result Bytes → Bytes
or_nothing (good b) = b
or_nothing _ = []

abbrev pub or_nil : Result Uuid → Uuid
or_nil (good id) = id
or_nil _ = 0

abbrev pub count_dead : String → Metrics → Metrics
count_dead consumer m = record m { dlq_messages = consumer ∷ m.dlq_messages }

module _ {T : Type 0} (e : Env) (maps : Codec Headers) (consumer : String) where
  -- What happens to the result of the insert: a failure is only logged.
  abbrev written : Outcome Unit → M (Db T) Unit
  written (ok done) = count (count_dead consumer)
  written (err x) = pure tt
  written panic = crash

  -- `writeDLQ`. Its `now()` is read by the caller, before the UUID of the row is drawn.
  unfoldable pub write_dlq : Time → Message → String → M (Db T) Unit
  unfolding run insert
  write_dlq at msg reason = do
    let headers_bytes = or_nothing (maps.marshal msg.headers)
    let saga_id = or_nil (get_saga_id_from_headers e msg)
    let saga_id_ptr : Option Uuid = if saga_id == 0 then none else some saga_id
    id ← v7 e
    let dm =
        new_dead_message id msg.message_id saga_id_ptr msg.topic reason consumer msg.value
          headers_bytes at
    λ w. let (r, w') = run e (insert e dm) w in written r w'

  -- What `Wrap` does with the result of the inner handler.
  unfoldable pub after_inner : (Error → Bool) → Message → Outcome Unit → M (Db T) Unit
  unfolding write_dlq
  after_inner is_permanent msg (ok done) = pure tt
  after_inner is_permanent msg (err x) =
      if is_permanent x
      then (do at ← now e; write_dlq at msg (e.error_text x); raise (joined x))
      else raise x
  after_inner is_permanent msg panic = do
    at ← now e
    write_dlq at msg (e.error_text panicked)
    raise (joined panicked)

  -- `Wrap`
  unfoldable pub wrap : (Error → Bool) → Handler (Db T) → Handler (Db T)
  unfolding after_inner
  wrap is_permanent inner msg w = let (r, w') = inner msg w in after_inner is_permanent msg r w'
