-- ===== src/Relay.antt =====
-- pkg/outbox/relay.go and producer.go: the relay sends the rows of the outbox to Kafka.
pub mod Batch
pub mod RoundTrip
pub mod Waiting
pub mod Draining
use go_saga_outbox.Base.{
  ℕ, zero, suc, ◌+◌, String, Bool, true, false, Option, none, some, List, [], ◌∷◌, if◌then◌else◌,
}
use go_saga_outbox.Runtime.{
  Uuid, Error, send_failed, Outcome, ok, err, panic, Codec, Env, Record, M, pure, crash, lift, now,
  ◌>>=◌, ◌>>◌,
}
use go_saga_outbox.Storage.{Outbox, Db}
use go_saga_outbox.Trx.{run}
use go_saga_outbox.Contracts.{MessageHeaders}
use go_saga_outbox.Outbox.{fetch_unpublished, mark_published}

abbrev causation_header : Env → Option Uuid → List (String × String)
causation_header e none = []
causation_header e (some id) = ("causation_id", e.uuid_text id) ∷ []

-- The message that `Publish` makes of a row. Its headers are a map, in no order.
abbrev pub record_of : Env → Outbox → MessageHeaders → Record
record_of e msg hdr = record {
  topic = msg.topic;
  key = e.uuid_text msg.key;
  value = msg.payload;
  headers =
      ("message_id", e.uuid_text hdr.message_id)
      ∷ ("saga_id", e.uuid_text hdr.saga_id)
      ∷ ("event_type", hdr.event_type)
      ∷ ("schema_version", e.int_text hdr.schema_version)
      ∷ causation_header e hdr.causation_id;
}

-- `Producer.Send` of pkg/kafka: WriteMessages, synchronous and with all acknowledgements.
unfoldable pub send : {D : Type 0} → Env → Record → M D Unit
send e msg w =
    if e.fault w.tick
    then (err send_failed, record w { tick = w.tick + 1 })
    else (ok tt, record w { sent = msg ∷ w.sent; tick = w.tick + 1 })

-- An error of one row is only logged.
abbrev pub published : {T : Type 0} → Outcome Unit → M (Db T) Bool
published (ok done) = pure true
published (err x) = pure false
published panic = crash

-- The end of `processBatch`.
unfoldable pub mark_all : {T : Type 0} → Env → List Uuid → M (Db T) Unit
unfolding mark_published
mark_all e [] = pure tt
mark_all e (id ∷ ids) = do at ← now e; mark_published e (id ∷ ids) at

module _ {T : Type 0} (e : Env) (headings : Codec MessageHeaders) where
  -- `Publish`
  unfoldable pub publish : Outbox → M (Db T) Unit
  unfolding send
  publish msg = do hdr ← lift (headings.unmarshal msg.headers); send e (record_of e msg hdr)

  -- The loop of `processBatch`: the ids of the rows that were sent.
  unfoldable pub publish_all : List Outbox → M (Db T) (List Uuid)
  unfolding publish
  publish_all [] = pure []
  publish_all (row ∷ rest) = do
    sent ← λ w. let (r, w') = publish row w in published r w'
    ids ← publish_all rest
    pure (if sent then row.id ∷ ids else ids)

  unfoldable pub batch : ℕ → M (Db T) Unit
  unfolding fetch_unpublished publish_all mark_all
  batch limit = do
    results ← fetch_unpublished e limit
    published_ids ← publish_all results
    mark_all e published_ids

  -- `processBatch`
  unfoldable pub process_batch : ℕ → M (Db T) Unit
  unfolding run batch
  process_batch limit = run e (batch limit)

  -- An error of a batch is only logged.
  abbrev batch_logged : Outcome Unit → M (Db T) Unit
  batch_logged (ok done) = pure tt
  batch_logged (err x) = pure tt
  batch_logged panic = crash

  -- `run`, over the number of ticks until the context ends.
  unfoldable pub run_ticks : ℕ → ℕ → M (Db T) Unit
  unfolding process_batch
  run_ticks limit zero = pure tt
  run_ticks limit (suc n) = do
    λ w. let (r, w') = process_batch limit w in batch_logged r w'
    run_ticks limit n
