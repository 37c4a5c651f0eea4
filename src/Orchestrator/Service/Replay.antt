-- ===== src/Orchestrator/Service/Replay.antt =====
-- `ReplayDeadMessage`.
pub mod Replayed
use go_saga_outbox.Base.{some}
use go_saga_outbox.Runtime.{Uuid, Bytes, Codec, Env, M, lift, deref, now, v7, ◌>>=◌, ◌>>◌}
use go_saga_outbox.Trx.{run}
use go_saga_outbox.Outbox.{new_outbox, append}
use go_saga_outbox.Dlq.{can_replay, find_by_id, mark_replayed}
use go_saga_outbox.Orchestrator.Repo.{SagaDb}
use go_saga_outbox.Orchestrator.Service.Shared.{Codecs, aggregate_type}

-- A `json.RawMessage` is its own JSON. (An invalid text is refused by `json.Marshal`, and the
-- payloads here were read from Kafka: `compact` is that check.)
module _ (e : Env) (c : Codecs) (compact : Codec Bytes) where
  replay : Uuid → M SagaDb Unit
  replay id = do
    dm ← find_by_id e id
    lift (can_replay dm)
    headers ← lift (c.headers.unmarshal dm.headers)
    new_message_id ← v7 e
    let fresh_headers = record headers {
      message_id = new_message_id;
      causation_id = some dm.message_id;
    }
    saga_id ← deref dm.saga_id
    at ← now e
    row ←
        new_outbox compact c.headers new_message_id saga_id saga_id aggregate_type dm.topic
          dm.payload fresh_headers at
    append e row
    replayed_at ← now e
    mark_replayed e id replayed_at

  unfoldable pub replay_dead_message : Uuid → M SagaDb Unit
  unfolding run replay
  replay_dead_message id = run e (replay id)
