-- ===== src/Orchestrator/Service/Replay/Replayed.antt =====
-- `ReplayDeadMessage` does what its abstract description says.
use go_saga_outbox.Base.{ℕ, ◌≡◌, ◌⊎◌, inl, inr, refl, true, none, some, ◌∷◌, any}
use go_saga_outbox.Runtime.{
  Uuid, Time, Bytes, Error, db_error, dead_message_not_found, good, bad, Codec, Env, World,
}
use go_saga_outbox.Runtime.Ends.{Ends, Ends-lift, Ends-deref}
use go_saga_outbox.Trx.Ends.{Lost, Ends-run}
use go_saga_outbox.Trx.Atomic.{KeptOrDone, run-KeptOrDone}
use go_saga_outbox.Storage.{DeadMessage}
use go_saga_outbox.Contracts.{MessageHeaders}
use go_saga_outbox.Outbox.{has_id}
use go_saga_outbox.Outbox.Ends.{Ends-new_outbox, Ends-append}
use go_saga_outbox.Dlq.{can_replay, mark_rows}
use go_saga_outbox.Dlq.Ends.{lookup_dead, replayable-good, Ends-find_by_id, Ends-mark_replayed_last}
use go_saga_outbox.Orchestrator.Repo.{SagaDb}
use go_saga_outbox.Orchestrator.Service.Shared.{Codecs, aggregate_type}
use go_saga_outbox.Orchestrator.Service.Replay.{replay, replay_dead_message}

module _ (e : Env) (c : Codecs) (compact : Codec Bytes) where
  -- Why a replay can fail.
  pub data ReplayRefusal (id : Uuid) (d : SagaDb) (x : Error) : Type 0 where
    struck : (n : ℕ) → e.fault n ≡ true → x ≡ db_error → ReplayRefusal id d x
    row_taken :
        (n : ℕ) → any (has_id (e.fresh n)) d.outbox ≡ true → x ≡ db_error → ReplayRefusal id d x
    unknown : lookup_dead id d ≡ none → x ≡ dead_message_not_found → ReplayRefusal id d x
    refused :
        (dm : DeadMessage)
        → lookup_dead id d ≡ some dm
        → can_replay dm ≡ bad x
        → ReplayRefusal id d x
    bad_headers :
        (dm : DeadMessage)
        → lookup_dead id d ≡ some dm
        → c.headers.unmarshal dm.headers ≡ bad x
        → ReplayRefusal id d x
    bad_payload :
        (dm : DeadMessage)
        → lookup_dead id d ≡ some dm
        → compact.marshal dm.payload ≡ bad x
        → ReplayRefusal id d x
    bad_new_headers : (h : MessageHeaders) → c.headers.marshal h ≡ bad x → ReplayRefusal id d x

  -- The message is in the outbox again with a new id and the old one as its cause, and the dead
  -- message is marked.
  pub record ReplayedEffect (id : Uuid) (d d' : SagaDb) : Type 0 where
    pub dm : DeadMessage
    pub saga_id : Uuid
    pub headers : MessageHeaders
    pub new_message_id : Uuid
    pub payload : Bytes
    pub headers_bytes : Bytes
    pub created_at : Time
    pub replayed_at : Time
    pub known : lookup_dead id d ≡ some dm
    pub first : dm.replayed_at ≡ none
    pub owned : dm.saga_id ≡ some saga_id
    pub decoded : c.headers.unmarshal dm.headers ≡ good headers
    pub payload_json : compact.marshal dm.payload ≡ good payload
    pub headers_json :
        c.headers.marshal
          (record headers { message_id = new_message_id; causation_id = some dm.message_id })
        ≡ good headers_bytes
    pub tables :
        d'
        ≡ mark_rows id replayed_at (record d {
          outbox =
              record {
                id = new_message_id;
                aggregate_type = aggregate_type;
                aggregate_id = saga_id;
                topic = dm.topic;
                key = saga_id;
                payload = payload;
                headers = headers_bytes;
                created_at = created_at;
                published_at = none;
              }
              ∷ d.outbox;
        })

  -- ReplayDeadMessage never panics: the id that it dereferences is there whenever it gets so far.
  -- It fails only for a reason that `ReplayRefusal` lists; and where it succeeds, the dead message
  -- was not replayed before and has a saga, its topic and payload are in the outbox with its
  -- headers under a new message id and the old one as the cause, and it is marked as replayed; or
  -- the commit failed, and no table changed.
  pub replay_dead_message-Ends :
      (id : Uuid) (w : World SagaDb)
      → Ends
          (ReplayRefusal id w.db)
          (λ _ d'. Lost e w.db d' ⊎ ReplayedEffect id w.db d')
          (replay_dead_message e c compact id w)
  unfolding replay_dead_message
  replay_dead_message-Ends id w =
      Ends-run e (replay e c compact id) w (λ n h. struck n h refl) (λ _ n h. inl (n, h, refl))
        (Ends-find_by_id e (λ n h. struck n h refl) id _ _ refl (λ gone. unknown gone refl)
          λ dm known.
            Ends-lift _ _ _ (λ x b. refused dm known b)
              λ _ allowed.
                let (first, (saga_id, owned)) = replayable-good dm.replayed_at dm.saga_id allowed in
                Ends-lift _ _ _ (λ x b. bad_headers dm known b)
                  λ headers decoded. Ends-deref _ _ _ saga_id owned (
                    Ends-new_outbox compact c.headers _ saga_id saga_id aggregate_type dm.topic
                      dm.payload _ _ _ _ (λ x b. bad_payload dm known b)
                      (λ x b. bad_new_headers _ b)
                      λ payload headers_bytes payload_json headers_json.
                        Ends-append e _ _ _ refl (λ n h. struck n h refl)
                          (λ clash. row_taken _ clash refl)
                          (Ends-mark_replayed_last e (λ n h. struck n h refl) id _ _ refl
                            (inr (record {
                              dm = dm;
                              saga_id = saga_id;
                              headers = headers;
                              new_message_id = _;
                              payload = payload;
                              headers_bytes = headers_bytes;
                              created_at = _;
                              replayed_at = _;
                              known = known;
                              first = first;
                              owned = owned;
                              decoded = decoded;
                              payload_json = payload_json;
                              headers_json = headers_json;
                              tables = refl;
                            })))))

  -- A replay that fails leaves the tables as they were.
  pub replay_dead_message-KeptOrDone :
      (id : Uuid) (w : World SagaDb) → KeptOrDone w (replay_dead_message e c compact id w)
  unfolding replay_dead_message
  replay_dead_message-KeptOrDone id w = run-KeptOrDone e (replay e c compact id) w
