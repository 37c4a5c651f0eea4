-- ===== src/Orchestrator/Service/Rules.antt =====
-- The rules for what the handlers share: `once`, `record_step` and `emit`.
use go_saga_outbox.Base.{
  ℕ, ◌+◌, String, ◌≡◌, refl, Bool, true, false, not, Option, none, some, ◌∷◌, any, ◌==◌,
  if◌then◌else◌,
}
use go_saga_outbox.Runtime.{
  Uuid, Time, Bytes, Error, db_error, Result, good, bad, Codec, Env, World, M, lift, ◌>>=◌,
}
use go_saga_outbox.Runtime.Ends.{Ends, Ends-pure, Ends-raise}
use go_saga_outbox.Trx.Ends.{Ends-run}
use go_saga_outbox.Storage.{new_inbox}
use go_saga_outbox.Contracts.{MessageHeaders, new_message_headers}
use go_saga_outbox.Inbox.{seen}
use go_saga_outbox.Inbox.Ends.{Ends-dedup}
use go_saga_outbox.Outbox.{has_id}
use go_saga_outbox.Outbox.Ends.{Ends-append}
use go_saga_outbox.Kafka.{Message}
use go_saga_outbox.Orchestrator.Model.{
  SagaStepName, SagaStepDirection, SagaStepStatus, new_saga_step, require,
}
use go_saga_outbox.Orchestrator.Repo.{SagaDb}
use go_saga_outbox.Orchestrator.Repo.Ends.{Ends-append_step}
use go_saga_outbox.Orchestrator.Service.Shared.{
  Codecs, consumer_name, aggregate_type, or_error, once, unless_seen, record_step, emit,
}

module _ {X : Error → Type 0} {Q : Unit → SagaDb → Type 0} (e : Env)
    (faulty : (n : ℕ) → e.fault n ≡ true → X db_error) where
  pub Ends-once :
      (msg : Message) (body : M SagaDb Unit) (w : World SagaDb)
      → (seen msg.message_id consumer_name w.db ≡ true → Q tt w.db)
      → ((n : ℕ) → e.fault n ≡ true → Q tt w.db)
      → ((at : Time) (k : ℕ)
          → Ends X Q (
              body (record w {
                db = record w.db { inbox = new_inbox msg.message_id consumer_name at ∷ w.db.inbox };
                aborted = false;
                tick = k;
              })))
      → Ends X Q (once e msg body w)
  unfolding once unless_seen
  Ends-once msg body w old lost new =
      Ends-run e (unless_seen e msg body) w faulty (λ _ n h. lost n h)
        (Ends-dedup e msg.message_id consumer_name (e.now (w.tick + 1)) _ _ refl faulty
          (λ dup. Ends-pure tt _ refl (old dup)) (λ first. new (e.now (w.tick + 1)) _))

  pub Ends-record_step :
      (saga_id : Uuid) (name : SagaStepName) (direction : SagaStepDirection)
      (status : SagaStepStatus) (error : Option String) (f : Unit → M SagaDb Unit)
      (w : World SagaDb)
      → w.aborted ≡ false
      → ((n : ℕ) → any (λ row. row.id == e.fresh n) w.db.own.saga_step ≡ true → X db_error)
      → ((id : Uuid) (at : Time) (k : ℕ)
          → Ends X Q (
              f tt (record w {
                db = record w.db {
                  own = record w.db.own {
                    saga_step =
                        record (new_saga_step id saga_id name direction at) {
                          status = status;
                          error = error;
                        }
                        ∷ w.db.own.saga_step;
                  };
                };
                aborted = false;
                tick = k;
              })))
      → Ends X Q ((record_step e saga_id name direction status error >>= f) w)
  unfolding record_step
  Ends-record_step saga_id name direction status error f w fine taken done =
      Ends-append_step e faulty _ f _ fine (taken w.tick) (done _ _ _)

  pub Ends-emit :
      {P : Type 0} (c : Codecs) (codec : Codec P) (topic event_type : String) (cmd : P)
      (saga_id : Uuid) (cause : Option Uuid) (f : Unit → M SagaDb Unit) (w : World SagaDb)
      {payload : Bytes}
      → w.aborted ≡ false
      → codec.marshal cmd ≡ good payload
      → ((h : MessageHeaders) → (b : Bytes) × (c.headers.marshal h ≡ good b))
      → ((n : ℕ) → any (has_id (e.fresh n)) w.db.outbox ≡ true → X db_error)
      → ((id : Uuid) (at : Time) (k : ℕ) (headers : Bytes)
          → c.headers.marshal (new_message_headers id saga_id cause event_type) ≡ good headers
          → Ends X Q (
              f tt (record w {
                db = record w.db {
                  outbox =
                      record {
                        id = id;
                        aggregate_type = aggregate_type;
                        aggregate_id = saga_id;
                        topic = topic;
                        key = saga_id;
                        payload = payload;
                        headers = headers;
                        created_at = at;
                        published_at = none;
                      }
                      ∷ w.db.outbox;
                };
                aborted = false;
                tick = k;
              })))
      → Ends X Q ((emit e c codec topic event_type cmd saga_id cause >>= f) w)
  unfolding emit
  Ends-emit c codec topic event_type cmd saga_id cause f w {payload} fine json heads taken done =
      let (headers, heading) =
        heads (new_message_headers (e.fresh w.tick) saga_id cause event_type) in
      rw (json, heading)
        (Ends-append e _ f _ fine faulty (taken w.tick) (done _ _ _ headers heading))

module _ {X : Error → Type 0} {Q : Unit → SagaDb → Type 0} where
  -- A decoding whose error gives way to a sentinel.
  pub Ends-or_error :
      {A : Type 0} (s : Error) (r : Result A) (f : A → M SagaDb Unit) (w : World SagaDb)
      → ((y : Error) → r ≡ bad y → X s)
      → ((a : A) → r ≡ good a → Ends X Q (f a w))
      → Ends X Q ((lift (or_error s r) >>= f) w)
  Ends-or_error s (good a) f w failure done = done a refl
  Ends-or_error s (bad y) f w failure done = Ends-raise s w (failure y refl)

  -- A check that an id is there.
  pub Ends-require :
      (o : Option Uuid) (x : Error) (f : Unit → M SagaDb Unit) (w : World SagaDb)
      → (o ≡ none → X x)
      → ((id : Uuid) → o ≡ some id → Ends X Q (f tt w))
      → Ends X Q ((lift (require o x) >>= f) w)
  Ends-require none x f w missing done = Ends-raise x w (missing refl)
  Ends-require (some id) x f w missing done = done id refl

  -- An early return.
  pub Ends-if :
      (b : Bool) (m n : M SagaDb Unit) (w : World SagaDb)
      → (b ≡ true → Ends X Q (m w))
      → (b ≡ false → Ends X Q (n w))
      → Ends X Q ((if b then m else n) w)
  Ends-if true m n w yeah nope = yeah refl
  Ends-if false m n w yeah nope = nope refl

  pub Ends-unless :
      (b : Bool) (m n : M SagaDb Unit) (w : World SagaDb)
      → (b ≡ false → Ends X Q (m w))
      → (b ≡ true → Ends X Q (n w))
      → Ends X Q ((if not b then m else n) w)
  Ends-unless true m n w nope yeah = yeah refl
  Ends-unless false m n w nope yeah = nope refl
