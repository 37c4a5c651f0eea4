-- ===== src/Tests/Relaying.antt =====
-- The outbox and its relay, and the poll of the scheduler.
use go_saga_outbox.Base.{Answers, ℕ, ◌≡◌, ◌⊎◌, refl, true, none, some, List, [], ◌∷◌}
use go_saga_outbox.Runtime.{ok, err, db_error}
use go_saga_outbox.Storage.{Outbox}
use go_saga_outbox.Outbox.{fetch_unpublished}
use go_saga_outbox.Outbox.Fetching.{IsWaiting, fetch_unpublished-lem}
use go_saga_outbox.Relay.{process_batch}
use go_saga_outbox.Orchestrator.Model.{running, charge_payment, Saga}
use go_saga_outbox.Orchestrator.Repo.{SagaDb, find_expired, due_time}
use go_saga_outbox.Orchestrator.Repo.Expired.{IsDue, find_expired-lem}
use go_saga_outbox.Tests.{calm, codecs, saga_at, tables_of, world}

abbrev waiting : ℕ → ℕ → Outbox
waiting id created_at = record {
  id = id;
  aggregate_type = "saga";
  aggregate_id = 7;
  topic = "saga.payment.commands";
  key = 7;
  payload = 7 ∷ 4 ∷ [];
  headers = 1 ∷ id ∷ 7 ∷ 0 ∷ [];
  created_at = created_at;
  published_at = none;
}

-- Two rows that wait, and one that was published.
abbrev pending : SagaDb
pending = record (tables_of (saga_at running charge_payment 1)) {
  outbox = waiting 63 30 ∷ waiting 62 20 ∷ record (waiting 61 10) { published_at = some 15 } ∷ [];
}

fetch_unpublished-lem_example :
    let r = fetch_unpublished calm 50 (world pending) in
    ((calm.fault 0 ≡ true) × (r.0 ≡ err db_error))
    ⊎ ((rows : List Outbox) × (r.0 ≡ ok rows)
        × (r.1.db ≡ pending)
        × Answers (IsWaiting (calm.locked 0)) (λ row. row.created_at) 50 pending.outbox rows)
fetch_unpublished-lem_example = fetch_unpublished-lem calm 50 (world pending) refl

-- The oldest comes first, and the published row is left out.
fetched_ids :
    (fetch_unpublished calm 50 (world pending)).0 ≡ ok (waiting 62 20 ∷ waiting 63 30 ∷ [])
unfolding fetch_unpublished
fetched_ids = refl

find_expired-lem_example :
    let r = find_expired calm 1 10 (world pending) in
    ((calm.fault 0 ≡ true) × (r.0 ≡ err db_error))
    ⊎ ((rows : List Saga) × (r.0 ≡ ok rows)
        × (r.1.db ≡ pending)
        × Answers
            (IsDue (calm.locked 0) 1)
            (λ row. due_time row.next_attempt_at)
            10
            pending.own.saga
            rows)
find_expired-lem_example = find_expired-lem calm 1 10 (world pending) refl

-- The batch succeeds there.
batch_ok : (process_batch calm codecs.headers 50 (world pending)).0 ≡ ok tt
unfolding process_batch
batch_ok = refl
