-- ===== src/Orchestrator/Repo.antt =====
-- orchestrator/internal/repo: the tables `saga` and `saga_step`.
pub mod Ends
pub mod Expired
pub mod Growth
pub mod Lookup
use go_saga_outbox.Base.{
  ℕ, Bool, false, true, ◌&&◌, not, Option, none, some, List, ◌∷◌, find, any, select, update,
  sort_by, take, leb, ◌==◌, if◌then◌else◌,
}
use go_saga_outbox.Runtime.{Uuid, Time, saga_not_found, Env, M, pure, raise, statement, ◌>>=◌}
use go_saga_outbox.Storage.{Db}
use go_saga_outbox.Orchestrator.Model.{SagaState, running, compensating, Saga, SagaStep}

pub record SagaTables : Type 0 where
  pub saga : List Saga
  pub saga_step : List SagaStep

abbrev pub SagaDb : Type 0
SagaDb = Db SagaTables

abbrev pub has_id : Uuid → Saga → Bool
has_id id row = row.id == id

-- `DO UPDATE SET`: the columns that an existing row takes over.
abbrev pub overwrite : Saga → Saga → Saga
overwrite saga row = record row {
  state = saga.state;
  current_step = saga.current_step;
  context = saga.context;
  attempts = saga.attempts;
  next_attempt_at = saga.next_attempt_at;
  updated_at = saga.updated_at;
}

abbrev pub upsert_saga : Saga → List Saga → List Saga
upsert_saga saga rows =
    if any (has_id saga.id) rows then update (has_id saga.id) (overwrite saga) rows else saga ∷ rows

abbrev pub set_sagas : List Saga → SagaDb → SagaDb
set_sagas rows db = record db { own = record db.own { saga = rows } }

-- `SagaRepo.Upsert`
unfoldable pub upsert : Env → Saga → M SagaDb Unit
unfolding statement
upsert e saga = statement e (λ db. some (tt, set_sagas (upsert_saga saga db.own.saga) db))

abbrev pub found : Option Saga → M SagaDb Saga
found none = raise saga_not_found
found (some saga) = pure saga

abbrev pub lookup_saga : Uuid → SagaDb → Option Saga
lookup_saga id db = find (has_id id) db.own.saga

-- `SagaRepo.FindByID`
unfoldable pub find_by_id : Env → Uuid → M SagaDb Saga
unfolding statement
find_by_id e id = do row ← statement e (λ db. some (lookup_saga id db, db)); found row

abbrev in_flight : SagaState → Bool
in_flight running = true
in_flight compensating = true
in_flight _ = false

abbrev due_by : Time → Option Time → Bool
due_by now none = false
due_by now (some at) = leb at now

-- The `WHERE` clause of `FindExpired`, and the rows that another transaction has locked.
abbrev pub is_expired : (Uuid → Bool) → Time → Saga → Bool
is_expired locked now row =
    in_flight row.state && due_by now row.next_attempt_at && not (locked row.id)

abbrev pub due_time : Option Time → Time
due_time none = 0
due_time (some at) = at

abbrev pub expired_rows : (Uuid → Bool) → Time → ℕ → List Saga → List Saga
expired_rows locked now limit rows =
    take limit (sort_by (λ row. due_time row.next_attempt_at) (select (is_expired locked now) rows))

-- `SagaRepo.FindExpired`
unfoldable pub find_expired : Env → Time → ℕ → M SagaDb (List Saga)
unfolding statement
find_expired e now limit w =
    statement e (λ db. some (expired_rows (e.locked w.tick) now limit db.own.saga, db)) w

abbrev pub append_row : SagaStep → SagaDb → Option (Unit {0} × SagaDb)
append_row step db =
    if any (λ row. row.id == step.id) db.own.saga_step
    then none
    else some (tt, record db { own = record db.own { saga_step = step ∷ db.own.saga_step } })

-- `SagaStepRepo.Append`
unfoldable pub append_step : Env → SagaStep → M SagaDb Unit
unfolding statement
append_step e step = statement e (append_row step)
