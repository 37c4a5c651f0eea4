-- ===== src/Orchestrator/Service/Growth.antt =====
-- The rules for what the statements of the saga service keep: see `Grew`.
use go_saga_outbox.Base.{ℕ, String, Option, none, some, any, find, ◌==◌, Bool-cases, inl, inr}
use go_saga_outbox.Runtime.{Uuid, Time, Codec, Env, M, pure, now}
use go_saga_outbox.Runtime.Keeps.{
  Keeps, After, Keeps-pure, Keeps-raise, Keeps-bind, Keeps-now, Keeps-v7, Keeps-count, Keeps-if,
  Keeps-statement, keeps_rules,
}
use go_saga_outbox.Storage.{Inbox, Outbox, DeadMessage}
use go_saga_outbox.Dlq
use go_saga_outbox.Dlq.{mark_rows, mark_replayed}
use go_saga_outbox.Contracts.{MessageHeaders}
use go_saga_outbox.Inbox.{dedup, insert, insert_row, seen}
use go_saga_outbox.Outbox.{new_outbox, append, append_row, has_id}
use go_saga_outbox.Orchestrator.Model.{
  Saga, SagaStep, SagaStepName, SagaStepDirection, SagaStepStatus, deadline,
}
use go_saga_outbox.Orchestrator.Repo.{
  SagaDb, upsert, upsert_saga, set_sagas, find_by_id, lookup_saga, found, find_expired,
  expired_rows, append_step, append_row as step_row,
}
use go_saga_outbox.Orchestrator.Repo.Growth.{
  Grew, Extends-cons, SameSaga-trans, upsert_saga-SameSaga,
}
use go_saga_outbox.Orchestrator.Service.Shared.{
  Codecs, consumer_name, record_step, emit, once, unless_seen,
}
use go_saga_outbox.Kafka.{Message}
use go_saga_outbox.Trx.Keeps.{Keeps-run}

module _ {d : SagaDb} (e : Env) where
  pub Keeps-upsert : (saga : Saga) → Keeps (Grew d) (upsert e saga)
  unfolding upsert
  Keeps-upsert saga =
      Keeps-statement e (λ db. some (tt, set_sagas (upsert_saga saga db.own.saga) db))
        λ d₁ h. record {
          inbox = h.inbox;
          outbox = h.outbox;
          steps = h.steps;
          sagas = λ id s known.
              let (s₁, known₁, same₁) = h.sagas id s known in
              let (s₂, known₂, same₂) = upsert_saga-SameSaga saga id d₁.own.saga s₁ known₁ in
              (s₂, known₂, SameSaga-trans s s₁ s₂ same₁ same₂);
        }

  pub Keeps-find_by_id : (id : Uuid) → Keeps (Grew d) (find_by_id e id)
  unfolding find_by_id
  Keeps-find_by_id id =
      Keeps-bind _ _ (Keeps-statement e (λ db. some (lookup_saga id db, db)) λ d₁ h. h)
        λ row. Keeps-found row
    where
      Keeps-found : (row : Option Saga) → Keeps (Grew d) (found row)
      Keeps-found none = Keeps-raise _
      Keeps-found (some saga) = Keeps-pure _

  pub Keeps-find_expired : (now : Time) (limit : ℕ) → Keeps (Grew d) (find_expired e now limit)
  unfolding find_expired
  Keeps-find_expired now limit = record {
    at = λ w h.
        (Keeps-statement {P = Grew d} e
            (λ db. some (expired_rows (e.locked w.tick) now limit db.own.saga, db)) λ d₁ k. k).at
          w h;
  }

  pub Keeps-dead_by_id : (id : Uuid) → Keeps (Grew d) (Dlq.find_by_id e id)
  unfolding Dlq.find_by_id
  Keeps-dead_by_id id =
      Keeps-bind _ _
        (Keeps-statement e (λ db. some (find (λ row. row.id == id) db.dead_message, db)) λ d₁ h. h)
        λ row. Keeps-found row
    where
      Keeps-found : (row : Option DeadMessage) → Keeps (Grew d) (Dlq.found row)
      Keeps-found none = Keeps-raise _
      Keeps-found (some dm) = Keeps-pure _

  pub Keeps-mark_replayed : (id : Uuid) (at : Time) → Keeps (Grew d) (mark_replayed e id at)
  unfolding mark_replayed
  Keeps-mark_replayed id at =
      Keeps-statement e (λ db. some (tt, mark_rows id at db))
        λ d₁ h. record { inbox = h.inbox; outbox = h.outbox; steps = h.steps; sagas = h.sagas }

  pub Keeps-append_step : (step : SagaStep) → Keeps (Grew d) (append_step e step)
  unfolding append_step
  Keeps-append_step step = Keeps-statement e (step_row step) λ d₁ h. go d₁ h
    where
      go : (d₁ : SagaDb) → Grew d d₁ → After (Grew d) (step_row step d₁)
      go d₁ h = elim (Bool-cases (any (λ row. row.id == step.id) d₁.own.saga_step)) [
        | inl clash ↦ simp clash tt
        | inr new ↦ simp new (record {
          inbox = h.inbox;
          outbox = h.outbox;
          steps = Extends-cons step _ _ h.steps;
          sagas = h.sagas;
        })
      ]

  pub Keeps-append : (row : Outbox) → Keeps (Grew d) (append e row)
  unfolding append
  Keeps-append row = Keeps-statement e (append_row row) λ d₁ h. go d₁ h
    where
      go : (d₁ : SagaDb) → Grew d d₁ → After (Grew d) (append_row row d₁)
      go d₁ h = elim (Bool-cases (any (has_id row.id) d₁.outbox)) [
        | inl clash ↦ simp clash tt
        | inr new ↦ simp new (record {
          inbox = h.inbox;
          outbox = Extends-cons (record row { published_at = none }) _ _ h.outbox;
          steps = h.steps;
          sagas = h.sagas;
        })
      ]

  pub Keeps-insert : (row : Inbox) → Keeps (Grew d) (insert e row)
  unfolding insert
  Keeps-insert row = Keeps-statement e (insert_row row) λ d₁ h. go d₁ h
    where
      go : (d₁ : SagaDb) → Grew d d₁ → After (Grew d) (insert_row row d₁)
      go d₁ h = elim (Bool-cases (seen row.message_id row.consumer d₁)) [
        | inl dup ↦ simp dup h
        | inr new ↦ simp new (record {
          inbox = Extends-cons row _ _ h.inbox;
          outbox = h.outbox;
          steps = h.steps;
          sagas = h.sagas;
        })
      ]

  pub Keeps-dedup :
      (message_id : Uuid) (consumer : String) (at : Time)
      → Keeps (Grew d) (dedup e message_id consumer at)
  unfolding dedup
  Keeps-dedup message_id consumer at =
      Keeps-bind _ _ (Keeps-insert _) λ inserted. search keeps_rules

  pub Keeps-deadline : (at : Time) (attempts : ℕ) → Keeps (Grew d) (deadline e at attempts)
  unfolding deadline
  Keeps-deadline at attempts = record { at = λ w h. h }

  pub Keeps-new_outbox :
      {P : Type 0} (codec : Codec P) (headings : Codec MessageHeaders)
      (id aggregate_id saga_id : Uuid) (aggregate_type topic : String) (payload : P)
      (headers : MessageHeaders) (at : Time)
      → Keeps (Grew d) (
          new_outbox codec headings id aggregate_id saga_id aggregate_type topic payload headers at)
  Keeps-new_outbox codec headings id aggregate_id saga_id aggregate_type topic payload headers at =
      search keeps_rules

  pub Keeps-record_step :
      (saga_id : Uuid) (name : SagaStepName) (direction : SagaStepDirection)
      (status : SagaStepStatus) (error : Option String)
      → Keeps (Grew d) (record_step e saga_id name direction status error)
  unfolding record_step
  Keeps-record_step saga_id name direction status error = search (keeps_rules, Keeps-append_step)

module _ {d : SagaDb} (e : Env) (c : Codecs) where
  pub Keeps-emit :
      {P : Type 0} (codec : Codec P) (topic event_type : String) (cmd : P) (saga_id : Uuid)
      (cause : Option Uuid)
      → Keeps (Grew d) (emit e c codec topic event_type cmd saga_id cause)
  unfolding emit
  Keeps-emit codec topic event_type cmd saga_id cause =
      search (keeps_rules, Keeps-new_outbox, Keeps-append)

module _ {d : SagaDb} (e : Env) where
  pub Keeps-once :
      (msg : Message) (body : M SagaDb Unit)
      → Keeps (Grew d) body
      → Keeps (Grew d) (once e msg body)
  unfolding once unless_seen
  Keeps-once msg body kb = Keeps-run e (unless_seen e msg body) (
      Keeps-bind _ _ (Keeps-now e) λ at.
        Keeps-bind _ _ (Keeps-dedup e msg.message_id consumer_name at)
          λ inserted. Keeps-if inserted body (pure tt) kb (Keeps-pure tt))

pub ruleset growth_rules = (
  keeps_rules, Keeps-upsert, Keeps-find_by_id, Keeps-append_step, Keeps-append, Keeps-dedup,
  Keeps-deadline, Keeps-new_outbox, Keeps-record_step, Keeps-emit, Keeps-once, Keeps-run,
  Keeps-find_expired, Keeps-dead_by_id, Keeps-mark_replayed,
)
