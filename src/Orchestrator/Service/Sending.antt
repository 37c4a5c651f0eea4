-- ===== src/Orchestrator/Service/Sending.antt =====
-- The rules for a command that a handler sends, and for the end of a handler.
use go_saga_outbox.Base.{ℕ, String, ◌≡◌, refl, ◌∙◌, List, ◌++◌, true, false, Option, ◌∷◌, any, ◌==◌}
use go_saga_outbox.Runtime.{Uuid, Time, Error, db_error, Codec, Env, World, M, pure, ◌>>=◌}
use go_saga_outbox.Runtime.Ends.{Ends, Ends-pure, Ends-tail}
use go_saga_outbox.Storage.{Outbox}
use go_saga_outbox.Outbox.{has_id}
use go_saga_outbox.Orchestrator.Model.{
  SagaStepName, SagaStepDirection, SagaStepStatus, new_saga_step,
}
use go_saga_outbox.Orchestrator.Repo.{SagaDb}
use go_saga_outbox.Contracts.Inventory
use go_saga_outbox.Contracts.Payment
use go_saga_outbox.Contracts.Notification
use go_saga_outbox.Orchestrator.Service.Effects.{
  Command, reserve, release, charge, refund, send, topic_of, event_type_of, encoded, Encodes,
  SentRow,
}
use go_saga_outbox.Orchestrator.Service.Shared.{Codecs, record_step, emit}
use go_saga_outbox.Orchestrator.Service.Rules.{Ends-emit, Ends-record_step}

-- `emit` at a command.
abbrev pub emit_command : Env → Codecs → Command → Uuid → Option Uuid → M SagaDb Unit
emit_command e c (reserve p) =
    emit e c c.reserve_seats Inventory.topic_commands Inventory.event_type_reserve_seat p
emit_command e c (release p) =
    emit e c c.release_seats Inventory.topic_commands Inventory.event_type_release_seat p
emit_command e c (charge p) = emit e c c.charges Payment.topic_commands Payment.event_type_charge p
emit_command e c (refund p) = emit e c c.refunds Payment.topic_commands Payment.event_type_refund p
emit_command e c (send p) =
    emit e c c.sends Notification.topic_commands Notification.event_type_send p

module _ {X : Error → Type 0} {Q : Unit → SagaDb → Type 0} (e : Env)
    (faulty : (n : ℕ) → e.fault n ≡ true → X db_error) where
  Ends-emit_row :
      {P : Type 0} (c : Codecs) (codec : Codec P) (p : P) (cmd : Command) (saga_id : Uuid)
      (cause : Option Uuid) (f : Unit → M SagaDb Unit) (w : World SagaDb)
      → codec.marshal p ≡ encoded c cmd
      → w.aborted ≡ false
      → Encodes c
      → ((n : ℕ) → any (has_id (e.fresh n)) w.db.outbox ≡ true → X db_error)
      → ((rows : List Outbox) (k : ℕ)
          → SentRow c saga_id cause cmd rows
          → Ends X Q (
              f tt (record w {
                db = record w.db { outbox = rows ++ w.db.outbox };
                aborted = false;
                tick = k;
              })))
      → Ends X Q ((emit e c codec (topic_of cmd) (event_type_of cmd) p saga_id cause >>= f) w)
  Ends-emit_row c codec p cmd saga_id cause f w same fine json taken done =
      let (payload, as_json) = json.commands cmd in
      Ends-emit e faulty c codec (topic_of cmd) (event_type_of cmd) p saga_id cause f w fine
        (same ∙ as_json) json.headers taken
        λ id at k headers heading. done _ k (record {
          id = id;
          at = at;
          payload = payload;
          headers = headers;
          payload_json = as_json;
          headers_json = heading;
          row = refl;
        })

  -- The rule for a command.
  pub Ends-emit_command :
      (c : Codecs) (cmd : Command) (saga_id : Uuid) (cause : Option Uuid) (f : Unit → M SagaDb Unit)
      (w : World SagaDb)
      → w.aborted ≡ false
      → Encodes c
      → ((n : ℕ) → any (has_id (e.fresh n)) w.db.outbox ≡ true → X db_error)
      → ((rows : List Outbox) (k : ℕ)
          → SentRow c saga_id cause cmd rows
          → Ends X Q (
              f tt (record w {
                db = record w.db { outbox = rows ++ w.db.outbox };
                aborted = false;
                tick = k;
              })))
      → Ends X Q ((emit_command e c cmd saga_id cause >>= f) w)
  Ends-emit_command c (reserve p) saga_id cause f w =
      Ends-emit_row c c.reserve_seats p (reserve p) saga_id cause f w refl
  Ends-emit_command c (release p) saga_id cause f w =
      Ends-emit_row c c.release_seats p (release p) saga_id cause f w refl
  Ends-emit_command c (charge p) saga_id cause f w =
      Ends-emit_row c c.charges p (charge p) saga_id cause f w refl
  Ends-emit_command c (refund p) saga_id cause f w =
      Ends-emit_row c c.refunds p (refund p) saga_id cause f w refl
  Ends-emit_command c (send p) saga_id cause f w =
      Ends-emit_row c c.sends p (send p) saga_id cause f w refl

  -- The rule for a command at the end of a handler.
  pub Ends-emit_last :
      (c : Codecs) (cmd : Command) (saga_id : Uuid) (cause : Option Uuid) (w : World SagaDb)
      → w.aborted ≡ false
      → Encodes c
      → ((n : ℕ) → any (has_id (e.fresh n)) w.db.outbox ≡ true → X db_error)
      → ((rows : List Outbox)
          → SentRow c saga_id cause cmd rows
          → Q tt (record w.db { outbox = rows ++ w.db.outbox }))
      → Ends X Q (emit_command e c cmd saga_id cause w)
  Ends-emit_last c cmd saga_id cause w fine json taken done =
      Ends-tail (emit_command e c cmd saga_id cause) w (
        Ends-emit_command c cmd saga_id cause pure w fine json taken
          λ rows k sent. Ends-pure tt _ refl (done rows sent))

  -- The rule for a step row at the end of a handler.
  pub Ends-record_step_last :
      (saga_id : Uuid) (name : SagaStepName) (direction : SagaStepDirection)
      (status : SagaStepStatus) (error : Option String) (w : World SagaDb)
      → w.aborted ≡ false
      → ((n : ℕ) → any (λ row. row.id == e.fresh n) w.db.own.saga_step ≡ true → X db_error)
      → ((id : Uuid) (at : Time)
          → Q tt (record w.db {
            own = record w.db.own {
              saga_step =
                  record (new_saga_step id saga_id name direction at) {
                    status = status;
                    error = error;
                  }
                  ∷ w.db.own.saga_step;
            };
          }))
      → Ends X Q (record_step e saga_id name direction status error w)
  Ends-record_step_last saga_id name direction status error w fine taken done =
      Ends-tail (record_step e saga_id name direction status error) w (
        Ends-record_step e faulty saga_id name direction status error pure w fine taken
          λ id at k. Ends-pure tt _ refl (done id at))
