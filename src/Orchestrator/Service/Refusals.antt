-- ===== src/Orchestrator/Service/Refusals.antt =====
-- An abstract description of the reasons for which a handler of the saga service, or a tick of the
-- scheduler, can fail.
use go_saga_outbox.Base.{ℕ, ◌≡◌, refl, true, none, some, any, ◌==◌}
use go_saga_outbox.Runtime.{
  Uuid, Error, db_error, saga_not_found, payload_context_mismatch, decode_saga_ctx,
  no_reservation_id, no_seat_id, no_payment_id, Result, good, bad, Env,
}
use go_saga_outbox.Outbox.{has_id}
use go_saga_outbox.Kafka.{Message, get_saga_id_from_headers}
use go_saga_outbox.Orchestrator.Model.{BookTicketContext, Saga, decode_context, decode_payload}
use go_saga_outbox.Orchestrator.Repo.{SagaDb, lookup_saga}
use go_saga_outbox.Orchestrator.Service.Shared.{Codecs}

-- Why a handler can fail once it has the saga. `Differs` is the handler's own check of the message
-- against the context.
pub data SagaRefusal (c : Codecs) (Differs : BookTicketContext → Type 0) (saga : Saga) (x : Error)
    : Type 0 where
  bad_context : decode_context c.contexts saga ≡ bad x → SagaRefusal c Differs saga x
  hidden_context :
      (y : Error)
      → decode_context c.contexts saga ≡ bad y
      → x ≡ decode_saga_ctx
      → SagaRefusal c Differs saga x
  bad_payload : decode_payload c.payloads saga ≡ bad x → SagaRefusal c Differs saga x
  lacks_reservation :
      (ctx : BookTicketContext)
      → decode_context c.contexts saga ≡ good ctx
      → ctx.reservation_id ≡ none
      → x ≡ no_reservation_id
      → SagaRefusal c Differs saga x
  lacks_seat :
      (ctx : BookTicketContext)
      → decode_context c.contexts saga ≡ good ctx
      → ctx.seat_id ≡ none
      → x ≡ no_seat_id
      → SagaRefusal c Differs saga x
  lacks_payment :
      (ctx : BookTicketContext)
      → decode_context c.contexts saga ≡ good ctx
      → ctx.payment_id ≡ none
      → x ≡ no_payment_id
      → SagaRefusal c Differs saga x
  differs :
      (ctx : BookTicketContext)
      → decode_context c.contexts saga ≡ good ctx
      → Differs ctx
      → x ≡ payload_context_mismatch
      → SagaRefusal c Differs saga x

-- Why a handler of `msg` can fail with `x` on the tables `d`; `payload` is its decoded value.
pub data Refusal {P : Type 0} (e : Env) (c : Codecs) (msg : Message) (payload : Result P)
    (Differs : BookTicketContext → Type 0) (d : SagaDb) (x : Error) : Type 0 where
  sql_fault : (n : ℕ) → e.fault n ≡ true → x ≡ db_error → Refusal e c msg payload Differs d x
  step_id_taken :
      (n : ℕ)
      → any (λ row. row.id == e.fresh n) d.own.saga_step ≡ true
      → x ≡ db_error
      → Refusal e c msg payload Differs d x
  row_id_taken :
      (n : ℕ)
      → any (has_id (e.fresh n)) d.outbox ≡ true
      → x ≡ db_error
      → Refusal e c msg payload Differs d x
  bad_value : payload ≡ bad x → Refusal e c msg payload Differs d x
  bad_saga_id : get_saga_id_from_headers e msg ≡ bad x → Refusal e c msg payload Differs d x
  unknown_saga :
      (id : Uuid)
      → get_saga_id_from_headers e msg ≡ good id
      → lookup_saga id d ≡ none
      → x ≡ saga_not_found
      → Refusal e c msg payload Differs d x
  of_saga :
      (id : Uuid) (saga : Saga)
      → get_saga_id_from_headers e msg ≡ good id
      → lookup_saga id d ≡ some saga
      → SagaRefusal c Differs saga x
      → Refusal e c msg payload Differs d x

-- A handler that compares the message with nothing.
abbrev pub NoCheck : BookTicketContext → Type 0
NoCheck ctx = ⊥

module _ {P : Type 0} {e : Env} {c : Codecs} {msg : Message} {payload : Result P}
    {Differs : BookTicketContext → Type 0} {d : SagaDb} where
  pub struck : (n : ℕ) → e.fault n ≡ true → Refusal e c msg payload Differs d db_error
  struck n h = sql_fault n h refl

  pub step_taken :
      (n : ℕ)
      → any (λ row. row.id == e.fresh n) d.own.saga_step ≡ true
      → Refusal e c msg payload Differs d db_error
  step_taken n h = step_id_taken n h refl

  pub row_taken :
      (n : ℕ)
      → any (has_id (e.fresh n)) d.outbox ≡ true
      → Refusal e c msg payload Differs d db_error
  row_taken n h = row_id_taken n h refl

-- Why a tick of a saga can fail.
pub data TickRefusal (e : Env) (c : Codecs) (saga : Saga) (d : SagaDb) (x : Error) : Type 0 where
  tick_fault : (n : ℕ) → e.fault n ≡ true → x ≡ db_error → TickRefusal e c saga d x
  tick_step_taken :
      (n : ℕ)
      → any (λ row. row.id == e.fresh n) d.own.saga_step ≡ true
      → x ≡ db_error
      → TickRefusal e c saga d x
  tick_row_taken :
      (n : ℕ) → any (has_id (e.fresh n)) d.outbox ≡ true → x ≡ db_error → TickRefusal e c saga d x
  tick_context : decode_context c.contexts saga ≡ bad x → TickRefusal e c saga d x
  tick_payload : decode_payload c.payloads saga ≡ bad x → TickRefusal e c saga d x
