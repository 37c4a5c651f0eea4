-- ===== src/Orchestrator/Service/Scheduler/Escalate.antt =====
-- A tick of a running saga at the limit of attempts gives it up.
use go_saga_outbox.Base.{◌+◌, ◌≡◌, refl, true, false, none, some, leb, ℕ}
use go_saga_outbox.Runtime.{Uuid, good, Env, World}
use go_saga_outbox.Runtime.Ends.{Ends}
use go_saga_outbox.Contracts.Inventory.{new_release_seat}
use go_saga_outbox.Orchestrator.Model.{
  BookTicketContext, running, compensating, forward, step_failed, Saga, decode_context,
  max_saga_attempts,
}
use go_saga_outbox.Orchestrator.Repo.{SagaDb}
use go_saga_outbox.Orchestrator.Repo.Ends.{Ends-upsert}
use go_saga_outbox.Orchestrator.Service.Shared.{Codecs}
use go_saga_outbox.Orchestrator.Service.Effects.{release, Encodes, Acted}
use go_saga_outbox.Orchestrator.Service.Refusals.{
  TickRefusal, tick_fault, tick_step_taken, tick_row_taken,
}
use go_saga_outbox.Orchestrator.Service.Rules.{Ends-record_step}
use go_saga_outbox.Orchestrator.Service.Sending.{Ends-emit_last}
use go_saga_outbox.Orchestrator.Service.Scheduler.{exceeded, tick_saga}

module _ (e : Env) (c : Codecs) where
  -- The seat is to be released, whether or not the context has a payment.
  pub record GivenUpEffect (saga : Saga) (d d' : SagaDb) : Type 0 where
    pub context : BookTicketContext
    pub reservation_id : Uuid
    pub seat_id : Uuid
    pub asked : ℕ  -- the event at which the clock is read
    pub had : decode_context c.contexts saga ≡ good context
    pub reserved : context.reservation_id ≡ some reservation_id
    pub seated : context.seat_id ≡ some seat_id
    pub acted :
        Acted c
          (record {
            saga = record saga {
              state = compensating;
              attempts = 0;
              next_attempt_at = none;
              updated_at = e.now asked;
            };
            saga_id = saga.id;
            step_name = saga.current_step;
            direction = forward;
            status = step_failed;
            error = some exceeded;
            command = some (release (new_release_seat saga.id reservation_id seat_id));
          })
          d
          d'

  -- The tick of a running saga whose attempts run out, in a transaction that is not aborted and for
  -- codecs that encode, where the context has a reservation and a seat: it never panics; it fails
  -- only for a reason that `TickRefusal` lists; and where it succeeds it has set the saga to
  -- compensating with no deadline, noted its step as failed, and put one command in the outbox,
  -- which releases the seat. There is no refund, whatever payment the context has.
  pub tick_saga_escalates :
      (saga : Saga) (context : BookTicketContext) (reservation_id seat_id : Uuid) (w : World SagaDb)
      → Encodes c
      → w.aborted ≡ false
      → saga.state ≡ running
      → leb max_saga_attempts (saga.attempts + 1) ≡ true
      → decode_context c.contexts saga ≡ good context
      → context.reservation_id ≡ some reservation_id
      → context.seat_id ≡ some seat_id
      → Ends (TickRefusal e c saga w.db) (λ _ d'. GivenUpEffect saga w.db d') (tick_saga e c saga w)
  unfolding tick_saga
  tick_saga_escalates saga context reservation_id seat_id w json fine runs limit had reserved
        seated =
      simp (runs, limit, had, reserved, seated)
        (Ends-upsert e (λ n h. tick_fault n h refl) _ _ _ fine
          (Ends-record_step e (λ n h. tick_fault n h refl) saga.id saga.current_step forward
            step_failed (some exceeded) _ _ refl (λ n h. tick_step_taken n h refl)
            λ step_id step_at k.
              Ends-emit_last e (λ n h. tick_fault n h refl) c
                (release (new_release_seat saga.id reservation_id seat_id)) saga.id none _ refl json
                (λ n h. tick_row_taken n h refl)
                λ rows sent. record {
                  context = context;
                  reservation_id = reservation_id;
                  seat_id = seat_id;
                  asked = _;
                  had = had;
                  reserved = reserved;
                  seated = seated;
                  acted = record {
                    step_id = step_id;
                    step_at = step_at;
                    rows = rows;
                    sent = sent;
                    tables = refl;
                  };
                }))
