-- ===== src/Orchestrator/Service/Scheduler/Republish.antt =====
-- A tick of a running saga below the limit of attempts sends its current command again.
use mathlib.Core.Option
use go_saga_outbox.Base.{ℕ, ◌+◌, ◌≡◌, refl, ap, ◌∙◌, false, Option, none, some, List, ◌++◌, leb}
use go_saga_outbox.Runtime.{Uuid, good, Env, World}
use go_saga_outbox.Runtime.Ends.{Ends, Ends-lift}
use go_saga_outbox.Contracts.Inventory.{new_reserve_seat}
use go_saga_outbox.Contracts.Payment.{new_charge}
use go_saga_outbox.Contracts.Notification.{new_send}
use go_saga_outbox.Storage.{Outbox}
use go_saga_outbox.Orchestrator.Model.{
  BookTicketPayload, SagaState, running, completed, compensating, compensated, failed, SagaStepName,
  initial, reserve_seat, charge_payment, send_notification, Saga, decode_payload, deadline,
  add_duration, step_timeout, max_saga_attempts,
}
use go_saga_outbox.Orchestrator.Repo.{SagaDb, upsert_saga}
use go_saga_outbox.Orchestrator.Repo.Ends.{Ends-upsert_last}
use go_saga_outbox.Orchestrator.Service.Shared.{Codecs}
use go_saga_outbox.Orchestrator.Service.Effects.{Command, reserve, charge, send, Encodes, SentRow}
use go_saga_outbox.Orchestrator.Service.Refusals.{
  TickRefusal, tick_fault, tick_row_taken, tick_context,
}
use go_saga_outbox.Orchestrator.Service.Sending.{emit_command, Ends-emit_command}
use go_saga_outbox.Orchestrator.Service.Scheduler.{current_command, republish, tick_saga}

-- The command of a running saga's step.
abbrev pub command_at : SagaStepName → Uuid → BookTicketPayload → Option Command
command_at initial saga_id p = none
command_at reserve_seat saga_id p = some (reserve (new_reserve_seat saga_id p.event_id p.user_id))
command_at charge_payment saga_id p = some (charge (new_charge saga_id p.user_id p.amount))
command_at send_notification saga_id p = some (send (new_send saga_id p.user_id p.channel))

current_command-eq :
    (e : Env) (c : Codecs) (step : SagaStepName) (saga : Saga) (p : BookTicketPayload)
    → current_command e c running step saga p
      ≡ Option.map (λ cmd. emit_command e c cmd saga.id none) (command_at step saga.id p)
unfolding current_command
current_command-eq e c initial saga p = refl
current_command-eq e c reserve_seat saga p = refl
current_command-eq e c charge_payment saga p = refl
current_command-eq e c send_notification saga p = refl

current_command-some :
    (e : Env) (c : Codecs) (state : SagaState) (step : SagaStepName) (saga : Saga)
    (p : BookTicketPayload) (cmd : Command)
    → state ≡ running
    → command_at step saga.id p ≡ some cmd
    → current_command e c state step saga p ≡ some (emit_command e c cmd saga.id none)
current_command-some e c running step saga p cmd runs h =
    current_command-eq e c step saga p
    ∙ ap (Option.map (λ cmd. emit_command e c cmd saga.id none)) h
current_command-some e c completed step saga p cmd runs h = cc
current_command-some e c compensating step saga p cmd runs h = cc
current_command-some e c compensated step saga p cmd runs h = cc
current_command-some e c failed step saga p cmd runs h = cc

module _ (e : Env) (c : Codecs) where
  -- The command is in the outbox again, and the attempt and its longer deadline are stored.
  pub record RepublishedEffect (saga : Saga) (cmd : Command) (d d' : SagaDb) : Type 0 where
    pub asked : ℕ  -- the event at which the clock is first read
    pub rows : List Outbox
    pub sent : SentRow c saga.id none cmd rows
    pub tables : d' ≡ record d {
      outbox = rows ++ d.outbox;
      own = record d.own {
        saga =
            upsert_saga
              (record saga {
                attempts = saga.attempts + 1;
                next_attempt_at = some (
                    add_duration
                      (e.now asked)
                      (step_timeout (saga.attempts + 1) (e.rand (asked + 1))));
                updated_at = e.now (asked + 1 + 1);
              })
              d.own.saga;
      };
    }

  -- A tick, in a transaction that is not aborted and for codecs that encode, of a running saga that
  -- is below the limit of attempts and waits at a step with a command: it never panics; it fails
  -- only for a reason that `TickRefusal` lists; and where it succeeds it has put that step's
  -- command in the outbox once more, with no cause, and stored the attempt with the deadline that
  -- the timeout for it gives.
  pub tick_saga_republishes :
      (saga : Saga) (payload : BookTicketPayload) (cmd : Command) (w : World SagaDb)
      → Encodes c
      → w.aborted ≡ false
      → saga.state ≡ running
      → leb max_saga_attempts (saga.attempts + 1) ≡ false
      → decode_payload c.payloads saga ≡ good payload
      → command_at saga.current_step saga.id payload ≡ some cmd
      → Ends
          (TickRefusal e c saga w.db)
          (λ _ d'. RepublishedEffect saga cmd w.db d')
          (tick_saga e c saga w)
  unfolding tick_saga republish deadline
  tick_saga_republishes saga payload cmd w json fine runs below ordered current =
      simp (below, ordered)
        (Ends-lift _ _ _ (λ x b. tick_context b)
          λ context had.
            rw
              (current_command-some e c saga.state saga.current_step
                (record saga { attempts = saga.attempts + 1 }) payload cmd runs current)
              (Ends-emit_command e (λ n h. tick_fault n h refl) c cmd saga.id none _ _ fine json
                (λ n h. tick_row_taken n h refl)
                λ rows k sent.
                  Ends-upsert_last e (λ n h. tick_fault n h refl) _ _ refl
                    (record { asked = _; rows = rows; sent = sent; tables = refl })))
