-- ===== src/Orchestrator/Service/Scheduler/Stuck.antt =====
-- A compensating saga whose deadline has passed: the scheduler finds it and does nothing for it.
use go_saga_outbox.Base.{◌+◌, ◌≡◌, refl, false, inl, inr, List, [], ◌∷◌, All, leb, Bool-cases}
use go_saga_outbox.Runtime.{Env, World, ok, good}
use go_saga_outbox.Orchestrator.Model.{
  BookTicketContext, BookTicketPayload, compensating, Saga, decode_context, decode_payload,
  max_saga_attempts,
}
use go_saga_outbox.Orchestrator.Repo.{SagaDb, expired_rows, find_expired}
use go_saga_outbox.Orchestrator.Service.Shared.{Codecs}
use go_saga_outbox.Orchestrator.Service.Scheduler.{
  current_command, republish, tick_saga, tick_all, process_expired,
}

-- Compensating, below the limit of attempts, and with bytes that decode.
pub record IsStuck (c : Codecs) (saga : Saga) : Type 0 where
  pub back : saga.state ≡ compensating
  pub below : leb max_saga_attempts (saga.attempts + 1) ≡ false
  pub context : BookTicketContext
  pub payload : BookTicketPayload
  pub had : decode_context c.contexts saga ≡ good context
  pub ordered : decode_payload c.payloads saga ≡ good payload

module _ (e : Env) (c : Codecs) where
  -- A tick of a compensating saga below the limit changes nothing at all: no attempt is stored, no
  -- command is sent and no deadline is set, so the next poll finds the same row.
  pub tick_saga_stuck :
      (saga : Saga) (w : World SagaDb) → IsStuck c saga → tick_saga e c saga w ≡ (ok tt, w)
  unfolding tick_saga current_command republish
  tick_saga_stuck saga w h = simp (h.below, h.had, h.ordered, h.back)

  tick_all_stuck :
      (sagas : List Saga) (w : World SagaDb)
      → All (IsStuck c) sagas
      → tick_all e c sagas w ≡ (ok tt, w)
  unfolding tick_all
  tick_all_stuck [] w h = refl
  tick_all_stuck (saga ∷ rest) w h = rw (tick_saga_stuck saga w h.0) (tick_all_stuck rest w h.1)

  -- Where the rows that the poll takes, which are ten at most, are such sagas, ProcessExpired
  -- changes no table, whatever other sagas are due.
  pub process_expired_stuck :
      (w : World SagaDb)
      → All
          (IsStuck c)
          (expired_rows (e.locked (w.tick + 1 + 1)) (e.now (w.tick + 1)) 10 w.db.own.saga)
      → (process_expired e c w).1.db ≡ w.db
  unfolding process_expired find_expired
  process_expired_stuck w h = elim (Bool-cases (e.fault w.tick)) [
    | inl a ↦ simp a
    | inr a ↦ elim (Bool-cases (e.fault (w.tick + 1 + 1))) [
      | inl b ↦ simp (a, b)
      | inr b ↦ elim (Bool-cases (e.fault (w.tick + 1 + 1 + 1))) [
        | inl z ↦ simp (a, b, tick_all_stuck _ _ h, z)
        | inr z ↦ simp (a, b, tick_all_stuck _ _ h, z)
      ]
    ]
  ]
