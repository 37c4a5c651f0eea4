-- ===== src/Orchestrator/Service/Scheduler/Growing.antt =====
-- What the scheduler keeps: see `Grew`.
use go_saga_outbox.Base.{◌+◌, leb, Option, none, some, List, [], ◌∷◌}
use go_saga_outbox.Runtime.{Outcome, ok, err, panic, Env, World, M}
use go_saga_outbox.Runtime.Keeps.{Keeps, Keeps-pure, Keeps-if, Keeps-lift, Keeps-bind}
use go_saga_outbox.Orchestrator.Model.{
  max_saga_attempts, decode_context, decode_payload, Saga, SagaState, running, completed,
  compensating, compensated, failed, SagaStepName, initial, reserve_seat, charge_payment,
  send_notification, BookTicketPayload,
}
use go_saga_outbox.Orchestrator.Repo.{SagaDb}
use go_saga_outbox.Orchestrator.Repo.Growth.{Grew}
use go_saga_outbox.Orchestrator.Service.Shared.{Codecs}
use go_saga_outbox.Orchestrator.Service.Scheduler.{
  current_command, republish, re_publish_current_command, escalate_at, escalate_saga, tick_saga,
  logged, tick_all, process_expired,
}
use go_saga_outbox.Orchestrator.Service.Growth.{Keeps-emit, growth_rules}

-- What the command of a step keeps, where there is one.
abbrev KeepsCommand : SagaDb → Option (M SagaDb Unit) → Type 0
KeepsCommand d none = Unit
KeepsCommand d (some m) = Keeps (Grew d) m

module _ (d : SagaDb) (e : Env) (c : Codecs) where
  KeepsCommand-current :
      (state : SagaState) (step : SagaStepName) (saga : Saga) (p : BookTicketPayload)
      → KeepsCommand d (current_command e c state step saga p)
  unfolding current_command
  KeepsCommand-current running initial saga p = tt
  KeepsCommand-current running reserve_seat saga p = Keeps-emit e c _ _ _ _ _ _
  KeepsCommand-current running charge_payment saga p = Keeps-emit e c _ _ _ _ _ _
  KeepsCommand-current running send_notification saga p = Keeps-emit e c _ _ _ _ _ _
  KeepsCommand-current completed step saga p = tt
  KeepsCommand-current compensating step saga p = tt
  KeepsCommand-current compensated step saga p = tt
  KeepsCommand-current failed step saga p = tt

module _ {d : SagaDb} (e : Env) (c : Codecs) where
  Keeps-republish :
      (saga : Saga) (cmd : Option (M SagaDb Unit))
      → KeepsCommand d cmd
      → Keeps (Grew d) (republish e c saga cmd)
  unfolding republish
  Keeps-republish saga none k = Keeps-pure tt
  Keeps-republish saga (some m) k = search growth_rules depth 40 fits 2000

  Keeps-re_publish : (saga : Saga) → Keeps (Grew d) (re_publish_current_command e c saga)
  unfolding re_publish_current_command
  Keeps-re_publish saga = Keeps-bind _ _ (Keeps-lift (decode_context c.contexts saga)) λ ctx.
      Keeps-bind _ _ (Keeps-lift (decode_payload c.payloads saga))
        λ p. Keeps-republish saga _ (KeepsCommand-current d e c saga.state saga.current_step saga p)

  Keeps-escalate : (state : SagaState) (saga : Saga) → Keeps (Grew d) (escalate_at e c state saga)
  unfolding escalate_at
  Keeps-escalate running saga = search growth_rules depth 40 fits 2000
  Keeps-escalate compensating saga = search growth_rules depth 40 fits 2000
  Keeps-escalate completed saga = Keeps-pure tt
  Keeps-escalate compensated saga = Keeps-pure tt
  Keeps-escalate failed saga = Keeps-pure tt

  Keeps-tick_saga : (saga : Saga) → Keeps (Grew d) (tick_saga e c saga)
  unfolding tick_saga escalate_saga
  Keeps-tick_saga saga =
      let ticked = record saga { attempts = saga.attempts + 1 } in
      Keeps-if (leb max_saga_attempts ticked.attempts) (escalate_saga e c ticked)
        (re_publish_current_command e c ticked) (Keeps-escalate ticked.state ticked)
        (Keeps-re_publish ticked)

  Keeps-logged :
      (m : M SagaDb Unit)
      → Keeps (Grew d) m
      → Keeps (Grew d) (λ w. let (r, w') = m w in logged e c r w')
  Keeps-logged m km = record { at = λ w h. let (r, w') = m w in go r w' (km.at w h) }
    where
      go : (r : Outcome Unit) (w' : World SagaDb) → Grew d w'.db → Grew d (logged e c r w').1.db
      go (ok done) w' h = h
      go (err x) w' h = h
      go panic w' h = h

  Keeps-tick_all : (sagas : List Saga) → Keeps (Grew d) (tick_all e c sagas)
  unfolding tick_all
  Keeps-tick_all [] = Keeps-pure tt
  Keeps-tick_all (saga ∷ rest) =
      Keeps-bind _ _ (Keeps-logged (tick_saga e c saga) (Keeps-tick_saga saga))
        λ done. Keeps-tick_all rest

  pub Keeps-process_expired : Keeps (Grew d) (process_expired e c)
  unfolding process_expired
  Keeps-process_expired = search (growth_rules, Keeps-tick_all) depth 40 fits 2000
