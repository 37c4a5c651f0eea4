-- ===== src/Orchestrator/Repo/Ends.antt =====
-- The rules for the statements of the saga tables.
use go_saga_outbox.Base.{
  ℕ, ◌+◌, ◌≡◌, refl, true, false, none, some, ◌∷◌, any, Bool-cases, Option-cases, inl, inr, ◌==◌,
}
use go_saga_outbox.Runtime.{Uuid, Error, db_error, saga_not_found, Env, World, M, ◌>>=◌}
use go_saga_outbox.Runtime.Ends.{Ends, Ends-pure, Ends-tail}
use go_saga_outbox.Orchestrator.Model.{Saga, SagaStep}
use go_saga_outbox.Orchestrator.Repo.{
  SagaDb, lookup_saga, upsert_saga, set_sagas, upsert, find_by_id, append_step,
}

module _ {B : Type 0} {X : Error → Type 0} {Q : B → SagaDb → Type 0} (e : Env)
    (faulty : (n : ℕ) → e.fault n ≡ true → X db_error) where
  pub Ends-upsert :
      (saga : Saga) (f : Unit → M SagaDb B) (w : World SagaDb)
      → w.aborted ≡ false
      → Ends X Q (
          f tt (record w {
            db = set_sagas (upsert_saga saga w.db.own.saga) w.db;
            aborted = false;
            tick = w.tick + 1;
          }))
      → Ends X Q ((upsert e saga >>= f) w)
  unfolding upsert
  Ends-upsert saga f w fine done = elim (Bool-cases (e.fault w.tick)) [
    | inl struck ↦ simp (fine, struck) (record { holds = faulty w.tick struck })
    | inr passed ↦ simp (fine, passed) done
  ]

  pub Ends-find_by_id :
      (id : Uuid) (f : Saga → M SagaDb B) (w : World SagaDb)
      → w.aborted ≡ false
      → (lookup_saga id w.db ≡ none → X saga_not_found)
      → ((saga : Saga)
          → lookup_saga id w.db ≡ some saga
          → Ends X Q (f saga (record w { aborted = false; tick = w.tick + 1 })))
      → Ends X Q ((find_by_id e id >>= f) w)
  unfolding find_by_id
  Ends-find_by_id id f w fine unknown known = elim (Bool-cases (e.fault w.tick)) [
    | inl struck ↦ simp (fine, struck) (record { holds = faulty w.tick struck })
    | inr passed ↦ elim (Option-cases (lookup_saga id w.db)) [
      | inl missing ↦ simp (fine, passed, missing) (record { holds = unknown missing })
      | inr (saga, there) ↦ simp (fine, passed, there) (known saga there)
    ]
  ]

  pub Ends-append_step :
      (step : SagaStep) (f : Unit → M SagaDb B) (w : World SagaDb)
      → w.aborted ≡ false
      → (any (λ row. row.id == step.id) w.db.own.saga_step ≡ true → X db_error)
      → Ends X Q (
          f tt (record w {
            db = record w.db { own = record w.db.own { saga_step = step ∷ w.db.own.saga_step } };
            aborted = false;
            tick = w.tick + 1;
          }))
      → Ends X Q ((append_step e step >>= f) w)
  unfolding append_step
  Ends-append_step step f w fine taken done = elim (Bool-cases (e.fault w.tick)) [
    | inl struck ↦ simp (fine, struck) (record { holds = faulty w.tick struck })
    | inr passed ↦ elim (Bool-cases (any (λ row. row.id == step.id) w.db.own.saga_step)) [
      | inl clash ↦ simp (fine, passed, clash) (record { holds = taken clash })
      | inr free ↦ simp (fine, passed, free) done
    ]
  ]

module _ {X : Error → Type 0} {Q : Unit → SagaDb → Type 0} (e : Env)
    (faulty : (n : ℕ) → e.fault n ≡ true → X db_error) where
  pub Ends-upsert_last :
      (saga : Saga) (w : World SagaDb)
      → w.aborted ≡ false
      → Q tt (set_sagas (upsert_saga saga w.db.own.saga) w.db)
      → Ends X Q (upsert e saga w)
  Ends-upsert_last saga w fine done =
      Ends-tail (upsert e saga) w (Ends-upsert e faulty saga _ w fine (Ends-pure tt _ refl done))
