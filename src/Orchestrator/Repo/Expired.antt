-- ===== src/Orchestrator/Repo/Expired.antt =====
-- Which sagas `FindExpired` gives to the scheduler.
use go_saga_outbox.Base.{
  ℕ, ◌≤◌, ◌≡◌, ◌⊎◌, inl, inr, refl, Bool, true, false, not, ◌&&◌, Option, none, some, List, leb→le,
  le→leb, Answers, query-Answers, Bool-cases,
}
use go_saga_outbox.Runtime.{Uuid, Time, ok, err, db_error, Env, World}
use go_saga_outbox.Orchestrator.Model.{
  SagaState, running, completed, compensating, compensated, failed, Saga,
}
use go_saga_outbox.Orchestrator.Repo.{SagaDb, in_flight, due_by, due_time, is_expired, find_expired}

-- A saga that runs or compensates, whose deadline is there and has passed, and that no other
-- transaction has locked.
pub record IsDue (locked : Uuid → Bool) (now : Time) (row : Saga) : Type 0 where
  pub state : (row.state ≡ running) ⊎ (row.state ≡ compensating)
  pub deadline : Time
  pub scheduled : row.next_attempt_at ≡ some deadline
  pub passed : deadline ≤ now
  pub free : locked row.id ≡ false

in_flight-cases : (s : SagaState) → in_flight s ≡ true → (s ≡ running) ⊎ (s ≡ compensating)
in_flight-cases running h = inl refl
in_flight-cases compensating h = inr refl
in_flight-cases completed h = cc
in_flight-cases compensated h = cc
in_flight-cases failed h = cc

due_by-some :
    (now : Time) (o : Option Time)
    → due_by now o ≡ true
    → (at : Time) × ((o ≡ some at) × (at ≤ now))
due_by-some now none h = cc
due_by-some now (some at) h = (at, (refl, leb→le at now h))

both : (a b c : Bool) → (a && b && not c) ≡ true → (a ≡ true) × (b ≡ true) × (c ≡ false)
both true true false h = (refl, refl, refl)
both true true true h = cc
both true false c h = cc
both false b c h = cc

expired-IsDue :
    (locked : Uuid → Bool) (now : Time) (row : Saga)
    → is_expired locked now row ≡ true
    → IsDue locked now row
expired-IsDue locked now row h =
    let (moving, due, free) =
      both (in_flight row.state) (due_by now row.next_attempt_at) (locked row.id) h in
    let (at, (scheduled, passed)) = due_by-some now row.next_attempt_at due in
    record {
      state = in_flight-cases row.state moving;
      deadline = at;
      scheduled = scheduled;
      passed = passed;
      free = free;
    }

in_flight_lem : (s : SagaState) → (s ≡ running) ⊎ (s ≡ compensating) → in_flight s ≡ true
in_flight_lem s (inl h) = rw h refl
in_flight_lem s (inr h) = rw h refl

is_expired_lem :
    (locked : Uuid → Bool) (now : Time) (row : Saga)
    → IsDue locked now row
    → is_expired locked now row ≡ true
is_expired_lem locked now row h =
    simp (in_flight_lem row.state h.state, h.scheduled, le→leb h.deadline now h.passed, h.free) refl

-- FindExpired, in a transaction that is not aborted, fails with a fault; or it changes no table and
-- gives the sagas with the earliest deadlines, in their order, of all that run or compensate, whose
-- deadline has passed and that no other transaction has locked: all of them, or as many as the
-- limit says.
pub find_expired-lem :
    (e : Env) (now : Time) (limit : ℕ) (w : World SagaDb)
    → w.aborted ≡ false
    → let r = find_expired e now limit w in
      ((e.fault w.tick ≡ true) × (r.0 ≡ err db_error))
      ⊎ ((rows : List Saga) × (r.0 ≡ ok rows)
          × (r.1.db ≡ w.db)
          × Answers
              (IsDue (e.locked w.tick) now)
              (λ row. due_time row.next_attempt_at)
              limit
              w.db.own.saga
              rows)
unfolding find_expired
find_expired-lem e now limit w fine = elim (Bool-cases (e.fault w.tick)) [
  | inl struck ↦ simp (fine, struck) (inl (refl, refl))
  | inr passed ↦
      let locked = e.locked w.tick in
      simp (fine, passed)
        (inr (
          _,
          refl,
          refl,
          query-Answers (IsDue locked now) (is_expired locked now)
              (λ row. due_time row.next_attempt_at) limit w.db.own.saga (expired-IsDue locked now)
              (is_expired_lem locked now),
        ))
]
