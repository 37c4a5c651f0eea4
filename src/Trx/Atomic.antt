-- ===== src/Trx/Atomic.antt =====
-- A transaction is all or nothing.
use go_saga_outbox.Base.{true, ◌+◌, false, ◌⊎◌, inl, inr, Bool-cases, ◌≡◌, refl, arith}
use go_saga_outbox.Runtime.{Env, Error, Outcome, ok, err, panic, World, M}
use go_saga_outbox.Trx.{rollback, run}

-- How a call ended, as far as the tables go: with a result, or as at the start.
abbrev pub KeptOrDone : {D A : Type 0} → World D → Outcome A × World D → Type 0
KeptOrDone w (ok a, w') = Unit
KeptOrDone w (err x, w') = w'.db ≡ w.db
KeptOrDone w (panic, w') = w'.db ≡ w.db

-- Whatever the body does, a transaction that ends by an error or a panic leaves the tables as they
-- were.
pub run-KeptOrDone :
    {D A : Type 0} (e : Env) (body : M D A) (w : World D) → KeptOrDone w (run e body w)
unfolding run
run-KeptOrDone e body w = ground arith

-- How a transaction ends, by how its body ends.
module _ {D A : Type 0} (e : Env) (body : M D A) (w w' : World D) where
  pub run-err :
      (x : Error)
      → e.fault w.tick ≡ false
      → body (record w { aborted = false; tick = w.tick + 1 }) ≡ (err x, w')
      → run e body w ≡ (err x, rollback w.db w')
  unfolding run
  run-err x begun h = simp (begun, h)

  pub run-ok :
      (a : A)
      → e.fault w.tick ≡ false
      → w'.aborted ≡ false
      → body (record w { aborted = false; tick = w.tick + 1 }) ≡ (ok a, w')
      → (run e body w ≡ (ok a, record w' { tick = w'.tick + 1 }))
        ⊎ ((run e body w ≡ (ok a, rollback w.db w')) × (e.fault w'.tick ≡ true))
  unfolding run
  run-ok a begun fine h = elim (Bool-cases (e.fault w'.tick)) [
    | inl struck ↦ simp (begun, h, fine, struck) (inr (refl, refl))
    | inr passed ↦ simp (begun, h, fine, passed) (inl refl)
  ]
