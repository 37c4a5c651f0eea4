-- ===== src/Trx/Ends.antt =====
-- The rule for a transaction: what holds when its body ends holds after it, where it also holds of
-- the tables at its start for the case that the commit fails.
use go_saga_outbox.Base.{ℕ, ◌+◌, ◌≡◌, refl, true, false, Bool-cases, inl, inr}
use go_saga_outbox.Runtime.{Error, db_error, Outcome, ok, err, panic, Env, World, M}
use go_saga_outbox.Runtime.Ends.{Ends, Holds}
use go_saga_outbox.Trx.{close, run}

-- The commit failed, of which the caller is not told, and the tables are those before BEGIN.
abbrev pub Lost : {D : Type 0} → Env → D → D → Type 0
Lost e d d' = (n : ℕ) × (e.fault n ≡ true) × (d' ≡ d)

module _ {D A : Type 0} (X : Error → Type 0) (Q : A → D → Type 0) (e : Env) (before : D)
    (lost : (a : A) (n : ℕ) → e.fault n ≡ true → Q a before) where
  Holds-close : (r : Outcome A) (w : World D) → Holds X Q (r, w) → Holds X Q (close e before (r, w))
  unfolding close
  Holds-close (ok a) w h = elim (Bool-cases (e.fault w.tick)) [
    | inl struck ↦ simp (h.0, struck) (refl, lost a w.tick struck)
    | inr passed ↦ simp (h.0, passed) (refl, h.1)
  ]
  Holds-close (err x) w h = h
  Holds-close panic w h = h

module _ {D A : Type 0} {X : Error → Type 0} {Q : A → D → Type 0} where
  pub Ends-run :
      (e : Env) (body : M D A) (w : World D)
      → ((n : ℕ) → e.fault n ≡ true → X db_error)
      → ((a : A) (n : ℕ) → e.fault n ≡ true → Q a w.db)
      → Ends X Q (body (record w { aborted = false; tick = w.tick + 1 }))
      → Ends X Q (run e body w)
  unfolding run
  Ends-run e body w faulty lost h = elim (Bool-cases (e.fault w.tick)) [
    | inl struck ↦ rw struck (record { holds = faulty w.tick struck })
    | inr passed ↦
        let (r, w') = body (record w { aborted = false; tick = w.tick + 1 }) in
        rw passed (record { holds = Holds-close X Q e w.db lost r w' h.holds })
  ]
