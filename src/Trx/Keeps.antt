-- ===== src/Trx/Keeps.antt =====
-- A transaction keeps what its body keeps.
use go_saga_outbox.Base.{◌+◌, ◌||◌, false, inl, inr, Bool-cases}
use go_saga_outbox.Runtime.{Env, Outcome, ok, err, panic, World, M}
use go_saga_outbox.Runtime.Keeps.{Keeps}
use go_saga_outbox.Trx.{commit, close, run, autocommit}

module _ {D A : Type 0} (P : D → Type 0) where
  close-keeps :
      (e : Env) (before : D) (r : Outcome A) (w : World D)
      → P before
      → P w.db
      → P (close e before (r, w)).1.db
  unfolding close commit
  close-keeps e before (ok a) w h k = elim (Bool-cases (w.aborted || e.fault w.tick)) [
    | inl failed ↦ simp failed h
    | inr committed ↦ simp committed k
  ]
  close-keeps e before (err x) w h k = h
  close-keeps e before panic w h k = h

module _ {D A : Type 0} {P : D → Type 0} where
  pub Keeps-run : (e : Env) (body : M D A) → Keeps P body → Keeps P (run e body)
  unfolding run
  Keeps-run e body kb = record { at = λ w h. go w h }
    where
      go : (w : World D) → P w.db → P (run e body w).1.db
      go w h = elim (Bool-cases (e.fault w.tick)) [
        | inl struck ↦ simp struck h
        | inr begun ↦
            let start : World D = record w { aborted = false; tick = w.tick + 1 } in
            simp begun (close-keeps P e w.db (body start).0 (body start).1 h (kb.at start h))
      ]

  pub Keeps-autocommit : (m : M D A) → Keeps P m → Keeps P (autocommit m)
  unfolding autocommit
  Keeps-autocommit m km = record { at = λ w h. km.at (record w { aborted = false }) h }
