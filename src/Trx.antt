-- ===== src/Trx.antt =====
-- pkg/trx/trx.go: a function that runs inside of one SQL transaction.
pub mod Atomic
pub mod Ends
pub mod Keeps
use go_saga_outbox.Base.{ℕ, ◌+◌, true, false, ◌||◌, if◌then◌else◌}
use go_saga_outbox.Runtime.{Env, Error, db_error, Outcome, ok, err, panic, World, M}

-- The tables as they were before BEGIN; everything else stays.
abbrev pub rollback : {D : Type 0} → D → World D → World D
rollback before w = record w { db = before; aborted = false; tick = w.tick + 1 }

module _ {D A : Type 0} where
  -- `tx.Commit()`, which fails in an aborted transaction. The deferred function stores its error in
  -- a local variable, after `return err` has set the result: the caller gets the body's result, and
  -- the tables are those before BEGIN.
  commit : Env → A → D → World D → Outcome A × World D
  commit e a before w =
      if w.aborted || e.fault w.tick
      then (ok a, rollback before w)
      else (ok a, record w { tick = w.tick + 1 })

  -- The deferred function: an error or a panic rolls back and goes on to the caller.
  close : Env → D → Outcome A × World D → Outcome A × World D
  unfolding commit
  close e before (ok a, w) = commit e a before w
  close e before (err x, w) = (err x, rollback before w)
  close e before (panic, w) = (panic, rollback before w)

  -- `runInTx`
  unfoldable pub run : Env → M D A → M D A
  unfolding close
  run e body w =
      if e.fault w.tick
      then (err db_error, record w { tick = w.tick + 1 })
      else close e w.db (body (record w { aborted = false; tick = w.tick + 1 }))

  -- A statement outside of a transaction (`FromContext` falls back to the pool).
  unfoldable pub autocommit : M D A → M D A
  autocommit m w =
      let (r, w') = m (record w { aborted = false }) in (r, record w' { aborted = false })
