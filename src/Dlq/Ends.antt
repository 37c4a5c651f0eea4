-- ===== src/Dlq/Ends.antt =====
-- The rules for the statements of `dead_message`.
use go_saga_outbox.Base.{
  ℕ, ◌+◌, ◌≡◌, refl, true, false, Option, none, some, find, ◌==◌, Bool-cases, Option-cases, inl,
  inr,
}
use go_saga_outbox.Runtime.{
  Uuid, Time, Error, db_error, dead_message_not_found, good, Env, World, M, ◌>>=◌,
}
use go_saga_outbox.Runtime.Ends.{Ends, Ends-pure}
use go_saga_outbox.Storage.{DeadMessage, Db}
use go_saga_outbox.Dlq.{replayable, find_by_id, mark_rows, mark_replayed}

pub replayable-good :
    (at : Option Time) (saga_id : Option Uuid)
    → replayable at saga_id ≡ good tt
    → (at ≡ none) × ((id : Uuid) × (saga_id ≡ some id))
replayable-good (some t) saga_id h = cc
replayable-good none none h = cc
replayable-good none (some id) h = (refl, (id, refl))

abbrev pub lookup_dead : {T : Type 0} → Uuid → Db T → Option DeadMessage
lookup_dead id db = find (λ row. row.id == id) db.dead_message

module _ {T B : Type 0} {X : Error → Type 0} {Q : B → Db T → Type 0} (e : Env)
    (faulty : (n : ℕ) → e.fault n ≡ true → X db_error) where
  pub Ends-find_by_id :
      (id : Uuid) (f : DeadMessage → M (Db T) B) (w : World (Db T))
      → w.aborted ≡ false
      → (lookup_dead id w.db ≡ none → X dead_message_not_found)
      → ((dm : DeadMessage)
          → lookup_dead id w.db ≡ some dm
          → Ends X Q (f dm (record w { aborted = false; tick = w.tick + 1 })))
      → Ends X Q ((find_by_id e id >>= f) w)
  unfolding find_by_id
  Ends-find_by_id id f w fine unknown known = elim (Bool-cases (e.fault w.tick)) [
    | inl struck ↦ simp (fine, struck) (record { holds = faulty w.tick struck })
    | inr passed ↦ elim (Option-cases (lookup_dead id w.db)) [
      | inl missing ↦ simp (fine, passed, missing) (record { holds = unknown missing })
      | inr (dm, there) ↦ simp (fine, passed, there) (known dm there)
    ]
  ]

module _ {T : Type 0} {X : Error → Type 0} {Q : Unit → Db T → Type 0} (e : Env)
    (faulty : (n : ℕ) → e.fault n ≡ true → X db_error) where
  pub Ends-mark_replayed_last :
      (id : Uuid) (at : Time) (w : World (Db T))
      → w.aborted ≡ false
      → Q tt (mark_rows id at w.db)
      → Ends X Q (mark_replayed e id at w)
  unfolding mark_replayed
  Ends-mark_replayed_last id at w fine done = elim (Bool-cases (e.fault w.tick)) [
    | inl struck ↦ simp (fine, struck) (record { holds = faulty w.tick struck })
    | inr passed ↦ simp (fine, passed) (Ends-pure tt _ refl done)
  ]
