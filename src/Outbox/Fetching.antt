-- ===== src/Outbox/Fetching.antt =====
-- Which rows `FetchUnpublished` gives.
use go_saga_outbox.Base.{
  ℕ, ◌≡◌, ◌⊎◌, inl, inr, refl, Bool, true, false, not, ◌&&◌, Option, none, some, List, is_some,
  Answers, query-Answers, Bool-cases,
}
use go_saga_outbox.Runtime.{Uuid, ok, err, db_error, Env, World}
use go_saga_outbox.Storage.{Outbox, Db}
use go_saga_outbox.Outbox.{is_fetchable, fetch_unpublished}

-- A row that is not published and that no other transaction has locked.
abbrev pub IsWaiting : (Uuid → Bool) → Outbox → Type 0
IsWaiting locked row = (row.published_at ≡ none) × (locked row.id ≡ false)

not_some : (o : Option ℕ) (b : Bool) → (not (is_some o) && not b) ≡ true → (o ≡ none) × (b ≡ false)
not_some none true h = cc
not_some none false h = (refl, refl)
not_some (some at) true h = cc
not_some (some at) false h = cc

fetchable-IsWaiting :
    (locked : Uuid → Bool) (row : Outbox) → is_fetchable locked row ≡ true → IsWaiting locked row
fetchable-IsWaiting locked row h = not_some row.published_at (locked row.id) h

is_fetchable_lem :
    (locked : Uuid → Bool) (row : Outbox) → IsWaiting locked row → is_fetchable locked row ≡ true
is_fetchable_lem locked row (unpublished, free) = simp (unpublished, free) refl

-- FetchUnpublished, in a transaction that is not aborted, fails with a fault; or it changes no
-- table and gives the oldest rows, in their order, of all that are unpublished and that no other
-- transaction has locked: all of them, or as many as the limit says.
pub fetch_unpublished-lem :
    {T : Type 0} (e : Env) (limit : ℕ) (w : World (Db T))
    → w.aborted ≡ false
    → let r = fetch_unpublished e limit w in
      ((e.fault w.tick ≡ true) × (r.0 ≡ err db_error))
      ⊎ ((rows : List Outbox) × (r.0 ≡ ok rows)
          × (r.1.db ≡ w.db)
          × Answers (IsWaiting (e.locked w.tick)) (λ row. row.created_at) limit w.db.outbox rows)
unfolding fetch_unpublished
fetch_unpublished-lem e limit w fine = elim (Bool-cases (e.fault w.tick)) [
  | inl struck ↦ simp (fine, struck) (inl (refl, refl))
  | inr passed ↦
      let locked = e.locked w.tick in
      simp (fine, passed)
        (inr (
          _,
          refl,
          refl,
          query-Answers (IsWaiting locked) (is_fetchable locked) (λ row. row.created_at) limit
              w.db.outbox (fetchable-IsWaiting locked) (is_fetchable_lem locked),
        ))
]
