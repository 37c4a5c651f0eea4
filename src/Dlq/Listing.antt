-- ===== src/Dlq/Listing.antt =====
-- What `ListUnreplayed` gives.
use go_saga_outbox.Base.{
  ℕ, ◌≡◌, refl, ◌⊎◌, inl, inr, true, false, not, Option, none, some, List, is_some, Bool-cases,
  Answers, query-Answers,
}
use go_saga_outbox.Runtime.{ok, err, db_error, Env, World}
use go_saga_outbox.Storage.{DeadMessage, Db}
use go_saga_outbox.Dlq.{unreplayed, list_unreplayed}

absent : {A : Type 0} (o : Option A) → not (is_some o) ≡ true → o ≡ none
absent none h = refl
absent (some a) h = cc

unreplayed_is_none : {A : Type 0} (o : Option A) → o ≡ none → not (is_some o) ≡ true
unreplayed_is_none o h = rw h refl

-- ListUnreplayed, in a transaction that is not aborted, fails where the statement fails; or it
-- changes no table and gives the oldest dead messages, in their order, of all that were not
-- replayed: all of them, or as many as the limit says.
pub list_unreplayed_lem :
    {T : Type 0} (e : Env) (limit : ℕ) (w : World (Db T))
    → w.aborted ≡ false
    → let r = list_unreplayed e limit w in
      ((e.fault w.tick ≡ true) × (r.0 ≡ err db_error))
      ⊎ ((rows : List DeadMessage) × (r.0 ≡ ok rows)
          × (r.1.db ≡ w.db)
          × Answers
              (λ row. row.replayed_at ≡ none)
              (λ row. row.created_at)
              limit
              w.db.dead_message
              rows)
unfolding list_unreplayed
list_unreplayed_lem e limit w fine = elim (Bool-cases (e.fault w.tick)) [
  | inl s ↦ simp (fine, s) (inl (refl, refl))
  | inr s ↦
      simp (fine, s)
        (inr (
          unreplayed limit w.db,
          refl,
          refl,
          query-Answers (λ row. row.replayed_at ≡ none) (λ row. not (is_some row.replayed_at))
              (λ row. row.created_at) limit w.db.dead_message (λ row h. absent row.replayed_at h)
              (λ row h. unreplayed_is_none row.replayed_at h),
        ))
]
