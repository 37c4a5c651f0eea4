-- ===== src/Inbox/Ends.antt =====
-- The rule for `dedup`: a message that was seen changes no table, a new one gets its row.
use go_saga_outbox.Base.{ℕ, ◌+◌, String, ◌≡◌, Bool, true, false, ◌∷◌, Bool-cases, inl, inr}
use go_saga_outbox.Runtime.{Uuid, Time, Error, db_error, Env, World, M, ◌>>=◌}
use go_saga_outbox.Runtime.Ends.{Ends}
use go_saga_outbox.Storage.{new_inbox, Db}
use go_saga_outbox.Inbox.{seen, count_duplicate, dedup}

-- A call that succeeds and changes no table: the message had been seen, or the commit failed, which
-- the caller is not told.
pub data Unwritten {T : Type 0} (e : Env) (consumer : String) (message_id : Uuid) (d d' : Db T)
    : Type 0 where
  repeated : seen message_id consumer d ≡ true → d' ≡ d → Unwritten e consumer message_id d d'
  lost : (n : ℕ) → e.fault n ≡ true → d' ≡ d → Unwritten e consumer message_id d d'

pub unchanged :
    {T : Type 0} {e : Env} {consumer : String} {message_id : Uuid} {d d' : Db T}
    → Unwritten e consumer message_id d d'
    → d' ≡ d
unchanged (repeated dup same) = same
unchanged (lost n struck same) = same

module _ {T B : Type 0} {X : Error → Type 0} {Q : B → Db T → Type 0} where
  pub Ends-dedup :
      (e : Env) (message_id : Uuid) (consumer : String) (at : Time) (f : Bool → M (Db T) B)
      (w : World (Db T))
      → w.aborted ≡ false
      → ((n : ℕ) → e.fault n ≡ true → X db_error)
      → (seen message_id consumer w.db ≡ true
          → Ends X Q (
              f false (record w {
                aborted = false;
                tick = w.tick + 1;
                metrics = count_duplicate consumer w.metrics;
              })))
      → (seen message_id consumer w.db ≡ false
          → Ends X Q (
              f true (record w {
                db = record w.db { inbox = new_inbox message_id consumer at ∷ w.db.inbox };
                aborted = false;
                tick = w.tick + 1;
              })))
      → Ends X Q ((dedup e message_id consumer at >>= f) w)
  unfolding dedup
  Ends-dedup e message_id consumer at f w fine faulty old new = elim (Bool-cases (e.fault w.tick)) [
    | inl struck ↦ simp (fine, struck) (record { holds = faulty w.tick struck })
    | inr passed ↦ elim (Bool-cases (seen message_id consumer w.db)) [
      | inl dup ↦ simp (fine, passed, dup) (old dup)
      | inr first ↦ simp (fine, passed, first) (new first)
    ]
  ]
