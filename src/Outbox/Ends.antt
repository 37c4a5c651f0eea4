-- ===== src/Outbox/Ends.antt =====
-- The rules for `NewOutbox` and `Append`.
use go_saga_outbox.Base.{
  String, ℕ, ◌+◌, ◌≡◌, refl, true, false, none, ◌∷◌, any, Bool-cases, inl, inr,
}
use go_saga_outbox.Runtime.{
  Uuid, Time, Bytes, Error, db_error, good, bad, Codec, Env, World, M, ◌>>=◌,
}
use go_saga_outbox.Runtime.Ends.{Ends, Ends-pure, Ends-tail, Result-cases}
use go_saga_outbox.Storage.{Outbox, Db}
use go_saga_outbox.Contracts.{MessageHeaders}
use go_saga_outbox.Outbox.{new_outbox, has_id, append}

module _ {T B : Type 0} {X : Error → Type 0} {Q : B → Db T → Type 0} where
  pub Ends-append :
      (e : Env) (msg : Outbox) (f : Unit → M (Db T) B) (w : World (Db T))
      → w.aborted ≡ false
      → ((n : ℕ) → e.fault n ≡ true → X db_error)
      → (any (has_id msg.id) w.db.outbox ≡ true → X db_error)
      → Ends X Q (
          f tt (record w {
            db = record w.db { outbox = record msg { published_at = none } ∷ w.db.outbox };
            aborted = false;
            tick = w.tick + 1;
          }))
      → Ends X Q ((append e msg >>= f) w)
  unfolding append
  Ends-append e msg f w fine faulty taken done = elim (Bool-cases (e.fault w.tick)) [
    | inl struck ↦ simp (fine, struck) (record { holds = faulty w.tick struck })
    | inr passed ↦ elim (Bool-cases (any (has_id msg.id) w.db.outbox)) [
      | inl clash ↦ simp (fine, passed, clash) (record { holds = taken clash })
      | inr free ↦ simp (fine, passed, free) done
    ]
  ]

module _ {T B P : Type 0} {X : Error → Type 0} {Q : B → Db T → Type 0} where
  pub Ends-new_outbox :
      (payloads : Codec P) (headings : Codec MessageHeaders) (id aggregate_id saga_id : Uuid)
      (aggregate_type topic : String) (payload : P) (headers : MessageHeaders) (now : Time)
      (f : Outbox → M (Db T) B) (w : World (Db T))
      → ((x : Error) → payloads.marshal payload ≡ bad x → X x)
      → ((x : Error) → headings.marshal headers ≡ bad x → X x)
      → ((p h : Bytes)
          → payloads.marshal payload ≡ good p
          → headings.marshal headers ≡ good h
          → Ends X Q (
              f
                (record {
                  id = id;
                  aggregate_type = aggregate_type;
                  aggregate_id = aggregate_id;
                  topic = topic;
                  key = saga_id;
                  payload = p;
                  headers = h;
                  created_at = now;
                  published_at = none;
                })
                w))
      → Ends X Q (
          (new_outbox payloads headings id aggregate_id saga_id aggregate_type topic payload headers
                now
              >>= f)
            w)
  Ends-new_outbox payloads headings id aggregate_id saga_id aggregate_type topic payload headers now
        f w failure failure' done =
      elim (Result-cases (payloads.marshal payload)) [
        | inl (x, b) ↦ simp b (record { holds = failure x b })
        | inr (p, a) ↦ elim (Result-cases (headings.marshal headers)) [
          | inl (x, b) ↦ simp (a, b) (record { holds = failure' x b })
          | inr (h, b) ↦ simp (a, b) (done p h a b)
        ]
      ]

module _ {T : Type 0} {X : Error → Type 0} {Q : Unit → Db T → Type 0} where
  pub Ends-append_last :
      (e : Env) (msg : Outbox) (w : World (Db T))
      → w.aborted ≡ false
      → ((n : ℕ) → e.fault n ≡ true → X db_error)
      → (any (has_id msg.id) w.db.outbox ≡ true → X db_error)
      → Q tt (record w.db { outbox = record msg { published_at = none } ∷ w.db.outbox })
      → Ends X Q (append e msg w)
  Ends-append_last e msg w fine faulty taken done =
      Ends-tail (append e msg) w
        (Ends-append e msg _ w fine faulty taken (Ends-pure tt _ refl done))
