-- ===== src/Handling/Ends.antt =====
-- The rules for `once` and `emit`.
use go_saga_outbox.Base.{ℕ, ◌+◌, String, ◌≡◌, refl, true, false, none, some, ◌∷◌, any}
use go_saga_outbox.Runtime.{
  Uuid, Time, Bytes, Error, db_error, good, bad, Codec, Env, World, M, Outcome, ok, err, panic,
}
use go_saga_outbox.Runtime.Ends.{Ends, Ends-pure}
use go_saga_outbox.Trx.Ends.{Ends-run}
use go_saga_outbox.Trx.Atomic.{KeptOrDone, run-KeptOrDone}
use go_saga_outbox.Storage.{new_inbox, Outbox, Db}
use go_saga_outbox.Contracts.{MessageHeaders, new_message_headers}
use go_saga_outbox.Inbox.{seen}
use go_saga_outbox.Inbox.Ends.{Ends-dedup}
use go_saga_outbox.Outbox.{has_id}
use go_saga_outbox.Outbox.Ends.{Ends-new_outbox, Ends-append_last}
use go_saga_outbox.Kafka.{Message}
use go_saga_outbox.Handling.{unless_seen, once, emit}

-- The outbox row of an event.
abbrev pub event_row : String → String → Uuid → Uuid → Uuid → Bytes → Bytes → Time → Outbox
event_row aggregate_type topic id aggregate_id saga_id payload headers at = record {
  id = id;
  aggregate_type = aggregate_type;
  aggregate_id = aggregate_id;
  topic = topic;
  key = saga_id;
  payload = payload;
  headers = headers;
  created_at = at;
  published_at = none;
}

module _ {T : Type 0} {X : Error → Type 0} {Q : Unit → Db T → Type 0} (e : Env)
    (faulty : (n : ℕ) → e.fault n ≡ true → X db_error) where
  pub Ends-once :
      (consumer : String) (msg : Message) (body : M (Db T) Unit) (w : World (Db T))
      → (seen msg.message_id consumer w.db ≡ true → Q tt w.db)
      → ((n : ℕ) → e.fault n ≡ true → Q tt w.db)
      → ((at : Time) (k : ℕ)
          → Ends X Q (
              body (record w {
                db = record w.db { inbox = new_inbox msg.message_id consumer at ∷ w.db.inbox };
                aborted = false;
                tick = k;
              })))
      → Ends X Q (once e consumer msg body w)
  unfolding once unless_seen
  Ends-once consumer msg body w old lost new =
      Ends-run e (unless_seen e consumer msg body) w faulty (λ _ n h. lost n h)
        (Ends-dedup e msg.message_id consumer (e.now (w.tick + 1)) _ _ refl faulty
          (λ dup. Ends-pure tt _ refl (old dup)) (λ first. new (e.now (w.tick + 1)) _))

  pub Ends-emit_last :
      {P : Type 0} (headings : Codec MessageHeaders) (codec : Codec P)
      (aggregate_type topic : String) (aggregate_id saga_id : Uuid) (event_type : String)
      (payload : P) (cause : Uuid) (w : World (Db T))
      → w.aborted ≡ false
      → ((n : ℕ) → any (has_id (e.fresh n)) w.db.outbox ≡ true → X db_error)
      → ((x : Error) → codec.marshal payload ≡ bad x → X x)
      → ((x : Error) (h : MessageHeaders) → headings.marshal h ≡ bad x → X x)
      → ((event_id : Uuid) (at : Time) (p h : Bytes)
          → codec.marshal payload ≡ good p
          → headings.marshal (new_message_headers event_id saga_id (some cause) event_type) ≡ good h
          → Q tt (record w.db {
            outbox =
                event_row aggregate_type topic event_id aggregate_id saga_id p h at ∷ w.db.outbox;
          }))
      → Ends X Q (
          emit e headings codec aggregate_type topic aggregate_id saga_id event_type payload cause
            w)
  unfolding emit
  Ends-emit_last headings codec aggregate_type topic aggregate_id saga_id event_type payload cause w
        fine taken bad_p bad_h done =
      Ends-new_outbox codec headings _ aggregate_id saga_id aggregate_type topic payload _ _ _ _
        bad_p (λ x b. bad_h x _ b)
        λ p h payload_json headers_json.
          Ends-append_last e
            (event_row aggregate_type topic (e.fresh w.tick) aggregate_id saga_id p h
              (e.now (w.tick + 1)))
            _ fine faulty (taken _) (done _ _ p h payload_json headers_json)

-- Whatever the body does, an error or a panic leaves the tables as they were.
pub once-KeptOrDone :
    {T : Type 0} (e : Env) (consumer : String) (msg : Message) (body : M (Db T) Unit)
    (w : World (Db T))
    → KeptOrDone w (once e consumer msg body w)
unfolding once
once-KeptOrDone e consumer msg body w = run-KeptOrDone e (unless_seen e consumer msg body) w

-- What the tables meet before a call they meet after it, when a result keeps it.
pub invariant :
    {D : Type 0} {X : Error → Type 0} {Q : Unit → D → Type 0} (P : D → Type 0) (w : World D)
    (r : Outcome Unit × World D)
    → Ends X Q r
    → KeptOrDone w r
    → ((d' : D) → Q tt d' → P w.db → P d')
    → P w.db
    → P r.1.db
invariant P w (ok done, w') h k keeps p = keeps w'.db h.holds.1 p
invariant P w (err x, w') h k keeps p = rw k p
invariant P w (panic, w') h k keeps p = absurd h.holds
