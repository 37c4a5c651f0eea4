-- ===== src/Dlq/Wrapping.antt =====
-- What `Wrap` makes of each result of a handler, and the dead message that it writes.
use go_saga_outbox.Base.{
  ℕ, ◌≡◌, String, Bool, true, false, ◌⊎◌, none, some, ◌∷◌, any, ◌==◌, if◌then◌else◌,
}
use go_saga_outbox.Runtime.{
  Uuid, Time, Error, panicked, joined, Outcome, ok, err, panic, Codec, Env, World,
}
use go_saga_outbox.Storage.{DeadMessage, Db}
use go_saga_outbox.Kafka.{Headers, Message, Handler, get_saga_id_from_headers}
use go_saga_outbox.Dlq.{new_dead_message, same_message, or_nothing, or_nil}

-- Why the insert of a dead message left the tables as they were.
pub data Unwritten {T : Type 0} (e : Env) (msg : DeadMessage) (db : Db T) : Type 0 where
  struck : (n : ℕ) → e.fault n ≡ true → Unwritten e msg db
  noted_before : any (same_message msg) db.dead_message ≡ true → Unwritten e msg db
  id_taken : any (λ row. row.id == msg.id) db.dead_message ≡ true → Unwritten e msg db

module _ {T : Type 0} (e : Env) where
  -- The tables after the insert in a transaction of its own.
  abbrev pub Inserted : DeadMessage → Db T → Db T → Type 0
  Inserted msg d d' =
      (Unwritten e msg d × (d' ≡ d)) ⊎ (d' ≡ record d { dead_message = msg ∷ d.dead_message })

module _ {T : Type 0} (e : Env) (maps : Codec Headers) (consumer : String)
    (is_permanent : Error → Bool) (inner : Handler (Db T)) where
  -- The dead message of `writeDLQ`: the received bytes, the headers as a JSON object of texts as
  -- a JSONB column gives it back, and the saga's id where it is neither missing nor nil.
  abbrev pub dead_row : Message → Error → Time → Uuid → DeadMessage
  dead_row msg x at id =
      let saga_id = or_nil (get_saga_id_from_headers e msg) in
      new_dead_message id msg.message_id (if saga_id == 0 then none else some saga_id) msg.topic
        (e.error_text x) consumer msg.value (e.jsonb (or_nothing (maps.marshal msg.headers))) at

  -- An error that counts as permanent, with the dead message written or a reason why not.
  abbrev pub Buried : Message → Error → Db T → Outcome Unit × World (Db T) → Type 0
  Buried msg x d r =
      (r.0 ≡ err (joined x))
      × ((at : Time) × (id : Uuid) × Inserted e (dead_row msg x at id) d r.1.db)

  -- What `Wrap` returns and leaves, by what the handler returned and left.
  abbrev pub Wrapped : Message → Outcome Unit × World (Db T) → Outcome Unit × World (Db T) → Type 0
  Wrapped msg (ok done, w) r = r ≡ (ok done, w)
  Wrapped msg (err x, w) r =
      ((is_permanent x ≡ false) × (r ≡ (err x, w)))
      ⊎ ((is_permanent x ≡ true) × Buried msg x w.db r)
  Wrapped msg (panic, w) r = Buried msg panicked w.db r
