-- ===== src/Relay/Batch.antt =====
-- What a batch of the relay sends and marks.
use go_saga_outbox.Base.{
  ℕ, ◌+◌, ◌≡◌, refl, sym, ◌∙◌, true, false, ◌⊎◌, inl, inr, ap, List, [], ◌∷◌, update, take, sort_by,
  select, Bool-cases,
}
use go_saga_outbox.Runtime.{
  bad, Error, Uuid, Time, db_error, good, Outcome, ok, err, Codec, Env, Record, World,
}
use go_saga_outbox.Runtime.Ends.{Result-cases}
use go_saga_outbox.Storage.{Outbox, Db}
use go_saga_outbox.Contracts.{MessageHeaders}
use go_saga_outbox.Outbox.{is_fetchable, fetch_unpublished, mark_published, is_listed, publish_at}
use go_saga_outbox.Trx.{run}
use go_saga_outbox.Trx.Ends.{Lost}
use go_saga_outbox.Trx.Atomic.{run-err, run-ok}
use go_saga_outbox.Relay.{record_of, publish_all, mark_all, batch, process_batch}

-- `Taken e headings rows taken`: the rows that were sent, in the order of `rows`, with their
-- headers; a row is left out only where its headers do not decode or a call fails.
pub data Taken (e : Env) (headings : Codec MessageHeaders)
    : List Outbox → List (Outbox × MessageHeaders) → Type 0 where
  none_left : Taken e headings [] []
  undecoded :
      {row : Outbox} {rows : List Outbox} {taken : List (Outbox × MessageHeaders)} (x : Error)
      → headings.unmarshal row.headers ≡ bad x
      → Taken e headings rows taken
      → Taken e headings (row ∷ rows) taken
  unsent :
      {row : Outbox} {rows : List Outbox} {taken : List (Outbox × MessageHeaders)} (n : ℕ)
      → e.fault n ≡ true
      → Taken e headings rows taken
      → Taken e headings (row ∷ rows) taken
  sent :
      {row : Outbox} {hdr : MessageHeaders} {rows : List Outbox}
      {taken : List (Outbox × MessageHeaders)}
      → headings.unmarshal row.headers ≡ good hdr
      → Taken e headings rows taken
      → Taken e headings (row ∷ rows) ((row, hdr) ∷ taken)

-- What is in Kafka after these messages, the latest first.
abbrev pub sent_after : Env → List (Outbox × MessageHeaders) → List Record → List Record
sent_after e [] before = before
sent_after e ((row, hdr) ∷ rest) before = sent_after e rest (record_of e row hdr ∷ before)

abbrev pub ids_of : List (Outbox × MessageHeaders) → List Uuid
ids_of [] = []
ids_of ((row, hdr) ∷ rest) = row.id ∷ ids_of rest

module _ {T : Type 0} (e : Env) (headings : Codec MessageHeaders) where
  -- What the loop does: no table changes.
  record Looped (rows : List Outbox) (w : World (Db T)) (r : Outcome (List Uuid) × World (Db T))
      : Type 0 where
    taken : List (Outbox × MessageHeaders)
    metrics_tick : ℕ
    picked : Taken e headings rows taken
    ends :
        r ≡ (ok (ids_of taken), record w { sent = sent_after e taken w.sent; tick = metrics_tick })

  publish_all-Looped :
      (rows : List Outbox) (w : World (Db T)) → Looped rows w (publish_all e headings rows w)
  unfolding publish_all
  publish_all-Looped [] w = record {
    taken = [];
    metrics_tick = w.tick;
    picked = none_left;
    ends = refl;
  }
  publish_all-Looped (row ∷ rows) w = elim (Result-cases (headings.unmarshal row.headers)) [
    | inl (x, h) ↦
        let rest = publish_all-Looped rows w in
        record {
          taken = rest.taken;
          metrics_tick = rest.metrics_tick;
          picked = undecoded x h rest.picked;
          ends = simp (h, rest.ends);
        }
    | inr (hdr, h) ↦ elim (Bool-cases (e.fault w.tick)) [
      | inl struck ↦
          let rest = publish_all-Looped rows (record w { tick = w.tick + 1 }) in
          record {
            taken = rest.taken;
            metrics_tick = rest.metrics_tick;
            picked = unsent w.tick struck rest.picked;
            ends = simp (h, struck, rest.ends);
          }
      | inr passed ↦
          let rest =
            publish_all-Looped rows
              (record w { sent = record_of e row hdr ∷ w.sent; tick = w.tick + 1 }) in
          record {
            taken = (row, hdr) ∷ rest.taken;
            metrics_tick = rest.metrics_tick;
            picked = sent h rest.picked;
            ends = simp (h, passed, rest.ends);
          }
    ]
  ]

update_none : (at : Time) (rows : List Outbox) → update (is_listed []) (publish_at at) rows ≡ rows
update_none at [] = refl
update_none at (row ∷ rows) = ap (λ rest. row ∷ rest) (update_none at rows)

abbrev pub marked : {T : Type 0} → Time → List (Outbox × MessageHeaders) → Db T → Db T
marked at taken d = record d { outbox = update (is_listed (ids_of taken)) (publish_at at) d.outbox }

module _ {T : Type 0} (e : Env) (headings : Codec MessageHeaders) where
  mark_all-ends :
      (taken : List (Outbox × MessageHeaders)) (w : World (Db T))
      → w.aborted ≡ false
      → let r = mark_all e (ids_of taken) w in
        (r.1.sent ≡ w.sent)
        × (((r.0 ≡ err db_error) × ((n : ℕ) × (e.fault n ≡ true)))
            ⊎ ((r.0 ≡ ok tt)
                × (r.1.aborted ≡ false)
                × ((at : Time) × (r.1.db ≡ marked at taken w.db))))
  unfolding mark_all mark_published
  mark_all-ends [] w fine = (
    refl,
    inr (
      refl,
      fine,
      (0, ap (λ rows. record w.db { outbox = rows }) (sym (update_none 0 w.db.outbox))),
    ),
  )
  mark_all-ends ((row, hdr) ∷ rest) w fine = elim (Bool-cases (e.fault (w.tick + 1))) [
    | inl struck ↦ simp (fine, struck) (refl, inl (refl, (w.tick + 1, struck)))
    | inr passed ↦ simp (fine, passed) (refl, inr (refl, refl, (e.now w.tick, refl)))
  ]

  -- A batch that began: it sent `taken`, and marked exactly these rows, or nothing.
  pub record Batched (limit : ℕ) (w : World (Db T)) (r : Outcome Unit × World (Db T)) : Type 0 where
    pub k : ℕ
    pub taken : List (Outbox × MessageHeaders)
    pub picked :
        Taken e headings
          (take limit
            (sort_by (λ row. row.created_at) (select (is_fetchable (e.locked k)) w.db.outbox)))
          taken
    pub produced : r.1.sent ≡ sent_after e taken w.sent
    pub tables :
        ((r.0 ≡ err db_error) × (r.1.db ≡ w.db) × ((n : ℕ) × (e.fault n ≡ true)))
        ⊎ ((r.0 ≡ ok tt) × ((at : Time) × (r.1.db ≡ marked at taken w.db)))
        ⊎ ((r.0 ≡ ok tt) × Lost e w.db r.1.db)

  -- A batch that did nothing, since its transaction did not begin or the rows were not read.
  pub record Unstarted (w : World (Db T)) (r : Outcome Unit × World (Db T)) : Type 0 where
    pub struck : (n : ℕ) × (e.fault n ≡ true)
    pub failed : r.0 ≡ err db_error
    pub kept : r.1.db ≡ w.db
    pub silent : r.1.sent ≡ w.sent

  process_batch-begun :
      (limit : ℕ) (w : World (Db T))
      → e.fault w.tick ≡ false
      → e.fault (w.tick + 1) ≡ false
      → Batched limit w (process_batch e headings limit w)
  unfolding process_batch fetch_unpublished
  process_batch-begun limit w a b =
      let rows = take limit (
        sort_by (λ row. row.created_at)
          (select (is_fetchable (e.locked (w.tick + 1))) w.db.outbox)) in
      let w1 = record w { aborted = false; tick = w.tick + 1 } in
      let loop = publish_all-Looped e headings rows (record w1 { tick = w.tick + 1 + 1 }) in
      let w2 = record w1 { sent = sent_after e loop.taken w.sent; tick = loop.metrics_tick } in
      let r = mark_all e (ids_of loop.taken) w2 in
      let (silent, marking) = mark_all-ends loop.taken w2 refl in
      let whole : batch e headings limit w1 ≡ r = simp (b, loop.ends) in
      elim marking [
        | inl (failed, fault) ↦
            rw
              (run-err e (batch e headings limit) w r.1 db_error a
                (whole ∙ ap (λ x. (x, r.1)) failed))
              (record {
                k = w.tick + 1;
                taken = loop.taken;
                picked = loop.picked;
                produced = silent;
                tables = inl (refl, refl, fault);
              })
        | inr (done, fine, (at, tables)) ↦
            elim (run-ok e (batch e headings limit) w r.1 tt a fine
              (whole ∙ ap (λ x. (x, r.1)) done)) [
                | inl kept ↦ rw kept (record {
                  k = w.tick + 1;
                  taken = loop.taken;
                  picked = loop.picked;
                  produced = silent;
                  tables = inr (inl (refl, (at, tables)));
                })
                | inr (lost, struck) ↦ rw lost (record {
                  k = w.tick + 1;
                  taken = loop.taken;
                  picked = loop.picked;
                  produced = silent;
                  tables = inr (inr (refl, (r.1.tick, struck, refl)));
                })
              ]
      ]

  pub process_batch-Batched :
      (limit : ℕ) (w : World (Db T))
      → Unstarted w (process_batch e headings limit w)
        ⊎ Batched limit w (process_batch e headings limit w)
  unfolding process_batch fetch_unpublished run
  process_batch-Batched limit w = elim (Bool-cases (e.fault w.tick)) [
    | inl a ↦
        simp a (inl (record { struck = (w.tick, a); failed = refl; kept = refl; silent = refl }))
    | inr a ↦ elim (Bool-cases (e.fault (w.tick + 1))) [
      | inl b ↦
          simp (a, b)
            (inl (record { struck = (w.tick + 1, b); failed = refl; kept = refl; silent = refl }))
      | inr b ↦ inr (process_batch-begun limit w a b)
    ]
  ]
