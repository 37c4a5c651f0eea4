-- ===== src/Relay/Draining.antt =====
-- Where nothing fails, the relay comes to an end with the outbox.
use go_saga_outbox.Base.{
  ℕ, zero, suc, ◌≤◌, ◌<◌, ◌≡◌, refl, sym, ap, ◌∙◌, ◌⊎◌, inl, inr, Bool, true, false, List, [], ◌∷◌,
  select, length, take, sort_by, All, is_some, ==_refl, Bool-cases, arith, All-take, All-sort_by,
  query-cases,
}
use go_saga_outbox.Runtime.{Uuid, Time, Error, Outcome, ok, good, bad, Codec, Env, World}
use go_saga_outbox.Storage.{Outbox, Db}
use go_saga_outbox.Contracts.{MessageHeaders}
use go_saga_outbox.Outbox.{is_fetchable, is_listed}
use go_saga_outbox.Relay.{process_batch, run_ticks}
use go_saga_outbox.Relay.Batch.{
  Taken, undecoded, unsent, sent, ids_of, marked, process_batch-Batched,
}
use go_saga_outbox.Relay.Waiting.{
  is_waiting, waiting, Readable, waiting-update_le, waiting-update_lt, Readable-update, IsThere,
  All-IsThere, IsThere-listed,
}

bad-good : {A : Type 0} (x : Error) (a : A) → bad x ≡ good a → ⊥
bad-good x a h = cc

false-true : false ≡ true → ⊥
false-true h = cc

All-Readable :
    (headings : Codec MessageHeaders) (p : Outbox → Bool) (rows : List Outbox)
    → Readable headings rows
    → Readable headings (select p rows)
All-Readable headings p [] h = tt
All-Readable headings p (row ∷ rows) (h, hs) = elim (Bool-cases (p row)) [
  | inl yeah ↦ simp yeah (h, All-Readable headings p rows hs)
  | inr nope ↦ simp nope (All-Readable headings p rows hs)
]

select-fetchable :
    (locked : Uuid → Bool) (rows : List Outbox)
    → ((id : Uuid) → locked id ≡ false)
    → select (is_fetchable locked) rows ≡ select is_waiting rows
select-fetchable locked [] none_locked = refl
select-fetchable locked (row ∷ rows) none_locked =
    let rest = select-fetchable locked rows none_locked in
    elim (Bool-cases (is_some row.published_at)) [
      | inl done ↦ simp (done, rest)
      | inr waits ↦ simp (waits, none_locked row.id, rest)
    ]

module _ (e : Env) (headings : Codec MessageHeaders) (calm : (n : ℕ) → e.fault n ≡ false) where
  -- The first of the readable rows is sent.
  first-listed :
      (row : Outbox) (rows : List Outbox) (taken : List (Outbox × MessageHeaders))
      (hdr : MessageHeaders)
      → headings.unmarshal row.headers ≡ good hdr
      → Taken e headings (row ∷ rows) taken
      → is_listed (ids_of taken) row ≡ true
  first-listed row rows taken hdr readable (undecoded x b rest) =
      absurd (bad-good x hdr (sym b ∙ readable))
  first-listed row rows taken hdr readable (unsent n struck rest) =
      absurd (false-true (sym (calm n) ∙ struck))
  first-listed row rows _ hdr readable (sent decoded rest) = simp (==_refl row.id)

  -- What a batch leaves to do.
  record Progress {T : Type 0} (d : Db T) (r : Outcome Unit × World (Db T)) : Type 0 where
    done : r.0 ≡ ok tt
    readable : Readable headings r.1.db.outbox
    fewer :
        (waiting d.outbox ≡ 0) × (waiting r.1.db.outbox ≡ 0)
        ⊎ (waiting r.1.db.outbox < waiting d.outbox)

  module _ {T : Type 0} (unlocked : (n : ℕ) (id : Uuid) → e.locked n id ≡ false) where
    marked-fewer :
        (limit k : ℕ) (at : Time) (d : Db T) (taken : List (Outbox × MessageHeaders))
        → Readable headings d.outbox
        → Taken e headings
            (take
              (suc limit)
              (sort_by (λ row. row.created_at) (select (is_fetchable (e.locked k)) d.outbox)))
            taken
        → (waiting d.outbox ≡ 0) × (waiting (marked at taken d).outbox ≡ 0)
          ⊎ (waiting (marked at taken d).outbox < waiting d.outbox)
    marked-fewer limit k at d taken readable picked =
        let key = λ (row : Outbox). row.created_at in
        let rows = select is_waiting d.outbox in
        let free = select-fetchable (e.locked k) d.outbox (unlocked k) in
        let all_there : All (IsThere d.outbox) (take (suc limit) (sort_by key rows)) =
          All-take _ (suc limit) _ (All-sort_by _ key rows (All-IsThere d.outbox)) in
        let all_readable : Readable headings (take (suc limit) (sort_by key rows)) =
          All-take _ (suc limit) _
            (All-sort_by _ key rows (All-Readable headings is_waiting d.outbox readable)) in
        let picked' : Taken e headings (take (suc limit) (sort_by key rows)) taken =
          rw free at picked in
        elim (query-cases key limit rows) [
          | inl empty ↦
              let le = waiting-update_le (is_listed (ids_of taken)) at d.outbox in
              let zero_there : waiting d.outbox ≡ 0 = ap length empty in
              inl (zero_there, omega arith)
          | inr (h, t, first) ↦
              let there = rw first at all_there in
              let reads = rw first at all_readable in
              let sends = rw first at picked' in
              inr (
                waiting-update_lt (is_listed (ids_of taken)) at d.outbox (
                  IsThere-listed (ids_of taken) d.outbox h there.0
                    (first-listed h t taken reads.0.0 reads.0.1 sends)))
        ]

    batch-Progress :
        (limit : ℕ) (w : World (Db T))
        → Readable headings w.db.outbox
        → Progress w.db (process_batch e headings (suc limit) w)
    batch-Progress limit w readable = elim (process_batch-Batched e headings (suc limit) w) [
      | inl u ↦ absurd (false-true (sym (calm u.struck.0) ∙ u.struck.1))
      | inr b ↦ elim b.tables [
        | inl (failed, kept, (n, struck)) ↦ absurd (false-true (sym (calm n) ∙ struck))
        | inr (inr (done, (n, struck, same))) ↦ absurd (false-true (sym (calm n) ∙ struck))
        | inr (inl (done, (at, tables))) ↦ record {
          done = done;
          readable =
              rw tables
                (Readable-update (is_listed (ids_of b.taken)) at headings w.db.outbox readable);
          fewer = rw tables (marked-fewer limit b.k at w.db b.taken readable b.picked);
        }
      ]
    ]

    -- Where no call fails, no row is locked and the headers of every row decode, the relay comes to
    -- an end with the outbox: after as many ticks as there are unpublished rows, or more, with any
    -- batch size but 0, none is unpublished, and the ticks have not failed.
    pub run_ticks-drains :
        (limit n : ℕ) (w : World (Db T))
        → Readable headings w.db.outbox
        → waiting w.db.outbox ≤ n
        → let r = run_ticks e headings (suc limit) n w in
          (r.0 ≡ ok tt) × (waiting r.1.db.outbox ≡ 0)
    unfolding run_ticks
    run_ticks-drains limit zero w readable enough = (refl, omega arith)
    run_ticks-drains limit (suc n) w readable enough =
        let p = batch-Progress limit w readable in
        let left : waiting (process_batch e headings (suc limit) w).1.db.outbox ≤ n =
          remaining p.fewer in
        rw p.done
          (run_ticks-drains limit n (process_batch e headings (suc limit) w).1 p.readable left)
      where
        remaining :
            {k : ℕ} → (waiting w.db.outbox ≡ 0) × (k ≡ 0) ⊎ (k < waiting w.db.outbox) → k ≤ n
        remaining (inl (z, k0)) = omega arith
        remaining (inr lt) = omega arith
