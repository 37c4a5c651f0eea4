-- ===== src/Relay/Waiting.antt =====
-- Counting the rows that the relay has still to send.
use go_saga_outbox.Base.{
  ℕ, ◌≤◌, ◌<◌, ◌≡◌, refl, ap, ◌∙◌, inl, inr, Bool, true, false, not, ◌&&◌, ◌||◌, List, [], ◌∷◌, any,
  select, update, length, All, is_some, ◌==◌, ==_iff, ==_refl, if◌then◌else◌, Bool-cases, arith,
  All-weaken,
}
use go_saga_outbox.Runtime.{Uuid, Time, good, Codec}
use go_saga_outbox.Storage.{Outbox}
use go_saga_outbox.Contracts.{MessageHeaders}
use go_saga_outbox.Outbox.{is_listed, publish_at}

abbrev pub is_waiting : Outbox → Bool
is_waiting row = not (is_some row.published_at)

-- How many rows have still to be sent.
abbrev pub waiting : List Outbox → ℕ
waiting rows = length (select is_waiting rows)

-- The relay can read the headers of each row.
abbrev pub Readable : Codec MessageHeaders → List Outbox → Type 0
Readable headings rows =
    All (λ row. (h : MessageHeaders) × (headings.unmarshal row.headers ≡ good h)) rows

module _ (p : Outbox → Bool) (at : Time) where
  pub waiting-update_le :
      (rows : List Outbox) → waiting (update p (publish_at at) rows) ≤ waiting rows
  waiting-update_le [] = omega arith
  waiting-update_le (row ∷ rows) =
      let rest = waiting-update_le rows in
      elim (Bool-cases (p row)) [
        | inl yeah ↦ simp yeah (ground arith)
        | inr nope ↦ simp nope (ground arith)
      ]

  -- A waiting row that is published waits no more.
  pub waiting-update_lt :
      (rows : List Outbox)
      → any (λ row. is_waiting row && p row) rows ≡ true
      → waiting (update p (publish_at at) rows) < waiting rows
  waiting-update_lt [] h = cc
  waiting-update_lt (row ∷ rows) h = elim (Bool-cases (is_waiting row && p row)) [
    | inl both ↦
        let rest = waiting-update_le rows in
        let own : p row ≡ true = ground arith in
        let waits : is_waiting row ≡ true = ground arith in simp (own, waits) (omega arith)
    | inr other ↦
        let rest = waiting-update_lt rows (simp other at h) in
        elim (Bool-cases (p row)) [
          | inl yeah ↦ simp yeah (ground arith)
          | inr nope ↦ simp nope (ground arith)
        ]
  ]

  pub Readable-update :
      (headings : Codec MessageHeaders) (rows : List Outbox)
      → Readable headings rows
      → Readable headings (update p (publish_at at) rows)
  Readable-update headings [] h = tt
  Readable-update headings (row ∷ rows) (h, hs) = (here (p row), Readable-update headings rows hs)
    where
      here :
          (b : Bool)
          → (hdr : MessageHeaders) × (headings.unmarshal
                (if b then publish_at at row else row).headers
              ≡ good hdr)
      here true = h
      here false = h

-- A row of the table with this id waits.
abbrev pub IsThere : List Outbox → Outbox → Type 0
IsThere rows r = any (λ row. is_waiting row && row.id == r.id) rows ≡ true

any-weaken :
    (p q : Outbox → Bool) (rows : List Outbox)
    → ((r : Outbox) → p r ≡ true → q r ≡ true)
    → any p rows ≡ true
    → any q rows ≡ true
any-weaken p q [] f h = h
any-weaken p q (row ∷ rows) f h = elim (Bool-cases (p row)) [
  | inl yeah ↦ simp (f row yeah)
  | inr nope ↦ later (any-weaken p q rows f (simp nope at h))
]
  where
    later : any q rows ≡ true → (q row || any q rows) ≡ true
    later g = ground arith

-- The rows that a query selects are in the table.
pub All-IsThere : (rows : List Outbox) → All (IsThere rows) (select is_waiting rows)
All-IsThere [] = tt
All-IsThere (row ∷ rows) =
    let rest =
      All-weaken (IsThere rows) (IsThere (row ∷ rows)) (select is_waiting rows) older
        (All-IsThere rows) in
    elim (Bool-cases (is_waiting row)) [
      | inl yeah ↦ simp yeah (simp (==_refl row.id) refl, rest)
      | inr nope ↦ simp nope rest
    ]
  where
    older : (r : Outbox) → IsThere rows r → IsThere (row ∷ rows) r
    older r h = ground arith

-- What is published by its id is, in particular, the row that the query gave.
pub IsThere-listed :
    (ids : List Uuid) (rows : List Outbox) (r : Outbox)
    → IsThere rows r
    → is_listed ids r ≡ true
    → any (λ row. is_waiting row && is_listed ids row) rows ≡ true
IsThere-listed ids rows r there listed =
    any-weaken (λ row. is_waiting row && row.id == r.id)
      (λ row. is_waiting row && is_listed ids row) rows
      (λ row both.
        let waits : is_waiting row ≡ true = ground arith in
        let same : (row.id == r.id) ≡ true = ground arith in
        simp (waits, ap (λ i. any (λ id. i == id) ids) ((==_iff row.id r.id).0 same) ∙ listed) refl)
      there
