-- ===== src/Orchestrator/Repo/Growth.antt =====
-- The tables of the orchestrator only grow, and a stored saga stays the saga that it is.
use go_saga_outbox.Base.{
  ◌≡◌, refl, sym, ap, ◌∙◌, Bool, true, false, none, some, List, [], ◌∷◌, ◌++◌, find, any, update,
  ==_iff, if◌then◌else◌, Bool-cases, inl, inr,
}
use go_saga_outbox.Runtime.{Uuid}
use go_saga_outbox.Orchestrator.Model.{Saga}
use go_saga_outbox.Orchestrator.Repo.{SagaDb, has_id, overwrite, upsert_saga, lookup_saga}

-- What a saga is made with, and no operation changes.
pub record SameSaga (before after : Saga) : Type 0 where
  pub id : after.id ≡ before.id
  pub type : after.type ≡ before.type
  pub payload : after.payload ≡ before.payload
  pub created_at : after.created_at ≡ before.created_at

-- The rows are the old ones with new ones in front.
pub record Extends {A : Type 0} (before after : List A) : Type 0 where
  pub rows : List A
  pub tables : after ≡ rows ++ before

-- No row of the inbox, the outbox or the steps is lost or changed, and each saga is still there.
pub record Grew (d d' : SagaDb) : Type 0 where
  pub inbox : Extends d.inbox d'.inbox
  pub outbox : Extends d.outbox d'.outbox
  pub steps : Extends d.own.saga_step d'.own.saga_step
  pub sagas :
      (id : Uuid) (saga : Saga)
      → lookup_saga id d ≡ some saga
      → (saga' : Saga) × (lookup_saga id d' ≡ some saga') × SameSaga saga saga'

pub Extends-refl : {A : Type 0} (xs : List A) → Extends xs xs
Extends-refl xs = record { rows = []; tables = refl }

pub Extends-cons : {A : Type 0} (x : A) (xs ys : List A) → Extends xs ys → Extends xs (x ∷ ys)
Extends-cons x xs ys h = record { rows = x ∷ h.rows; tables = ap (λ l. x ∷ l) h.tables }

pub SameSaga-refl : (s : Saga) → SameSaga s s
SameSaga-refl s = record { id = refl; type = refl; payload = refl; created_at = refl }

pub SameSaga-trans : (s t u : Saga) → SameSaga s t → SameSaga t u → SameSaga s u
SameSaga-trans s t u f g = record {
  id = g.id ∙ f.id;
  type = g.type ∙ f.type;
  payload = g.payload ∙ f.payload;
  created_at = g.created_at ∙ f.created_at;
}

pub Grew-refl : (d : SagaDb) → Grew d d
Grew-refl d = record {
  inbox = Extends-refl d.inbox;
  outbox = Extends-refl d.outbox;
  steps = Extends-refl d.own.saga_step;
  sagas = λ id saga known. (saga, known, SameSaga-refl saga);
}

overwrite-SameSaga : (x s : Saga) → SameSaga s (overwrite x s)
overwrite-SameSaga x s = record { id = refl; type = refl; payload = refl; created_at = refl }

any-found :
    (id : Uuid) (rows : List Saga) (s : Saga)
    → find (has_id id) rows ≡ some s
    → any (has_id id) rows ≡ true
any-found id [] s h = cc
any-found id (row ∷ rows) s h = elim (Bool-cases (has_id id row)) [
  | inl yeah ↦ simp yeah
  | inr nope ↦ simp (nope, any-found id rows s (simp nope at h))
]

updated :
    (x : Saga) (id : Uuid) (rows : List Saga) (s : Saga)
    → find (has_id id) rows ≡ some s
    → (s' : Saga) × (find (has_id id) (update (has_id x.id) (overwrite x) rows) ≡ some s')
      × SameSaga s s'
updated x id [] s h = absurd (none_some h)
  where
    none_some : none ≡ some s → ⊥
    none_some g = cc
updated x id (row ∷ rows) s h = go (λ below. updated x id rows s below) (has_id x.id row)
  where
    here : some row ≡ some s → row ≡ s
    here g = cc

    pick :
        (find (has_id id) rows ≡ some s
          → (s' : Saga) × (find (has_id id) (update (has_id x.id) (overwrite x) rows) ≡ some s')
            × SameSaga s s')
        → (row' : Saga) → SameSaga row row'
        → has_id id row' ≡ has_id id row
        → (s' : Saga) × (find (has_id id) (row' ∷ update (has_id x.id) (overwrite x) rows)
            ≡ some s')
          × SameSaga s s'
    pick rest row' same i = elim (Bool-cases (has_id id row)) [
      | inl yeah ↦ (row', simp (i ∙ yeah) refl, rw (sym (here (simp yeah at h))) same)
      | inr nope ↦ rw (i ∙ nope) (rest (simp nope at h))
    ]

    go :
        (find (has_id id) rows ≡ some s
          → (s' : Saga) × (find (has_id id) (update (has_id x.id) (overwrite x) rows) ≡ some s')
            × SameSaga s s')
        → (b : Bool)
        → (s' : Saga) × (find
              (has_id id)
              ((if b then overwrite x row else row) ∷ update (has_id x.id) (overwrite x) rows)
            ≡ some s')
          × SameSaga s s'
    go rest true = pick rest (overwrite x row) (overwrite-SameSaga x row) refl
    go rest false = pick rest row (SameSaga-refl row) refl

-- An upsert of any saga leaves the others, and the identity of its own row.
pub upsert_saga-SameSaga :
    (x : Saga) (id : Uuid) (rows : List Saga) (s : Saga)
    → find (has_id id) rows ≡ some s
    → (s' : Saga) × (find (has_id id) (upsert_saga x rows) ≡ some s') × SameSaga s s'
upsert_saga-SameSaga x id rows s h = elim (Bool-cases (any (has_id x.id) rows)) [
  | inl there ↦ simp there (updated x id rows s h)
  | inr absent ↦ simp absent (s, kept absent, SameSaga-refl s)
]
  where
    differ : any (has_id x.id) rows ≡ false → has_id id x ≡ false
    differ absent = elim (Bool-cases (has_id id x)) [
      | inl same ↦ absurd (clash absent (any-found id rows s h) ((==_iff x.id id).0 same))
      | inr other ↦ other
    ]
      where
        clash : any (has_id x.id) rows ≡ false → any (has_id id) rows ≡ true → x.id ≡ id → ⊥
        clash a b p = let a' : any (has_id id) rows ≡ false = rw (sym p) a in cc

    kept : any (has_id x.id) rows ≡ false → find (has_id id) (x ∷ rows) ≡ some s
    kept absent = simp (differ absent) h
