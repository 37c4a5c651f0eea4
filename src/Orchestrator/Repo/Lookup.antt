-- ===== src/Orchestrator/Repo/Lookup.antt =====
-- What is found under an id after an upsert.
use go_saga_outbox.Base.{
  ◌≡◌, refl, sym, ap, true, false, none, some, List, [], ◌∷◌, find, any, update, ==_iff, ==_refl,
  Bool-cases, inl, inr,
}
use go_saga_outbox.Runtime.{Uuid}
use go_saga_outbox.Orchestrator.Model.{Saga}
use go_saga_outbox.Orchestrator.Repo.{has_id, overwrite, upsert_saga}

some-injective : {A : Type 0} (a b : A) → some a ≡ some b → a ≡ b
some-injective a b h = cc

none-some : {A : Type 0} (a : A) → none ≡ some a → ⊥
none-some a h = cc

pub found-id :
    (id : Uuid) (rows : List Saga) (s : Saga) → find (has_id id) rows ≡ some s → s.id ≡ id
found-id id [] s h = absurd (none-some s h)
found-id id (row ∷ rows) s h = elim (Bool-cases (has_id id row)) [
  | inl yeah ↦ rw (sym (some-injective row s (simp yeah at h))) ((==_iff row.id id).0 yeah)
  | inr nope ↦ found-id id rows s (simp nope at h)
]

-- Under another id, what was there.
update-other :
    (x : Saga) (id : Uuid) (rows : List Saga)
    → has_id id x ≡ false
    → find (has_id id) (update (has_id x.id) (overwrite x) rows) ≡ find (has_id id) rows
update-other x id [] other = refl
update-other x id (row ∷ rows) other =
    let rest = update-other x id rows other in
    elim (Bool-cases (has_id x.id row)) [
      | inl own ↦ simp (own, elsewhere own, rest)
      | inr nope ↦ simp (nope, rest)
    ]
  where
    elsewhere : has_id x.id row ≡ true → has_id id row ≡ false
    elsewhere own = rw ((==_iff row.id x.id).0 own) other

pub upsert_saga-other :
    (x : Saga) (id : Uuid) (rows : List Saga)
    → has_id id x ≡ false
    → find (has_id id) (upsert_saga x rows) ≡ find (has_id id) rows
upsert_saga-other x id rows other = elim (Bool-cases (any (has_id x.id) rows)) [
  | inl there ↦ simp there (update-other x id rows other)
  | inr absent ↦ simp (absent, other)
]

update-own :
    (x : Saga) (rows : List Saga) (s : Saga)
    → find (has_id x.id) (update (has_id x.id) (overwrite x) rows) ≡ some s
    → s.state ≡ x.state
update-own x [] s h = absurd (none-some s h)
update-own x (row ∷ rows) s h = elim (Bool-cases (has_id x.id row)) [
  | inl own ↦ ap (λ r. r.state) (sym (some-injective (overwrite x row) s (simp own at h)))
  | inr nope ↦ update-own x rows s (simp nope at h)
]

-- Under its own id, its state.
pub upsert_saga-own :
    (x : Saga) (rows : List Saga) (s : Saga)
    → find (has_id x.id) (upsert_saga x rows) ≡ some s
    → s.state ≡ x.state
upsert_saga-own x rows s h = elim (Bool-cases (any (has_id x.id) rows)) [
  | inl there ↦ update-own x rows s (simp there at h)
  | inr absent ↦ ap (λ r. r.state) (sym (some-injective x s (simp (absent, ==_refl x.id) at h)))
]
