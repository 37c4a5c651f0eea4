-- ===== src/Base/Queries.antt =====
-- What a query with WHERE, ORDER BY and LIMIT has to give, without saying how.
use Prim.Native.Nat.{ℕ, zero, suc, ◌≤◌}
use mathlib.Core.Path.{◌≡◌, refl, ap}
use mathlib.Core.Logic.{◌⊎◌, inl, inr}
use mathlib.Core.Bool.{Bool, true, false, not}
use mathlib.Core.List.{List, [], ◌∷◌, ◌++◌, Perm}
use mathlib.Core.List.Perm
use go_saga_outbox.Base.Tests.{leb, Bool-cases}
use go_saga_outbox.Base.Lists.{length, take, select, insert_by, sort_by, All}
use go_saga_outbox.Base.Sorting.{
  Ordered, All-weaken, All-select, All-sort_by, sort_by-Ordered, length-take,
}

module _ {A : Type 0} where
  -- The table is divided into the rows of the answer, those that would come after it, and those
  -- that do not match: the first two have the property, the third have not, the answer and what
  -- would come after it ascend in the key, and the answer ends early only at the limit.
  pub record Answers (P : A → Type 0) (key : A → ℕ) (limit : ℕ) (table rows : List A) : Type 0 where
    pub later : List A
    pub unmatched : List A
    pub whole : Perm ((rows ++ later) ++ unmatched) table
    pub matching : All P (rows ++ later)
    pub others : All (λ row. P row → ⊥) unmatched
    pub ordered : Ordered key (rows ++ later)
    pub few : length rows ≤ limit
    pub full : (later ≡ []) ⊎ (length rows ≡ limit)

  abbrev beyond : ℕ → List A → List A
  beyond zero xs = xs
  beyond (suc n) [] = []
  beyond (suc n) (x ∷ xs) = beyond n xs

  take-beyond : (n : ℕ) (xs : List A) → take n xs ++ beyond n xs ≡ xs
  take-beyond zero xs = refl
  take-beyond (suc n) [] = refl
  take-beyond (suc n) (x ∷ xs) = ap (λ l. x ∷ l) (take-beyond n xs)

  beyond-full : (n : ℕ) (xs : List A) → (beyond n xs ≡ []) ⊎ (length (take n xs) ≡ n)
  beyond-full zero xs = inr refl
  beyond-full (suc n) [] = inl refl
  beyond-full (suc n) (x ∷ xs) = elim (beyond-full n xs) [
    | inl ended ↦ inl ended
    | inr all ↦ inr (ap suc all)
  ]

  insert_by-Perm : (key : A → ℕ) (x : A) (ys : List A) → Perm (insert_by key x ys) (x ∷ ys)
  insert_by-Perm key x [] = Perm.refl _
  insert_by-Perm key x (y ∷ ys) = elim (Bool-cases (leb (key x) (key y))) [
    | inl low ↦ simp low (Perm.refl _)
    | inr high ↦ simp high (Perm.trans (Perm.cons y (insert_by-Perm key x ys)) (Perm.swap x y ys))
  ]

  sort_by-Perm : (key : A → ℕ) (xs : List A) → Perm (sort_by key xs) xs
  sort_by-Perm key [] = Perm.refl _
  sort_by-Perm key (x ∷ xs) =
      Perm.trans (insert_by-Perm key x (sort_by key xs)) (Perm.cons x (sort_by-Perm key xs))

  middle-Perm : (a : A) (xs ys : List A) → Perm (xs ++ (a ∷ ys)) (a ∷ (xs ++ ys))
  middle-Perm a [] ys = Perm.refl _
  middle-Perm a (x ∷ xs) ys =
      Perm.trans (Perm.cons x (middle-Perm a xs ys)) (Perm.swap a x (xs ++ ys))

  -- A test divides a list.
  divide : (p : A → Bool) (xs : List A) → Perm (select p xs ++ select (λ x. not (p x)) xs) xs
  divide p [] = Perm.refl _
  divide p (x ∷ xs) = elim (Bool-cases (p x)) [
    | inl yeah ↦ simp yeah (Perm.cons x (divide p xs))
    | inr nope ↦ simp nope (
        Perm.trans (middle-Perm x (select p xs) (select (λ y. not (p y)) xs))
          (Perm.cons x (divide p xs)))
  ]

  -- The query whose test decides the property gives such an answer.
  pub query-Answers :
      (P : A → Type 0) (p : A → Bool) (key : A → ℕ) (limit : ℕ) (table : List A)
      → ((row : A) → p row ≡ true → P row)
      → ((row : A) → P row → p row ≡ true)
      → Answers P key limit table (take limit (sort_by key (select p table)))
  query-Answers P p key limit table sound complete =
      let sorted = sort_by key (select p table) in
      let parts = take-beyond limit sorted in
      record {
        later = beyond limit sorted;
        unmatched = select (λ row. not (p row)) table;
        whole = rw parts (
            Perm.trans
              (Perm.append_right (select (λ row. not (p row)) table)
                (sort_by-Perm key (select p table)))
              (divide p table));
        matching =
            rw parts
              (All-sort_by P key _ (All-weaken _ _ _ (λ row. sound row) (All-select p table)));
        others =
            All-weaken _ _ _ (λ row refused holds. clash (p row) refused (complete row holds))
              (All-select (λ row. not (p row)) table);
        ordered = rw parts (sort_by-Ordered key (select p table));
        few = length-take limit sorted;
        full = beyond-full limit sorted;
      }
    where
      clash : (b : Bool) → not b ≡ true → b ≡ true → ⊥
      clash true h g = cc
      clash false h g = cc
