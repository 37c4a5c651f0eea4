-- ===== src/Base/Sorting.antt =====
-- What a query with WHERE, ORDER BY and LIMIT gives.
use Prim.Native.Nat.{ℕ, zero, suc, ◌≤◌}
use mathlib.Core.Path.{◌≡◌, refl, ap}
use mathlib.Core.Logic.{◌⊎◌, inl, inr}
use mathlib.Core.Bool.{Bool, true}
use mathlib.Core.List.{List, [], ◌∷◌}
use native.Mathlib.Omega.{arith}
use go_saga_outbox.Base.Tests.{leb, leb→le, Bool-cases}
use go_saga_outbox.Base.Lists.{length, take, select, insert_by, sort_by, All}

module _ {A : Type 0} where
  -- Ascending in a key.
  abbrev pub Ordered : (A → ℕ) → List A → Type 0
  Ordered key [] = Unit
  Ordered key (x ∷ xs) = All (λ y. key x ≤ key y) xs × Ordered key xs

  pub length-take : (n : ℕ) (xs : List A) → length (take n xs) ≤ n
  length-take zero xs = omega arith
  length-take (suc n) [] = omega arith
  length-take (suc n) (x ∷ xs) = let h = length-take n xs in omega arith

  pub All-weaken : (P Q : A → Type 0) (xs : List A) → ((x : A) → P x → Q x) → All P xs → All Q xs
  All-weaken P Q [] f h = tt
  All-weaken P Q (x ∷ xs) f (h, hs) = (f x h, All-weaken P Q xs f hs)

  pub All-take : (P : A → Type 0) (n : ℕ) (xs : List A) → All P xs → All P (take n xs)
  All-take P zero xs h = tt
  All-take P (suc n) [] h = tt
  All-take P (suc n) (x ∷ xs) (h, hs) = (h, All-take P n xs hs)

  pub All-select : (p : A → Bool) (xs : List A) → All (λ x. p x ≡ true) (select p xs)
  All-select p [] = tt
  All-select p (x ∷ xs) = elim (Bool-cases (p x)) [
    | inl yeah ↦ simp yeah (refl, All-select p xs)
    | inr nope ↦ simp nope (All-select p xs)
  ]

  All-insert_by :
      (P : A → Type 0) (key : A → ℕ) (x : A) (ys : List A)
      → P x
      → All P ys
      → All P (insert_by key x ys)
  All-insert_by P key x [] h hs = (h, tt)
  All-insert_by P key x (y ∷ ys) h (g, gs) = elim (Bool-cases (leb (key x) (key y))) [
    | inl low ↦ simp low (h, (g, gs))
    | inr high ↦ simp high (g, All-insert_by P key x ys h gs)
  ]

  pub All-sort_by : (P : A → Type 0) (key : A → ℕ) (xs : List A) → All P xs → All P (sort_by key xs)
  All-sort_by P key [] h = tt
  All-sort_by P key (x ∷ xs) (h, hs) = All-insert_by P key x _ h (All-sort_by P key xs hs)

  insert_by-Ordered :
      (key : A → ℕ) (x : A) (ys : List A) → Ordered key ys → Ordered key (insert_by key x ys)
  insert_by-Ordered key x [] h = (tt, tt)
  insert_by-Ordered key x (y ∷ ys) (h, hs) = elim (Bool-cases (leb (key x) (key y))) [
    | inl low ↦
        let le = leb→le (key x) (key y) low in
        simp low ((le, All-weaken _ _ ys (λ z g. omega arith) h), (h, hs))
    | inr high ↦
        simp high (All-insert_by _ key x ys (ground arith) h, insert_by-Ordered key x ys hs)
  ]

  pub sort_by-Ordered : (key : A → ℕ) (xs : List A) → Ordered key (sort_by key xs)
  sort_by-Ordered key [] = tt
  sort_by-Ordered key (x ∷ xs) = insert_by-Ordered key x _ (sort_by-Ordered key xs)

  take-Ordered : (key : A → ℕ) (n : ℕ) (xs : List A) → Ordered key xs → Ordered key (take n xs)
  take-Ordered key zero xs h = tt
  take-Ordered key (suc n) [] h = tt
  take-Ordered key (suc n) (x ∷ xs) (h, hs) = (All-take _ n xs h, take-Ordered key n xs hs)

  insert_by-cons :
      (key : A → ℕ) (x : A) (ys : List A) → (h : A) × (t : List A) × (insert_by key x ys ≡ h ∷ t)
  insert_by-cons key x [] = (x, [], refl)
  insert_by-cons key x (y ∷ ys) = elim (Bool-cases (leb (key x) (key y))) [
    | inl low ↦ simp low (x, y ∷ ys, refl)
    | inr high ↦ simp high (y, insert_by key x ys, refl)
  ]

  -- A query of no row, or with a first one.
  pub query-cases :
      (key : A → ℕ) (limit : ℕ) (xs : List A)
      → (xs ≡ []) ⊎ ((h : A) × (t : List A) × (take (suc limit) (sort_by key xs) ≡ h ∷ t))
  query-cases key limit [] = inl refl
  query-cases key limit (x ∷ xs) =
      let (h, t, sorted) = insert_by-cons key x (sort_by key xs) in
      inr (h, take limit t, ap (take (suc limit)) sorted)

  -- The rows of such a query: at most the limit, each passes the test, ascending in the key.
  pub query_lem :
      (p : A → Bool) (key : A → ℕ) (limit : ℕ) (xs : List A)
      → let rows = take limit (sort_by key (select p xs)) in
        (length rows ≤ limit) × (All (λ x. p x ≡ true) rows × Ordered key rows)
  query_lem p key limit xs = (
    length-take limit _,
    (
      All-take _ limit _ (All-sort_by _ key _ (All-select p xs)),
      take-Ordered key limit _ (sort_by-Ordered key (select p xs)),
    ),
  )

  pub query_All :
      (P : A → Type 0) (p : A → Bool) (key : A → ℕ) (limit : ℕ) (xs : List A)
      → ((x : A) → p x ≡ true → P x)
      → All P (take limit (sort_by key (select p xs)))
  query_All P p key limit xs f = All-weaken _ _ _ f (query_lem p key limit xs).1.0
