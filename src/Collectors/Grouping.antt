-- ===== src/Collectors/Grouping.antt =====
-- What `GROUP BY` with `COUNT(*)` gives, and what the gauges are after its rows are set.
use go_saga_outbox.Base.{
  ℕ, suc, ◌≡◌, refl, sym, ap, inl, inr, String, true, false, not, ◌||◌, some, List, [], ◌∷◌, ◌==◌,
  str_eq, eq_iff, any, select, length, if◌then◌else◌, Bool-cases, arith,
}
use go_saga_outbox.Collectors.{Gauge, set_gauge, bump, group_by, has_label}

-- How many rows have the label.
abbrev pub tally : {A : Type 0} → (A → String) → String → List A → ℕ
tally label l xs = length (select (λ x. str_eq (label x) l) xs)

-- The loop over the rows where nothing fails.
abbrev pub put : List (String × ℕ) → Gauge ℕ → Gauge ℕ
put [] g = g
put ((label, n) ∷ rows) g = put rows (set_gauge label n g)

-- The count of the first row of the label.
abbrev value : String → List (String × ℕ) → ℕ
value l [] = 0
value l ((label, n) ∷ rows) = if str_eq label l then n else value l rows

-- Each label has one row.
abbrev Unique : List (String × ℕ) → Type 0
Unique [] = Unit
Unique ((label, n) ∷ rows) = (any (has_label label) rows ≡ false) × Unique rows

str_eq_refl : (s : String) → str_eq s s ≡ true
str_eq_refl s = (eq_iff s s).1 refl

str_eq_sym : (s t : String) → str_eq s t ≡ false → str_eq t s ≡ false
str_eq_sym s t h = elim (Bool-cases (str_eq t s)) [
  | inl same ↦ absurd (differ ((eq_iff s t).1 (sym ((eq_iff t s).0 same))))
  | inr other ↦ other
]
  where
    differ : str_eq s t ≡ true → ⊥
    differ g = cc

put-Unique :
    (rows : List (String × ℕ)) (g : Gauge ℕ) (l : String)
    → Unique rows
    → put rows g l ≡ (if any (has_label l) rows then some (value l rows) else g l)
put-Unique [] g l u = refl
put-Unique ((label, n) ∷ rows) g l (alone, u) =
    let rest = put-Unique rows (set_gauge label n g) l u in
    elim (Bool-cases (str_eq label l)) [
      | inl same ↦
          let p = (eq_iff label l).0 same in
          let gone : any (has_label l) rows ≡ false = rw (sym p) alone in
          simp (same, gone, (eq_iff l label).1 (sym p), rest)
      | inr other ↦ simp (other, str_eq_sym label l other, rest)
    ]

value-bump :
    (label l : String) (rows : List (String × ℕ))
    → value l (bump label rows) ≡ (if str_eq label l then suc (value l rows) else value l rows)
value-bump label l [] = refl
value-bump label l ((k, n) ∷ rows) =
    let rest = value-bump label l rows in
    elim (Bool-cases (str_eq k label)) [
      | inl same ↦ simp same (here ((eq_iff k label).0 same))
      | inr other ↦ simp other (later ((eq_iff k label).1) other rest)
    ]
  where
    here :
        k ≡ label
        → (if str_eq k l then suc n else value l rows) ≡ (
            if str_eq label l
            then suc (if str_eq k l then n else value l rows)
            else (if str_eq k l then n else value l rows))
    here p = elim (Bool-cases (str_eq label l)) [
      | inl yeah ↦ rw p (simp yeah)
      | inr nope ↦ rw p (simp nope)
    ]

    later :
        (k ≡ label → str_eq k label ≡ true)
        → str_eq k label ≡ false
        → value l (bump label rows) ≡ (if str_eq label l then suc (value l rows) else value l rows)
        → (if str_eq k l then n else value l (bump label rows)) ≡ (
            if str_eq label l
            then suc (if str_eq k l then n else value l rows)
            else (if str_eq k l then n else value l rows))
    later same other rest = elim (Bool-cases (str_eq k l)) [
      | inl yeah ↦ simp (yeah, not_l yeah)
      | inr nope ↦ simp (nope, rest)
    ]
      where
        not_l : str_eq k l ≡ true → str_eq label l ≡ false
        not_l yeah = rw (sym ((eq_iff k l).0 yeah)) (str_eq_sym k label other)

any-bump :
    (label l : String) (rows : List (String × ℕ))
    → any (has_label l) (bump label rows) ≡ (str_eq label l || any (has_label l) rows)
any-bump label l [] = refl
any-bump label l ((k, n) ∷ rows) =
    let rest = any-bump label l rows in
    elim (Bool-cases (str_eq k label)) [
      | inl same ↦ simp same (here ((eq_iff k label).0 same))
      | inr other ↦ simp other (later rest)
    ]
  where
    here :
        k ≡ label
        → (str_eq k l || any (has_label l) rows)
          ≡ (str_eq label l || (str_eq k l || any (has_label l) rows))
    here p = rw p (ground arith)

    later :
        any (has_label l) (bump label rows) ≡ (str_eq label l || any (has_label l) rows)
        → (str_eq k l || any (has_label l) (bump label rows))
          ≡ (str_eq label l || (str_eq k l || any (has_label l) rows))
    later rest = rw rest (ground arith)

Unique-bump : (label : String) (rows : List (String × ℕ)) → Unique rows → Unique (bump label rows)
Unique-bump label [] u = (refl, tt)
Unique-bump label ((k, n) ∷ rows) (alone, u) =
    let rest = Unique-bump label rows u in
    elim (Bool-cases (str_eq k label)) [
      | inl same ↦ simp same (alone, u)
      | inr other ↦ simp other (apart other, rest)
    ]
  where
    apart : str_eq k label ≡ false → any (has_label k) (bump label rows) ≡ false
    apart other = rw (any-bump label k rows) (simp (str_eq_sym k label other, alone))

module _ {A : Type 0} (label : A → String) where
  Unique-group_by : (xs : List A) → Unique (group_by label xs)
  Unique-group_by [] = tt
  Unique-group_by (x ∷ xs) = Unique-bump (label x) (group_by label xs) (Unique-group_by xs)

  value-group_by : (xs : List A) (l : String) → value l (group_by label xs) ≡ tally label l xs
  value-group_by [] l = refl
  value-group_by (x ∷ xs) l =
      let rest = value-group_by xs l in
      rw (value-bump (label x) l (group_by label xs)) (elim (Bool-cases (str_eq (label x) l)) [
        | inl yeah ↦ simp (yeah, rest)
        | inr nope ↦ simp (nope, rest)
      ])

  -- A label has a row where a row of the table has it.
  pub any-group_by :
      (xs : List A) (l : String)
      → any (has_label l) (group_by label xs) ≡ not (tally label l xs == 0)
  any-group_by [] l = refl
  any-group_by (x ∷ xs) l =
      let rest = any-group_by xs l in
      rw (any-bump (label x) l (group_by label xs)) (elim (Bool-cases (str_eq (label x) l)) [
        | inl yeah ↦ simp yeah (sym (ap not (suc_nonzero _)))
        | inr nope ↦ simp (nope, rest)
      ])
    where
      suc_nonzero : (n : ℕ) → (suc n == 0) ≡ false
      suc_nonzero n = ground arith

  -- The gauge of a label is its number of rows, or what it was where it has none.
  pub put-group_by :
      (xs : List A) (g : Gauge ℕ) (l : String)
      → put (group_by label xs) g l
        ≡ (if tally label l xs == 0 then g l else some (tally label l xs))
  put-group_by xs g l = rw (put-Unique (group_by label xs) g l (Unique-group_by xs)) (
      rw (any-group_by xs l) (
        rw (value-group_by xs l) (elim (Bool-cases (tally label l xs == 0)) [
          | inl none_there ↦ simp none_there
          | inr some_there ↦ simp some_there
        ])))
