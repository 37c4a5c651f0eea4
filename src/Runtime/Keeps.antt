-- ===== src/Runtime/Keeps.antt =====
-- What a call keeps true of the tables, however it ends: one rule for each way to build a call.
use go_saga_outbox.Base.{
  ◌||◌, ◌≡◌, Bool, true, false, Option, none, some, if◌then◌else◌, Bool-cases, Option-cases, inl,
  inr,
}
use go_saga_outbox.Runtime.{
  Error, Metrics, Result, good, bad, Outcome, ok, err, panic, Env, World, M, pure, raise, lift,
  deref, count, now, v7, continue, statement, ◌>>=◌,
}

-- `m` keeps `P`, whether it gives a result, returns an error or panics.
pub record Keeps {D A : Type 0} (P : D → Type 0) (m : M D A) : Type 0 where
  pub at : (w : World D) → P w.db → P (m w).1.db

-- The tables that a statement's effect gives, if it has one, have the property.
abbrev pub After : {D A : Type 0} → (D → Type 0) → Option (A × D) → Type 0
After P none = Unit
After P (some (a, d)) = P d

After-some :
    {D A : Type 0} (P : D → Type 0) (o : Option (A × D)) (a : A) (d : D)
    → After P o
    → o ≡ some (a, d)
    → P d
After-some P o a d h same = rw same at h

module _ {D A : Type 0} {P : D → Type 0} where
  pub Keeps-pure : (a : A) → Keeps P (pure a)
  Keeps-pure a = record { at = λ w h. h }

  pub Keeps-raise : (x : Error) → Keeps P (raise {A = A} x)
  Keeps-raise x = record { at = λ w h. h }

  pub Keeps-lift : (r : Result A) → Keeps P (lift r)
  Keeps-lift (good a) = record { at = λ w h. h }
  Keeps-lift (bad x) = record { at = λ w h. h }

  pub Keeps-deref : (o : Option A) → Keeps P (deref o)
  Keeps-deref (some a) = record { at = λ w h. h }
  Keeps-deref none = record { at = λ w h. h }

  pub Keeps-if : (b : Bool) (m n : M D A) → Keeps P m → Keeps P n → Keeps P (if b then m else n)
  Keeps-if true m n km kn = km
  Keeps-if false m n km kn = kn

  pub Keeps-statement :
      (e : Env) (q : D → Option (A × D)) → ((d : D) → P d → After P (q d)) → Keeps P (statement e q)
  unfolding statement
  Keeps-statement e q keeps = record { at = λ w h. go w h }
    where
      go : (w : World D) → P w.db → P (statement e q w).1.db
      go w h = elim (Bool-cases (w.aborted || e.fault w.tick)) [
        | inl stopped ↦ simp stopped h
        | inr passed ↦ elim (Option-cases (q w.db)) [
          | inl violated ↦ simp (passed, violated) h
          | inr ((a, d), result) ↦
              simp (passed, result) (After-some P (q w.db) a d (keeps w.db h) result)
        ]
      ]

module _ {D A B : Type 0} {P : D → Type 0} where
  continue-Keeps :
      (r : Outcome A) (f : A → M D B) (w : World D)
      → ((a : A) → Keeps P (f a))
      → P w.db
      → P (continue r f w).1.db
  continue-Keeps (ok a) f w k h = (k a).at w h
  continue-Keeps (err x) f w k h = h
  continue-Keeps panic f w k h = h

  pub Keeps-bind :
      (m : M D A) (f : A → M D B) → Keeps P m → ((a : A) → Keeps P (f a)) → Keeps P (m >>= f)
  Keeps-bind m f km kf = record {
    at = λ w h. let (r, w') = m w in continue-Keeps r f w' kf (km.at w h);
  }

module _ {D : Type 0} {P : D → Type 0} where
  pub Keeps-count : (f : Metrics → Metrics) → Keeps P (count f)
  Keeps-count f = record { at = λ w h. h }

  pub Keeps-now : (e : Env) → Keeps P (now e)
  Keeps-now e = record { at = λ w h. h }

  pub Keeps-v7 : (e : Env) → Keeps P (v7 e)
  Keeps-v7 e = record { at = λ w h. h }

pub ruleset keeps_rules = (
  Keeps-pure, Keeps-raise, Keeps-lift, Keeps-deref, Keeps-if, Keeps-bind, Keeps-count, Keeps-now,
  Keeps-v7,
)
