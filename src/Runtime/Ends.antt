-- ===== src/Runtime/Ends.antt =====
-- What holds when a call ends: after a result the transaction is not aborted and the tables meet a
-- postcondition, after an error there is
-- a reason for it, and there is no panic. One rule for each way to go on.
use go_saga_outbox.Base.{
  ◌⊎◌, ℕ, ◌+◌, ◌≡◌, refl, sym, true, false, Option, none, some, Bool-cases, Option-cases, inl, inr,
}
use go_saga_outbox.Runtime.{
  Error, db_error, Result, good, bad, Outcome, ok, err, panic, Env, World, M, pure, raise, lift,
  deref, continue, statement, ◌>>=◌,
}

pub Result-cases :
    {A : Type 0} (r : Result A) → ((x : Error) × (r ≡ bad x)) ⊎ ((a : A) × (r ≡ good a))
Result-cases (good a) = inr (a, refl)
Result-cases (bad x) = inl (x, refl)

abbrev pub Holds :
    {D A : Type 0} → (Error → Type 0) → (A → D → Type 0) → Outcome A × World D → Type 0
Holds X Q (ok a, w) = (w.aborted ≡ false) × Q a w.db
Holds X Q (err x, w) = X x
Holds X Q (panic, w) = ⊥

pub record Ends {D A : Type 0} (X : Error → Type 0) (Q : A → D → Type 0) (r : Outcome A × World D)
    : Type 0 where
  pub holds : Holds X Q r

Holds-pure :
    {D B : Type 0} (X : Error → Type 0) (Q : B → D → Type 0) (r : Outcome B) (w : World D)
    → Holds X Q (continue r pure w)
    → Holds X Q (r, w)
Holds-pure X Q (ok a) w h = h
Holds-pure X Q (err x) w h = h
Holds-pure X Q panic w h = h

module _ {D B : Type 0} {X : Error → Type 0} {Q : B → D → Type 0} where
  pub Ends-pure : (b : B) (w : World D) → w.aborted ≡ false → Q b w.db → Ends X Q (pure b w)
  Ends-pure b w fine h = record { holds = (fine, h) }

  pub Ends-raise : (x : Error) (w : World D) → X x → Ends X Q (raise x w)
  Ends-raise x w h = record { holds = h }

  pub Ends-tail : (m : M D B) (w : World D) → Ends X Q ((m >>= pure) w) → Ends X Q (m w)
  Ends-tail m w h = let (r, w') = m w in record { holds = Holds-pure X Q r w' h.holds }

module _ {D A B : Type 0} {X : Error → Type 0} {Q : B → D → Type 0} where
  pub Ends-lift :
      (r : Result A) (f : A → M D B) (w : World D)
      → ((x : Error) → r ≡ bad x → X x)
      → ((a : A) → r ≡ good a → Ends X Q (f a w))
      → Ends X Q ((lift r >>= f) w)
  Ends-lift (good a) f w failure done = done a refl
  Ends-lift (bad x) f w failure done = record { holds = failure x refl }

  pub Ends-deref :
      (o : Option A) (f : A → M D B) (w : World D) (a : A)
      → o ≡ some a
      → Ends X Q (f a w)
      → Ends X Q ((deref o >>= f) w)
  Ends-deref o f w a e h = rw e h

  pub Ends-statement :
      (e : Env) (q : D → Option (A × D)) (f : A → M D B) (w : World D)
      → w.aborted ≡ false
      → ((n : ℕ) → e.fault n ≡ true → X db_error)
      → (q w.db ≡ none → X db_error)
      → ((a : A) (d : D)
          → q w.db ≡ some (a, d)
          → Ends X Q (f a (record w { db = d; aborted = false; tick = w.tick + 1 })))
      → Ends X Q ((statement e q >>= f) w)
  unfolding statement
  Ends-statement e q f w fine faulty broken done = elim (Bool-cases (e.fault w.tick)) [
    | inl struck ↦ simp (fine, struck) (record { holds = faulty w.tick struck })
    | inr passed ↦ elim (Option-cases (q w.db)) [
      | inl violated ↦ simp (fine, passed, violated) (record { holds = broken violated })
      | inr ((a, d), result) ↦ simp (fine, passed, result) (done a d result)
    ]
  ]

module _ {D A : Type 0} {X Y : Error → Type 0} {Q R : A → D → Type 0} where
  pub Ends-weaken :
      (r : Outcome A × World D)
      → Ends X Q r
      → ((x : Error) → X x → Y x)
      → ((a : A) (d : D) → Q a d → R a d)
      → Ends Y R r
  Ends-weaken (ok a, w) h f g = record { holds = (h.holds.0, g a w.db h.holds.1) }
  Ends-weaken (err x, w) h f g = record { holds = f x h.holds }
  Ends-weaken (panic, w) h f g = absurd h.holds

module _ {D A : Type 0} {X : Error → Type 0} {Q : A → D → Type 0} where
  -- A call that gives this result meets its postcondition.
  pub Ends-result : (r : Outcome A × World D) (a : A) → Ends X Q r → r.0 ≡ ok a → Q a r.1.db
  Ends-result (ok b, w) a h p = rw (sym (own p)) h.holds.1
    where
      own : ok b ≡ ok a → b ≡ a
      own q = cc
  Ends-result (err x, w) a h p = absurd (clash p)
    where
      clash : err x ≡ ok a → ⊥
      clash q = cc
  Ends-result (panic, w) a h p = absurd h.holds

module _ {D : Type 0} {X : Error → Type 0} {Q : Unit → D → Type 0} where
  -- A call that gives a result meets its postcondition.
  pub Ends-ok : (r : Outcome Unit × World D) → Ends X Q r → r.0 ≡ ok tt → Q tt r.1.db
  Ends-ok (ok done, w) h p = h.holds.1
  Ends-ok (err x, w) h p = cc
  Ends-ok (panic, w) h p = absurd h.holds

module _ {D A B : Type 0} {X : Error → Type 0} {Q : A → D → Type 0} {R : B → D → Type 0} where
  pub Ends-bind :
      (m : M D A) (f : A → M D B) (w : World D)
      → Ends X Q (m w)
      → ((a : A) (w' : World D) → w'.aborted ≡ false → Q a w'.db → Ends X R (f a w'))
      → Ends X R ((m >>= f) w)
  Ends-bind m f w h next = let (r, w') = m w in go r w' h
    where
      go : (r : Outcome A) (w' : World D) → Ends X Q (r, w') → Ends X R (continue r f w')
      go (ok a) w' h = next a w' h.holds.0 h.holds.1
      go (err x) w' h = record { holds = h.holds }
      go panic w' h = absurd h.holds
