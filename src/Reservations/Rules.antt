-- ===== src/Reservations/Rules.antt =====
-- The rules for the statements on `seat` and `reservation`.
use go_saga_outbox.Base.{
  ℕ, suc, ◌+◌, ◌≡◌, Bool, true, false, some, List, [], ◌∷◌, find, any, select, length, update, ◌==◌,
  ==_refl, arith, inl, inr, Bool-cases,
}
use go_saga_outbox.Runtime.{Uuid, Error, db_error, seat_not_found, Env, World, M, ◌>>=◌}
use go_saga_outbox.Runtime.Ends.{Ends, Ends-raise}
use go_saga_outbox.Reservations.Model.{
  Seat, Reservation, SeatDb, set_tables, status_is_free, is_candidate, is_free_at, is_at, take_seat,
  free_up, clashes, held, set_status, mark_seat_reserved, mark_seat_released, create,
  update_reservation,
}

suc_nonzero : (n : ℕ) → (suc n == 0) ≡ false
suc_nonzero n = ground arith

-- A candidate is a free seat, and its own update meets it.
pub candidate_counts :
    (locked : Uuid → Bool) (event_id : Uuid) (rows : List Seat) (seat : Seat)
    → find (is_candidate locked event_id) rows ≡ some seat
    → (length (select (is_free_at seat.id) rows) == 0) ≡ false
candidate_counts locked event_id [] seat h = cc
candidate_counts locked event_id (row ∷ rows) seat h =
    elim (Bool-cases (is_candidate locked event_id row)) [
      | inl yeah ↦ here row rows seat (candidate-free row yeah) (simp yeah at h)
      | inr nope ↦
          let rest = candidate_counts locked event_id rows seat (simp nope at h) in
          later row rows seat rest
    ]
  where
    candidate-free :
        (row : Seat) → is_candidate locked event_id row ≡ true → status_is_free row.status ≡ true
    candidate-free row h = ground arith

    here :
        (row : Seat) (rows : List Seat) (seat : Seat)
        → status_is_free row.status ≡ true
        → some row ≡ some seat
        → (length (select (is_free_at seat.id) (row ∷ rows)) == 0) ≡ false
    here row rows seat f h =
        let same : seat ≡ row = cc in rw same (simp (f, ==_refl row.id) (suc_nonzero _))

    later :
        (row : Seat) (rows : List Seat) (seat : Seat)
        → (length (select (is_free_at seat.id) rows) == 0) ≡ false
        → (length (select (is_free_at seat.id) (row ∷ rows)) == 0) ≡ false
    later row rows seat h = elim (Bool-cases (is_free_at seat.id row)) [
      | inl yeah ↦ simp yeah (suc_nonzero _)
      | inr nope ↦ simp (nope, h)
    ]

module _ {X : Error → Type 0} {Q : Unit → SeatDb → Type 0} (e : Env)
    (faulty : (n : ℕ) → e.fault n ≡ true → X db_error) where
  pub Ends-mark_seat_reserved :
      (locked : Uuid → Bool) (event_id : Uuid) (seat : Seat) (f : Unit → M SeatDb Unit)
      (w : World SeatDb)
      → w.aborted ≡ false
      → find (is_candidate locked event_id) w.db.own.seat ≡ some seat
      → Ends X Q (
          f tt (record w {
            db =
                set_tables
                  (update (is_free_at seat.id) take_seat w.db.own.seat)
                  w.db.own.reservation
                  w.db;
            aborted = false;
            tick = w.tick + 1;
          }))
      → Ends X Q ((mark_seat_reserved e seat.id >>= f) w)
  unfolding mark_seat_reserved
  Ends-mark_seat_reserved locked event_id seat f w fine chosen done =
      elim (Bool-cases (e.fault w.tick)) [
        | inl s ↦ simp (fine, s) (Ends-raise db_error _ (faulty w.tick s))
        | inr s ↦ simp (fine, s, candidate_counts locked event_id w.db.own.seat seat chosen) done
      ]

  pub Ends-mark_seat_released :
      (seat_id : Uuid) (f : Unit → M SeatDb Unit) (w : World SeatDb)
      → w.aborted ≡ false
      → ((length (select (is_at seat_id) w.db.own.seat) == 0) ≡ true → X seat_not_found)
      → Ends X Q (
          f tt (record w {
            db =
                set_tables (update (is_at seat_id) free_up w.db.own.seat) w.db.own.reservation w.db;
            aborted = false;
            tick = w.tick + 1;
          }))
      → Ends X Q ((mark_seat_released e seat_id >>= f) w)
  unfolding mark_seat_released
  Ends-mark_seat_released seat_id f w fine missing done = elim (Bool-cases (e.fault w.tick)) [
    | inl s ↦ simp (fine, s) (Ends-raise db_error _ (faulty w.tick s))
    | inr s ↦ elim (Bool-cases (length (select (is_at seat_id) w.db.own.seat) == 0)) [
      | inl none_there ↦
          simp (fine, s, none_there) (Ends-raise seat_not_found _ (missing none_there))
      | inr some_there ↦ simp (fine, s, some_there) done
    ]
  ]

  pub Ends-create :
      (r : Reservation) (f : Unit → M SeatDb Unit) (w : World SeatDb)
      → w.aborted ≡ false
      → (any (clashes r) w.db.own.reservation ≡ true → X db_error)
      → Ends X Q (
          f tt (record w {
            db = set_tables w.db.own.seat (record r { status = held } ∷ w.db.own.reservation) w.db;
            aborted = false;
            tick = w.tick + 1;
          }))
      → Ends X Q ((create e r >>= f) w)
  unfolding create
  Ends-create r f w fine taken done = elim (Bool-cases (e.fault w.tick)) [
    | inl s ↦ simp (fine, s) (Ends-raise db_error _ (faulty w.tick s))
    | inr s ↦ elim (Bool-cases (any (clashes r) w.db.own.reservation)) [
      | inl clash ↦ simp (fine, s, clash) (Ends-raise db_error _ (taken clash))
      | inr new ↦ simp (fine, s, new) done
    ]
  ]

  pub Ends-update_reservation :
      (r : Reservation) (f : Unit → M SeatDb Unit) (w : World SeatDb)
      → w.aborted ≡ false
      → Ends X Q (
          f tt (record w {
            db =
                set_tables w.db.own.seat
                  (update (λ row. row.id == r.id) (set_status r.status) w.db.own.reservation)
                  w.db;
            aborted = false;
            tick = w.tick + 1;
          }))
      → Ends X Q ((update_reservation e r >>= f) w)
  unfolding update_reservation
  Ends-update_reservation r f w fine done = elim (Bool-cases (e.fault w.tick)) [
    | inl s ↦ simp (fine, s) (Ends-raise db_error _ (faulty w.tick s))
    | inr s ↦ simp (fine, s) done
  ]
