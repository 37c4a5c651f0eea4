-- ===== src/Reservations/Holders.antt =====
-- Who holds a seat: at most one reservation, and how taking and releasing a seat keeps that.
use go_saga_outbox.Base.{
  ℕ, suc, ◌≤◌, ◌≡◌, refl, sym, inl, inr, Bool, true, false, ◌&&◌, not, some, List, [], ◌∷◌, find,
  update, All, ◌==◌, ==_iff, ==_refl, if◌then◌else◌, Bool-cases, arith,
}
use go_saga_outbox.Runtime.{Uuid}
use go_saga_outbox.Reservations.Model.{
  Seat, Reservation, released, SeatDb, status_is_free, status_is_released, is_candidate, is_free_at,
  is_at, take_seat, free_up, set_status,
}

-- The row is a reservation of the seat that is not released.
abbrev pub holds : Uuid → Reservation → Bool
holds seat_id r = r.seat_id == seat_id && not (status_is_released r.status)

-- How many hold the seat.
abbrev pub holders : Uuid → List Reservation → ℕ
holders seat_id [] = 0
holders seat_id (r ∷ rs) =
    let rest = holders seat_id rs in if holds seat_id r then suc rest else rest

-- At most one reservation holds a seat, and none a free one.
abbrev pub BookedOnce : List Reservation → Seat → Type 0
BookedOnce rs seat =
    (holders seat.id rs ≤ 1) × (status_is_free seat.status ≡ true → holders seat.id rs ≡ 0)

abbrev pub NoDoubleBooking : SeatDb → Type 0
NoDoubleBooking d = All (BookedOnce d.own.reservation) d.own.seat

-- The invariant of the chosen row.
pub All-find :
    (P : Seat → Type 0) (p : Seat → Bool) (rows : List Seat) (seat : Seat)
    → All P rows
    → find p rows ≡ some seat
    → (p seat ≡ true) × P seat
All-find P p [] seat h f = cc
All-find P p (row ∷ rows) seat (h, hs) f = elim (Bool-cases (p row)) [
  | inl yeah ↦ rw (sym (here (simp yeah at f))) (yeah, h)
  | inr nope ↦ All-find P p rows seat hs (simp nope at f)
]
  where
    here : some row ≡ some seat → row ≡ seat
    here g = cc

pub candidate-free :
    (locked : Uuid → Bool) (event_id : Uuid) (row : Seat)
    → is_candidate locked event_id row ≡ true
    → status_is_free row.status ≡ true
candidate-free locked event_id row h = ground arith

-- A seat that is not free may get its one holder, and another seat gets none.
taken :
    (r : Reservation) (rs : List Reservation) (seat : Seat)
    → holders seat.id rs ≡ 0
    → status_is_free seat.status ≡ false
    → BookedOnce (r ∷ rs) seat
taken r rs seat none_holds sold = elim (Bool-cases (holds seat.id r)) [
  | inl yeah ↦ simp (yeah, none_holds) (ground arith, λ f. absurd (false_true f))
  | inr nope ↦ simp (nope, none_holds) (ground arith, λ f. refl)
]
  where
    false_true : status_is_free seat.status ≡ true → ⊥
    false_true f = cc

untouched :
    (r : Reservation) (rs : List Reservation) (seat : Seat)
    → (seat.id == r.seat_id) ≡ false
    → BookedOnce rs seat
    → BookedOnce (r ∷ rs) seat
untouched r rs seat other h = simp (holds_not other) h
  where
    holds_not : (seat.id == r.seat_id) ≡ false → holds seat.id r ≡ false
    holds_not d = ground arith

-- After a reservation.
reserved-BookedOnce :
    (r : Reservation) (rs : List Reservation) (seat : Seat)
    → holders r.seat_id rs ≡ 0
    → BookedOnce rs seat
    → BookedOnce (r ∷ rs) (if is_free_at r.seat_id seat then take_seat seat else seat)
reserved-BookedOnce r rs seat none_holds h = moved (is_free_at r.seat_id seat) refl
  where
    at_seat : (seat.id == r.seat_id) ≡ true → holders seat.id rs ≡ 0
    at_seat same = rw ((==_iff seat.id r.seat_id).0 same) none_holds

    meets : is_free_at r.seat_id seat ≡ true → (seat.id == r.seat_id) ≡ true
    meets b = ground arith

    misses :
        is_free_at r.seat_id seat ≡ false
        → (seat.id == r.seat_id) ≡ true
        → status_is_free seat.status ≡ false
    misses b same = simp same at b

    moved :
        (b : Bool)
        → is_free_at r.seat_id seat ≡ b
        → BookedOnce (r ∷ rs) (if b then take_seat seat else seat)
    moved true b = taken r rs (take_seat seat) (at_seat (meets b)) refl
    moved false b = elim (Bool-cases (seat.id == r.seat_id)) [
      | inl same ↦ taken r rs seat (at_seat same) (misses b same)
      | inr other ↦ untouched r rs seat other h
    ]

pub reserved-All :
    (r : Reservation) (rs : List Reservation) (rows : List Seat)
    → holders r.seat_id rs ≡ 0
    → All (BookedOnce rs) rows
    → All (BookedOnce (r ∷ rs)) (update (is_free_at r.seat_id) take_seat rows)
reserved-All r rs [] none_holds h = tt
reserved-All r rs (row ∷ rows) none_holds (h, hs) =
    (reserved-BookedOnce r rs row none_holds h, reserved-All r rs rows none_holds hs)

-- A release takes no holder away that it should not, and takes the one of the reservation.
abbrev pub release : Uuid → List Reservation → List Reservation
release id rs = update (λ row. row.id == id) (set_status released) rs

holders-release_le :
    (seat_id id : Uuid) (rs : List Reservation)
    → holders seat_id (release id rs) ≤ holders seat_id rs
holders-release_le seat_id id [] = omega arith
holders-release_le seat_id id (r ∷ rs) = let rest = holders-release_le seat_id id rs in ground arith

pub holders-release_lt :
    (saga_id : Uuid) (rs : List Reservation) (r : Reservation)
    → find (λ row. row.saga_id == saga_id) rs ≡ some r
    → status_is_released r.status ≡ false
    → suc (holders r.seat_id (release r.id rs)) ≤ holders r.seat_id rs
holders-release_lt saga_id [] r f h = cc
holders-release_lt saga_id (row ∷ rows) r f h = elim (Bool-cases (row.saga_id == saga_id)) [
  | inl yeah ↦ rw (here (simp yeah at f)) (first r h)
  | inr nope ↦ let rest = holders-release_lt saga_id rows r (simp nope at f) h in ground arith
]
  where
    here : some row ≡ some r → row ≡ r
    here g = cc

    first :
        (r : Reservation)
        → status_is_released r.status ≡ false
        → suc (holders r.seat_id (release r.id (r ∷ rows))) ≤ holders r.seat_id (r ∷ rows)
    first r h =
        let rest = holders-release_le r.seat_id r.id rows in
        simp (h, ==_refl r.id, ==_refl r.seat_id) (omega arith)

-- After a release of the reservation `id`, which held the seat.
released-BookedOnce :
    (seat_id id : Uuid) (rs : List Reservation) (seat : Seat)
    → suc (holders seat_id (release id rs)) ≤ holders seat_id rs
    → BookedOnce rs seat
    → BookedOnce (release id rs) (if is_at seat_id seat then free_up seat else seat)
released-BookedOnce seat_id id rs seat fewer h = moved (is_at seat_id seat) refl
  where
    moved :
        (b : Bool)
        → is_at seat_id seat ≡ b
        → BookedOnce (release id rs) (if b then free_up seat else seat)
    moved true b =
        let gone : suc (holders seat.id (release id rs)) ≤ holders seat.id rs =
          rw ((==_iff seat.id seat_id).0 b) fewer in
        let once : holders seat.id rs ≤ 1 = h.0 in (omega arith, λ f. omega arith)
    moved false b =
        let no_more = holders-release_le seat.id id rs in
        let once : holders seat.id rs ≤ 1 = h.0 in
        (omega arith, λ f. let before = h.1 f in omega arith)

pub released-All :
    (seat_id id : Uuid) (rs : List Reservation) (rows : List Seat)
    → suc (holders seat_id (release id rs)) ≤ holders seat_id rs
    → All (BookedOnce rs) rows
    → All (BookedOnce (release id rs)) (update (is_at seat_id) free_up rows)
released-All seat_id id rs [] fewer h = tt
released-All seat_id id rs (row ∷ rows) fewer (h, hs) =
    (released-BookedOnce seat_id id rs row fewer h, released-All seat_id id rs rows fewer hs)
