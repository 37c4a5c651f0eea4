-- ===== src/Reservations/Model.antt =====
-- inventory/internal/model and repo: the tables `seat` and `reservation`.
use go_saga_outbox.Base.{
  ℕ, Bool, true, false, ◌&&◌, ◌||◌, not, Option, none, some, List, ◌∷◌, find, any, select, length,
  update, ◌==◌, if◌then◌else◌,
}
use go_saga_outbox.Runtime.{
  Uuid, Time, no_free_seats, seat_not_found, reservation_not_found, Env, M, pure, raise, statement,
  ◌>>=◌,
}
use go_saga_outbox.Storage.{Db}

pub data SeatStatus : Type 0 where
  reserved free sold : SeatStatus

pub record Seat : Type 0 where
  pub id : Uuid
  pub event_id : Uuid
  pub status : SeatStatus

pub data ReservationStatus : Type 0 where
  held released : ReservationStatus

pub record Reservation : Type 0 where
  pub id : Uuid
  pub saga_id : Uuid
  pub seat_id : Uuid
  pub status : ReservationStatus
  pub created_at : Time

-- `NewReservation`, with the UUID that it draws. (`held` is ReservationStatusReserved.)
abbrev pub new_reservation : Uuid → Uuid → Uuid → Time → Reservation
new_reservation id saga_id seat_id created_at = record {
  id = id;
  saga_id = saga_id;
  seat_id = seat_id;
  status = held;
  created_at = created_at;
}

pub record SeatTables : Type 0 where
  pub seat : List Seat
  pub reservation : List Reservation

abbrev pub SeatDb : Type 0
SeatDb = Db SeatTables

abbrev pub set_tables : List Seat → List Reservation → SeatDb → SeatDb
set_tables seats reservations db = record db {
  own = record { seat = seats; reservation = reservations };
}

abbrev pub status_is_free : SeatStatus → Bool
status_is_free free = true
status_is_free _ = false

abbrev pub status_is_released : ReservationStatus → Bool
status_is_released released = true
status_is_released held = false

-- The `WHERE` clause of `FindFreeSeat`, and the rows that another transaction has locked.
abbrev pub is_candidate : (Uuid → Bool) → Uuid → Seat → Bool
is_candidate locked event_id row =
    row.event_id == event_id && status_is_free row.status && not (locked row.id)

abbrev pub lookup_free : (Uuid → Bool) → Uuid → SeatDb → Option Seat
lookup_free locked event_id db = find (is_candidate locked event_id) db.own.seat

abbrev pub free_seat : Option Seat → M SeatDb Seat
free_seat none = raise no_free_seats
free_seat (some seat) = pure seat

-- `FindFreeSeat`. There is no ORDER BY: the model takes the latest row, and any row can be the
-- latest that is not locked.
unfoldable pub find_free_seat : Env → Uuid → M SeatDb Seat
unfolding statement
find_free_seat e event_id w =
    (statement e (λ db. some (lookup_free (e.locked w.tick) event_id db, db)) >>= free_seat) w

-- `RowsAffected`, and the error where it is 0.
abbrev pub affected : ℕ → M SeatDb Unit
affected n = if n == 0 then raise seat_not_found else pure tt

abbrev pub is_free_at : Uuid → Seat → Bool
is_free_at seat_id row = row.id == seat_id && status_is_free row.status

abbrev pub take_seat : Seat → Seat
take_seat row = record row { status = reserved }

-- `MarkSeatReserved`
unfoldable pub mark_seat_reserved : Env → Uuid → M SeatDb Unit
unfolding statement
mark_seat_reserved e seat_id = do
  n ← statement e (λ db. some (
    length (select (is_free_at seat_id) db.own.seat),
    set_tables (update (is_free_at seat_id) take_seat db.own.seat) db.own.reservation db,
  ))
  affected n

abbrev pub is_at : Uuid → Seat → Bool
is_at seat_id row = row.id == seat_id

abbrev pub free_up : Seat → Seat
free_up row = record row { status = free }

-- `MarkSeatReleased`
unfoldable pub mark_seat_released : Env → Uuid → M SeatDb Unit
unfolding statement
mark_seat_released e seat_id = do
  n ← statement e (λ db. some (
    length (select (is_at seat_id) db.own.seat),
    set_tables (update (is_at seat_id) free_up db.own.seat) db.own.reservation db,
  ))
  affected n

-- The keys `id` and `saga_id`.
abbrev pub clashes : Reservation → Reservation → Bool
clashes r row = row.id == r.id || row.saga_id == r.saga_id

abbrev pub create_row : Reservation → SeatDb → Option (Unit {0} × SeatDb)
create_row r db =
    if any (clashes r) db.own.reservation
    then none
    else some (tt, set_tables db.own.seat (record r { status = held } ∷ db.own.reservation) db)

-- `Create`
unfoldable pub create : Env → Reservation → M SeatDb Unit
unfolding statement
create e r = statement e (create_row r)

abbrev pub lookup_reservation : Uuid → SeatDb → Option Reservation
lookup_reservation saga_id db = find (λ row. row.saga_id == saga_id) db.own.reservation

abbrev pub found : Option Reservation → M SeatDb Reservation
found none = raise reservation_not_found
found (some r) = pure r

-- `FindBySagaID`
unfoldable pub find_by_saga_id : Env → Uuid → M SeatDb Reservation
unfolding statement
find_by_saga_id e saga_id = do
  row ← statement e (λ db. some (lookup_reservation saga_id db, db))
  found row

abbrev pub set_status : ReservationStatus → Reservation → Reservation
set_status status row = record row { status = status }

-- `Update`
unfoldable pub update_reservation : Env → Reservation → M SeatDb Unit
unfolding statement
update_reservation e r = statement e (λ db. some (
  tt,
  set_tables db.own.seat (update (λ row. row.id == r.id) (set_status r.status) db.own.reservation)
      db,
))
