-- ===== src/Reservations/NoDoubleBooking.antt =====
-- No seat is booked twice: an invariant of the tables `seat` and `reservation`.
use go_saga_outbox.Base.{◌≡◌, refl, sym, inl, inr, List, [], ◌∷◌, All, str_eq, Bool-cases, arith}
use go_saga_outbox.Runtime.{Env, World}
use go_saga_outbox.Inbox.Ends.{unchanged}
use go_saga_outbox.Handling.Ends.{once-KeptOrDone, invariant}
use go_saga_outbox.Kafka.{Message, header_or_empty}
use go_saga_outbox.Contracts.Inventory.{event_type_reserve_seat, event_type_release_seat}
use go_saga_outbox.Reservations.Model.{Seat, SeatDb, new_reservation}
use go_saga_outbox.Reservations.Holders.{
  BookedOnce, NoDoubleBooking, All-find, candidate-free, reserved-All, holders-release_lt,
  released-All,
}
use go_saga_outbox.Reservations.Reserving.{ReservedEffect, handle_reserve_seat_command-Ends}
use go_saga_outbox.Reservations.Releasing.{ReleasedEffect, handle_release_seat_command-Ends}
use go_saga_outbox.Reservations.{
  Codecs, handle_reserve_seat_command, handle_release_seat_command, route,
}

module _ (e : Env) (c : Codecs) (msg : Message) where
  ReservedEffect-NoDoubleBooking :
      (d d' : SeatDb) → ReservedEffect e c msg d d' → NoDoubleBooking d → NoDoubleBooking d'
  ReservedEffect-NoDoubleBooking d d' h inv =
      let (candidate, once) =
        All-find (BookedOnce d.own.reservation) _ d.own.seat h.seat inv h.chosen in
      rw h.tables (
        reserved-All (new_reservation h.id h.cmd.saga_id h.seat.id h.reserved_at) d.own.reservation
          d.own.seat
          (once.1 (candidate-free (e.locked h.looked_at) h.cmd.event_id h.seat candidate)) inv)

  ReleasedEffect-NoDoubleBooking :
      (d d' : SeatDb) → ReleasedEffect e c msg d d' → NoDoubleBooking d → NoDoubleBooking d'
  ReleasedEffect-NoDoubleBooking d d' h inv = rw h.tables (
      released-All h.cmd.seat_id h.reservation.id d.own.reservation d.own.seat
        (rw (sym h.same_seat)
          (holders-release_lt h.cmd.saga_id d.own.reservation h.reservation h.known h.was_held))
        inv)

  after_reserve :
      (w : World SeatDb)
      → NoDoubleBooking w.db
      → NoDoubleBooking (handle_reserve_seat_command e c msg w).1.db
  unfolding handle_reserve_seat_command
  after_reserve w =
      invariant NoDoubleBooking w _ (handle_reserve_seat_command-Ends e c msg w)
        (once-KeptOrDone e _ msg _ w)
        λ d' h p. elim h [
          | inl skipped ↦ rw (unchanged skipped) p
          | inr (inl sold_out) ↦ rw sold_out.tables p
          | inr (inr done) ↦ ReservedEffect-NoDoubleBooking w.db d' done p
        ]

  after_release :
      (w : World SeatDb)
      → NoDoubleBooking w.db
      → NoDoubleBooking (handle_release_seat_command e c msg w).1.db
  unfolding handle_release_seat_command
  after_release w =
      invariant NoDoubleBooking w _ (handle_release_seat_command-Ends e c msg w)
        (once-KeptOrDone e _ msg _ w)
        λ d' h p. elim h [
          | inl skipped ↦ rw (unchanged skipped) p
          | inr (inl nothing) ↦ rw nothing.tables p
          | inr (inr done) ↦ ReleasedEffect-NoDoubleBooking w.db d' done p
        ]

  -- No message makes the inventory service book a seat twice: where at most one held reservation
  -- has a seat, and none a free seat, this is so after `Route` too, whatever the message, however
  -- the statements fail and whatever rows other transactions have locked, and whether the handler
  -- succeeds or fails.
  pub route-NoDoubleBooking :
      (w : World SeatDb) → NoDoubleBooking w.db → NoDoubleBooking (route e c msg w).1.db
  unfolding route
  route-NoDoubleBooking w inv =
      elim (Bool-cases
        (str_eq (header_or_empty "event_type" msg.headers) event_type_reserve_seat)) [
          | inl yeah ↦ simp yeah (after_reserve w inv)
          | inr nope ↦
              elim (Bool-cases
                (str_eq (header_or_empty "event_type" msg.headers) event_type_release_seat)) [
                  | inl yeah ↦ simp (nope, yeah) (after_release w inv)
                  | inr other ↦ simp (nope, other) inv
                ]
        ]

-- The tables that the service can come to: from any seats and no reservation, by any messages, each
-- in a world of its own.
pub data Reachable : SeatDb → Type 0 where
  start :
      (seats : List Seat) (d : SeatDb)
      → d.own ≡ record { seat = seats; reservation = [] }
      → Reachable d
  served :
      (e : Env) (c : Codecs) (msg : Message) (w : World SeatDb)
      → Reachable w.db
      → Reachable (route e c msg w).1.db

start-NoDoubleBooking : (seats : List Seat) → All (BookedOnce []) seats
start-NoDoubleBooking [] = tt
start-NoDoubleBooking (seat ∷ seats) = ((omega arith, λ f. refl), start-NoDoubleBooking seats)

-- In all tables that the service can come to, whatever messages it takes and whatever faults, locks
-- and stops it meets, at most one reservation holds a seat, and none holds a free one.
pub Reachable-NoDoubleBooking : (d : SeatDb) → Reachable d → NoDoubleBooking d
Reachable-NoDoubleBooking _ (start seats d own) = rw own (start-NoDoubleBooking seats)
Reachable-NoDoubleBooking _ (served e c msg w before) =
    route-NoDoubleBooking e c msg w (Reachable-NoDoubleBooking w.db before)
