-- ===== src/Tests/Reserving.antt =====
-- The inventory service: two seats of an event, a reservation and its release.
use go_saga_outbox.Base.{◌≡◌, refl, [], ◌∷◌}
use go_saga_outbox.Runtime.{ok}
use go_saga_outbox.Runtime.Ends.{Ends}
use go_saga_outbox.Reservations.Model.{SeatDb, free, sold, reserved, held}
use go_saga_outbox.Reservations.Holders.{NoDoubleBooking}
use go_saga_outbox.Reservations.{
  Codecs, handle_reserve_seat_command, handle_release_seat_command, route,
}
use go_saga_outbox.Reservations.NoDoubleBooking.{start, served, Reachable-NoDoubleBooking}
use go_saga_outbox.Tests.{calm, codecs, world, message, read_only, write_only}

abbrev pub seat_codecs : Codecs
seat_codecs = record {
  headers = codecs.headers;
  reserves = read_only (record { saga_id = 7; event_id = 3; user_id = 4 });
  releases = read_only (record { saga_id = 7; reservation_id = 5; seat_id = 6 });
  reserved = write_only λ v. v.reservation_id ∷ v.seat_id ∷ [];
  failures = write_only λ v. v.saga_id ∷ [];
  released = write_only λ v. v.saga_id ∷ v.seat_id ∷ [];
}

-- A free seat of event 3, and one that is sold.
abbrev pub for_sale : SeatDb
for_sale = record {
  inbox = [];
  outbox = [];
  dead_message = [];
  own = record {
    seat =
        record { id = 6; event_id = 3; status = free }
        ∷ record { id = 9; event_id = 3; status = sold }
        ∷ [];
    reservation = [];
  };
}

-- The call succeeds there.
reserve_ok :
    (handle_reserve_seat_command calm seat_codecs (message "reserve.command") (world for_sale)).0
    ≡ ok tt
unfolding handle_reserve_seat_command
reserve_ok = refl

-- Saga 7 holds seat 6.
abbrev taken : SeatDb
taken = record for_sale {
  own = record {
    seat = record { id = 6; event_id = 3; status = reserved } ∷ [];
    reservation = record { id = 5; saga_id = 7; seat_id = 6; status = held; created_at = 0 } ∷ [];
  };
}

-- The call succeeds there.
release_ok :
    (handle_release_seat_command calm seat_codecs (message "release.command") (world taken)).0
    ≡ ok tt
unfolding handle_release_seat_command
release_ok = refl

-- After a reservation.
Reachable-NoDoubleBooking_example :
    NoDoubleBooking (route calm seat_codecs (message "reserve.command") (world for_sale)).1.db
Reachable-NoDoubleBooking_example =
    Reachable-NoDoubleBooking
      ((route calm seat_codecs (message "reserve.command") (world for_sale)).1.db)
      (served calm seat_codecs (message "reserve.command") (world for_sale)
        (start for_sale.own.seat for_sale refl))

-- The reservation is there.
reached :
    (route calm seat_codecs (message "reserve.command") (world for_sale)).1.db.own.seat
    ≡ record { id = 6; event_id = 3; status = reserved }
      ∷ record { id = 9; event_id = 3; status = sold }
      ∷ []
unfolding route
reached = refl
