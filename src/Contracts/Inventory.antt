-- ===== src/Contracts/Inventory.antt =====
-- pkg/contracts/inventory
use go_saga_outbox.Base.{String}
use go_saga_outbox.Runtime.{Uuid}

abbrev pub topic_commands : String
topic_commands = "saga.inventory.commands"

abbrev pub event_type_reserve_seat : String
event_type_reserve_seat = "reserve.command"

abbrev pub event_type_release_seat : String
event_type_release_seat = "release.command"

pub record ReserveSeat : Type 0 where
  pub saga_id : Uuid
  pub event_id : Uuid
  pub user_id : Uuid

abbrev pub new_reserve_seat : Uuid → Uuid → Uuid → ReserveSeat
new_reserve_seat saga_id event_id user_id = record {
  saga_id = saga_id;
  event_id = event_id;
  user_id = user_id;
}

pub record ReleaseSeat : Type 0 where
  pub saga_id : Uuid
  pub reservation_id : Uuid
  pub seat_id : Uuid

abbrev pub new_release_seat : Uuid → Uuid → Uuid → ReleaseSeat
new_release_seat saga_id reservation_id seat_id = record {
  saga_id = saga_id;
  reservation_id = reservation_id;
  seat_id = seat_id;
}

abbrev pub topic_events : String
topic_events = "saga.inventory.events"

abbrev pub event_type_seat_reserved : String
event_type_seat_reserved = "seat.reserved"

abbrev pub event_type_seat_reservation_failed : String
event_type_seat_reservation_failed = "seat.reservation_failed"

abbrev pub event_type_seat_released : String
event_type_seat_released = "seat.released"

pub record SeatReserved : Type 0 where
  pub reservation_id : Uuid
  pub seat_id : Uuid
  pub event_id : Uuid
  pub user_id : Uuid

abbrev pub new_seat_reserved : Uuid → Uuid → Uuid → Uuid → SeatReserved
new_seat_reserved reservation_id seat_id event_id user_id = record {
  reservation_id = reservation_id;
  seat_id = seat_id;
  event_id = event_id;
  user_id = user_id;
}

pub record SeatReservationFailed : Type 0 where
  pub saga_id : Uuid
  pub event_id : Uuid
  pub user_id : Uuid
  pub reason : String

abbrev pub new_seat_reservation_failed : Uuid → Uuid → Uuid → String → SeatReservationFailed
new_seat_reservation_failed saga_id event_id user_id reason = record {
  saga_id = saga_id;
  event_id = event_id;
  user_id = user_id;
  reason = reason;
}

pub record SeatReleased : Type 0 where
  pub saga_id : Uuid
  pub seat_id : Uuid
  pub reservation_id : Uuid

abbrev pub new_seat_released : Uuid → Uuid → Uuid → SeatReleased
new_seat_released saga_id seat_id reservation_id = record {
  saga_id = saga_id;
  seat_id = seat_id;
  reservation_id = reservation_id;
}
