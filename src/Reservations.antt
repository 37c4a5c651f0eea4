-- ===== src/Reservations.antt =====
-- The inventory service: inventory/internal/model, repo, service and consumer/router.go.
pub mod Model
pub mod Rules
pub mod Holders
pub mod Reserving
pub mod Releasing
pub mod NoDoubleBooking
use go_saga_outbox.Base.{
  ℕ, String, Bool, true, false, not, Option, none, some, str_eq, ◌==◌, if◌then◌else◌,
}
use go_saga_outbox.Runtime.{
  Uuid, no_free_seats, reservation_not_found, seats_mismatch, Outcome, ok, err, panic, Codec, Env,
  M, pure, raise, crash, lift, now, v7, ◌>>=◌, ◌>>◌,
}
use go_saga_outbox.Storage.{Db}
use go_saga_outbox.Contracts.{MessageHeaders}
use go_saga_outbox.Contracts.Inventory.{
  ReserveSeat, ReleaseSeat, SeatReserved, SeatReservationFailed, SeatReleased, new_seat_reserved,
  new_seat_reservation_failed, new_seat_released, topic_events, event_type_reserve_seat,
  event_type_release_seat, event_type_seat_reserved, event_type_seat_reservation_failed,
  event_type_seat_released,
}
use go_saga_outbox.Handling
use go_saga_outbox.Handling.{once}
use go_saga_outbox.Kafka.{Message, Handler, header_or_empty}
use go_saga_outbox.Reservations.Model.{
  Seat, Reservation, released, new_reservation, SeatDb, status_is_released, find_free_seat,
  mark_seat_reserved, mark_seat_released, create, find_by_saga_id, update_reservation,
}

-- JSON at the types that the service encodes and decodes.
pub record Codecs : Type 0 where
  pub headers : Codec MessageHeaders
  pub reserves : Codec ReserveSeat
  pub releases : Codec ReleaseSeat
  pub reserved : Codec SeatReserved
  pub failures : Codec SeatReservationFailed
  pub released : Codec SeatReleased

abbrev pub consumer_name : String
consumer_name = "inventory"

abbrev pub aggregate_type_reservation : String
aggregate_type_reservation = "reservation"

module _ (e : Env) (c : Codecs) where
  -- `emit`
  emit : {P : Type 0} → Codec P → Uuid → Uuid → Uuid → P → String → M SeatDb Unit
  unfolding Handling.emit
  emit codec aggregate_id saga_id causation_id payload event_type =
      Handling.emit e c.headers codec aggregate_type_reservation topic_events aggregate_id saga_id
        event_type payload causation_id

  -- What the handler does with the result of the look-up.
  reserve_found : ReserveSeat → Message → Outcome Seat → M SeatDb Unit
  unfolding emit mark_seat_reserved create
  reserve_found cmd msg (ok seat) = do
    mark_seat_reserved e seat.id
    at ← now e
    id ← v7 e
    let reservation = new_reservation id cmd.saga_id seat.id at
    create e reservation
    emit c.reserved reservation.id cmd.saga_id msg.message_id
        (new_seat_reserved reservation.id seat.id cmd.event_id cmd.user_id) event_type_seat_reserved
  reserve_found cmd msg (err no_free_seats) =
      emit c.failures 0 cmd.saga_id msg.message_id
        (new_seat_reservation_failed cmd.saga_id cmd.event_id cmd.user_id "no seats available")
        event_type_seat_reservation_failed
  reserve_found cmd msg (err x) = raise x
  reserve_found cmd msg panic = crash

  on_reserve : Message → M SeatDb Unit
  unfolding find_free_seat reserve_found
  on_reserve msg = do
    cmd ← lift (c.reserves.unmarshal msg.value)
    λ w. let (r, w') = find_free_seat e cmd.event_id w in reserve_found cmd msg r w'

  unfoldable pub handle_reserve_seat_command : Message → M SeatDb Unit
  unfolding once on_reserve
  handle_reserve_seat_command msg = once e consumer_name msg (on_reserve msg)

  -- What the handler does with the result of the look-up.
  release_found : ReleaseSeat → Message → Outcome Reservation → M SeatDb Unit
  unfolding emit mark_seat_released update_reservation
  release_found cmd msg (ok reservation) =
      if status_is_released reservation.status
      then pure tt
      else if not (reservation.seat_id == cmd.seat_id)
      then raise seats_mismatch
      else do
        mark_seat_released e cmd.seat_id
        update_reservation e (record reservation { status = released })
        emit c.released reservation.id cmd.saga_id msg.message_id
            (new_seat_released cmd.saga_id cmd.seat_id cmd.reservation_id) event_type_seat_released
  release_found cmd msg (err reservation_not_found) = pure tt
  release_found cmd msg (err x) = raise x
  release_found cmd msg panic = crash

  on_release : Message → M SeatDb Unit
  unfolding find_by_saga_id release_found
  on_release msg = do
    cmd ← lift (c.releases.unmarshal msg.value)
    λ w. let (r, w') = find_by_saga_id e cmd.saga_id w in release_found cmd msg r w'

  unfoldable pub handle_release_seat_command : Message → M SeatDb Unit
  unfolding once on_release
  handle_release_seat_command msg = once e consumer_name msg (on_release msg)

  -- `Route`
  unfoldable pub route : Handler SeatDb
  unfolding handle_reserve_seat_command handle_release_seat_command
  route msg =
      let event_type = header_or_empty "event_type" msg.headers in
      if str_eq event_type event_type_reserve_seat
      then handle_reserve_seat_command msg
      else if str_eq event_type event_type_release_seat
      then handle_release_seat_command msg
      else pure tt
