-- ===== src/Reservations/Reserving.antt =====
-- `HandleReserveSeatCommand` does what its abstract description says.
use go_saga_outbox.Base.{
  ℕ, ◌+◌, ◌≡◌, refl, ◌⊎◌, inl, inr, true, none, some, ◌∷◌, any, update, Bool-cases, Option-cases,
}
use go_saga_outbox.Runtime.{Uuid, Time, Bytes, Error, db_error, good, bad, Env, World}
use go_saga_outbox.Runtime.Ends.{Ends, Ends-lift, Ends-raise}
use go_saga_outbox.Storage.{new_inbox}
use go_saga_outbox.Contracts.{MessageHeaders, new_message_headers}
use go_saga_outbox.Contracts.Inventory.{
  ReserveSeat, SeatReserved, SeatReservationFailed, new_seat_reserved, new_seat_reservation_failed,
  topic_events, event_type_seat_reserved, event_type_seat_reservation_failed,
}
use go_saga_outbox.Inbox.Ends.{Unwritten, repeated, lost}
use go_saga_outbox.Outbox.{has_id}
use go_saga_outbox.Kafka.{Message}
use go_saga_outbox.Handling.Ends.{event_row, Ends-once, Ends-emit_last}
use go_saga_outbox.Reservations.Model.{
  Seat, Reservation, new_reservation, SeatDb, lookup_free, find_free_seat, is_free_at, take_seat,
  clashes,
}
use go_saga_outbox.Reservations.Rules.{Ends-mark_seat_reserved, Ends-create}
use go_saga_outbox.Reservations.{
  Codecs, consumer_name, aggregate_type_reservation, emit, handle_reserve_seat_command,
}

module _ (e : Env) (c : Codecs) where
  -- Why a reservation can fail.
  pub data ReserveRefusal (msg : Message) (d : SeatDb) (x : Error) : Type 0 where
    struck : (n : ℕ) → e.fault n ≡ true → x ≡ db_error → ReserveRefusal msg d x
    bad_value : c.reserves.unmarshal msg.value ≡ bad x → ReserveRefusal msg d x
    key_taken :
        (cmd : ReserveSeat) (r : Reservation)
        → c.reserves.unmarshal msg.value ≡ good cmd
        → r.saga_id ≡ cmd.saga_id
        → any (clashes r) d.own.reservation ≡ true
        → x ≡ db_error
        → ReserveRefusal msg d x
    row_taken :
        (n : ℕ) → any (has_id (e.fresh n)) d.outbox ≡ true → x ≡ db_error → ReserveRefusal msg d x
    bad_event : (v : SeatReserved) → c.reserved.marshal v ≡ bad x → ReserveRefusal msg d x
    bad_failure :
        (v : SeatReservationFailed) → c.failures.marshal v ≡ bad x → ReserveRefusal msg d x
    bad_headers : (v : MessageHeaders) → c.headers.marshal v ≡ bad x → ReserveRefusal msg d x

  -- The event has no free seat that no other transaction has locked, and one event says so.
  pub record SoldOut (msg : Message) (d d' : SeatDb) : Type 0 where
    pub cmd : ReserveSeat
    pub looked_at : ℕ
    pub event_id : Uuid
    pub event : Bytes
    pub headers : Bytes
    pub processed_at : Time
    pub created_at : Time
    pub decoded : c.reserves.unmarshal msg.value ≡ good cmd
    pub no_seat : lookup_free (e.locked looked_at) cmd.event_id d ≡ none
    pub event_json :
        c.failures.marshal
          (new_seat_reservation_failed cmd.saga_id cmd.event_id cmd.user_id "no seats available")
        ≡ good event
    pub headers_json :
        c.headers.marshal (
          new_message_headers event_id cmd.saga_id
            (some msg.message_id)
            event_type_seat_reservation_failed)
        ≡ good headers
    pub tables : d' ≡ record d {
      inbox = new_inbox msg.message_id consumer_name processed_at ∷ d.inbox;
      outbox =
          event_row aggregate_type_reservation topic_events event_id 0 cmd.saga_id event headers
            created_at
          ∷ d.outbox;
    }

  -- A free seat of the event is taken, the saga's reservation of it is stored, and one event says
  -- so.
  pub record ReservedEffect (msg : Message) (d d' : SeatDb) : Type 0 where
    pub cmd : ReserveSeat
    pub looked_at : ℕ
    pub seat : Seat
    pub id : Uuid
    pub event_id : Uuid
    pub event : Bytes
    pub headers : Bytes
    pub processed_at : Time
    pub reserved_at : Time
    pub created_at : Time
    pub decoded : c.reserves.unmarshal msg.value ≡ good cmd
    pub chosen : lookup_free (e.locked looked_at) cmd.event_id d ≡ some seat
    pub event_json :
        c.reserved.marshal (new_seat_reserved id seat.id cmd.event_id cmd.user_id) ≡ good event
    pub headers_json :
        c.headers.marshal
          (new_message_headers event_id cmd.saga_id (some msg.message_id) event_type_seat_reserved)
        ≡ good headers
    pub tables : d' ≡ record {
      inbox = new_inbox msg.message_id consumer_name processed_at ∷ d.inbox;
      outbox =
          event_row aggregate_type_reservation topic_events event_id id cmd.saga_id event headers
            created_at
          ∷ d.outbox;
      dead_message = d.dead_message;
      own = record {
        seat = update (is_free_at seat.id) take_seat d.own.seat;
        reservation = new_reservation id cmd.saga_id seat.id reserved_at ∷ d.own.reservation;
      };
    }

  pub handle_reserve_seat_command-Ends :
      (msg : Message) (w : World SeatDb)
      → Ends
          (ReserveRefusal msg w.db)
          (λ _ d'.
            Unwritten e consumer_name msg.message_id w.db d'
            ⊎ SoldOut msg w.db d'
            ⊎ ReservedEffect msg w.db d')
          (handle_reserve_seat_command e c msg w)
  unfolding handle_reserve_seat_command find_free_seat emit
  handle_reserve_seat_command-Ends msg w =
      Ends-once e (λ n h. struck n h refl) consumer_name msg _ w (λ dup. inl (repeated dup refl))
        (λ n h. inl (lost n h refl))
        λ at k.
          Ends-lift _ _ _ (λ x b. bad_value b)
            λ cmd decoded. elim (Bool-cases (e.fault k)) [
              | inl s ↦ simp s (Ends-raise db_error _ (struck k s refl))
              | inr s ↦ elim (Option-cases (lookup_free (e.locked k) cmd.event_id w.db)) [
                | inl no_seat ↦
                    simp (s, no_seat)
                      (Ends-emit_last e (λ n h. struck n h refl) c.headers c.failures
                        aggregate_type_reservation topic_events 0 cmd.saga_id
                        event_type_seat_reservation_failed _ msg.message_id _ refl
                        (λ n h. row_taken n h refl) (λ x b. bad_failure _ b)
                        (λ x h b. bad_headers h b)
                        λ event_id created_at event headers event_json headers_json. inr (
                          inl (record {
                            cmd = cmd;
                            looked_at = k;
                            event_id = event_id;
                            event = event;
                            headers = headers;
                            processed_at = at;
                            created_at = created_at;
                            decoded = decoded;
                            no_seat = no_seat;
                            event_json = event_json;
                            headers_json = headers_json;
                            tables = refl;
                          })))
                | inr (seat, chosen) ↦
                    simp (s, chosen)
                      (Ends-mark_seat_reserved e (λ n h. struck n h refl) (e.locked k) cmd.event_id
                        seat _ _ refl chosen
                        (Ends-create e (λ n h. struck n h refl)
                          (new_reservation (e.fresh (k + 1 + 1 + 1)) cmd.saga_id seat.id
                            (e.now (k + 1 + 1)))
                          _ _ refl
                          (λ clash.
                            key_taken cmd
                              (new_reservation (e.fresh (k + 1 + 1 + 1)) cmd.saga_id seat.id
                                (e.now (k + 1 + 1)))
                              decoded refl clash refl)
                          (Ends-emit_last e (λ n h. struck n h refl) c.headers c.reserved
                            aggregate_type_reservation topic_events _ cmd.saga_id
                            event_type_seat_reserved _ msg.message_id _ refl
                            (λ n h. row_taken n h refl) (λ x b. bad_event _ b)
                            (λ x h b. bad_headers h b)
                            λ event_id created_at event headers event_json headers_json. inr (
                              inr (record {
                                cmd = cmd;
                                looked_at = k;
                                seat = seat;
                                id = e.fresh (k + 1 + 1 + 1);
                                event_id = event_id;
                                event = event;
                                headers = headers;
                                processed_at = at;
                                reserved_at = e.now (k + 1 + 1);
                                created_at = created_at;
                                decoded = decoded;
                                chosen = chosen;
                                event_json = event_json;
                                headers_json = headers_json;
                                tables = refl;
                              })))))
              ]
            ]
