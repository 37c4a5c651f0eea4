-- ===== src/Reservations/Releasing.antt =====
-- `HandleReleaseSeatCommand` does what its abstract description says.
use go_saga_outbox.Base.{
  ℕ, ◌≡◌, refl, ◌⊎◌, inl, inr, true, false, none, some, ◌∷◌, any, select, length, update, ◌==◌,
  ==_iff, Bool-cases, Option-cases,
}
use go_saga_outbox.Runtime.{
  Uuid, Time, Bytes, Error, db_error, seats_mismatch, seat_not_found, good, bad, Env, World,
}
use go_saga_outbox.Runtime.Ends.{Ends, Ends-lift, Ends-pure, Ends-raise}
use go_saga_outbox.Storage.{new_inbox}
use go_saga_outbox.Contracts.{MessageHeaders, new_message_headers}
use go_saga_outbox.Contracts.Inventory.{
  ReleaseSeat, SeatReleased, new_seat_released, topic_events, event_type_seat_released,
}
use go_saga_outbox.Inbox.Ends.{Unwritten, repeated, lost}
use go_saga_outbox.Outbox.{has_id}
use go_saga_outbox.Kafka.{Message}
use go_saga_outbox.Handling.Ends.{event_row, Ends-once, Ends-emit_last}
use go_saga_outbox.Reservations.Model.{
  Reservation, released, SeatDb, status_is_released, is_at, free_up, set_status, lookup_reservation,
  find_by_saga_id,
}
use go_saga_outbox.Reservations.Rules.{Ends-mark_seat_released, Ends-update_reservation}
use go_saga_outbox.Reservations.{
  Codecs, consumer_name, aggregate_type_reservation, emit, handle_release_seat_command,
}

module _ (e : Env) (c : Codecs) where
  -- Why a release can fail.
  pub data ReleaseRefusal (msg : Message) (d : SeatDb) (x : Error) : Type 0 where
    struck : (n : ℕ) → e.fault n ≡ true → x ≡ db_error → ReleaseRefusal msg d x
    bad_value : c.releases.unmarshal msg.value ≡ bad x → ReleaseRefusal msg d x
    other_seat :
        (cmd : ReleaseSeat) (r : Reservation)
        → c.releases.unmarshal msg.value ≡ good cmd
        → lookup_reservation cmd.saga_id d ≡ some r
        → (r.seat_id == cmd.seat_id) ≡ false
        → x ≡ seats_mismatch
        → ReleaseRefusal msg d x
    no_seat :
        (cmd : ReleaseSeat)
        → c.releases.unmarshal msg.value ≡ good cmd
        → (length (select (is_at cmd.seat_id) d.own.seat) == 0) ≡ true
        → x ≡ seat_not_found
        → ReleaseRefusal msg d x
    row_taken :
        (n : ℕ) → any (has_id (e.fresh n)) d.outbox ≡ true → x ≡ db_error → ReleaseRefusal msg d x
    bad_event : (v : SeatReleased) → c.released.marshal v ≡ bad x → ReleaseRefusal msg d x
    bad_headers : (v : MessageHeaders) → c.headers.marshal v ≡ bad x → ReleaseRefusal msg d x

  -- There is nothing to release, and the message is only noted: the saga has no reservation, or
  -- its reservation was released before.
  pub record NothingToRelease (msg : Message) (d d' : SeatDb) : Type 0 where
    pub cmd : ReleaseSeat
    pub processed_at : Time
    pub decoded : c.releases.unmarshal msg.value ≡ good cmd
    pub reason :
        (lookup_reservation cmd.saga_id d ≡ none)
        ⊎ ((r : Reservation) × (lookup_reservation cmd.saga_id d ≡ some r)
            × (status_is_released r.status ≡ true))
    pub tables :
        d' ≡ record d { inbox = new_inbox msg.message_id consumer_name processed_at ∷ d.inbox }

  -- The seat of the saga's held reservation is free again, the reservation is released, and one
  -- event says so.
  pub record ReleasedEffect (msg : Message) (d d' : SeatDb) : Type 0 where
    pub cmd : ReleaseSeat
    pub reservation : Reservation
    pub event_id : Uuid
    pub event : Bytes
    pub headers : Bytes
    pub processed_at : Time
    pub created_at : Time
    pub decoded : c.releases.unmarshal msg.value ≡ good cmd
    pub known : lookup_reservation cmd.saga_id d ≡ some reservation
    pub was_held : status_is_released reservation.status ≡ false
    pub same_seat : reservation.seat_id ≡ cmd.seat_id
    pub event_json :
        c.released.marshal (new_seat_released cmd.saga_id cmd.seat_id cmd.reservation_id)
        ≡ good event
    pub headers_json :
        c.headers.marshal
          (new_message_headers event_id cmd.saga_id (some msg.message_id) event_type_seat_released)
        ≡ good headers
    pub tables : d' ≡ record {
      inbox = new_inbox msg.message_id consumer_name processed_at ∷ d.inbox;
      outbox =
          event_row aggregate_type_reservation topic_events event_id reservation.id cmd.saga_id
            event headers created_at
          ∷ d.outbox;
      dead_message = d.dead_message;
      own = record {
        seat = update (is_at cmd.seat_id) free_up d.own.seat;
        reservation =
            update (λ row. row.id == reservation.id) (set_status released) d.own.reservation;
      };
    }

  pub handle_release_seat_command-Ends :
      (msg : Message) (w : World SeatDb)
      → Ends
          (ReleaseRefusal msg w.db)
          (λ _ d'.
            Unwritten e consumer_name msg.message_id w.db d'
            ⊎ NothingToRelease msg w.db d'
            ⊎ ReleasedEffect msg w.db d')
          (handle_release_seat_command e c msg w)
  unfolding handle_release_seat_command find_by_saga_id emit
  handle_release_seat_command-Ends msg w =
      Ends-once e (λ n h. struck n h refl) consumer_name msg _ w (λ dup. inl (repeated dup refl))
        (λ n h. inl (lost n h refl))
        λ at k.
          Ends-lift _ _ _ (λ x b. bad_value b)
            λ cmd decoded. elim (Bool-cases (e.fault k)) [
              | inl s ↦ simp s (Ends-raise db_error _ (struck k s refl))
              | inr s ↦ elim (Option-cases (lookup_reservation cmd.saga_id w.db)) [
                | inl missing ↦
                    simp (s, missing)
                      (Ends-pure tt _ refl (
                        inr (
                          inl (record {
                            cmd = cmd;
                            processed_at = at;
                            decoded = decoded;
                            reason = inl missing;
                            tables = refl;
                          }))))
                | inr (reservation, known) ↦
                    elim (Bool-cases (status_is_released reservation.status)) [
                      | inl before ↦
                          simp (s, known, before)
                            (Ends-pure tt _ refl (
                              inr (
                                inl (record {
                                  cmd = cmd;
                                  processed_at = at;
                                  decoded = decoded;
                                  reason = inr (reservation, known, before);
                                  tables = refl;
                                }))))
                      | inr still ↦ elim (Bool-cases (reservation.seat_id == cmd.seat_id)) [
                        | inr other ↦
                            simp (s, known, still, other)
                              (Ends-raise seats_mismatch _
                                (other_seat cmd reservation decoded known other refl))
                        | inl same ↦
                            simp (s, known, still, same)
                              (Ends-mark_seat_released e (λ n h. struck n h refl) cmd.seat_id _ _
                                refl (λ gone. no_seat cmd decoded gone refl)
                                (Ends-update_reservation e (λ n h. struck n h refl)
                                  (record reservation { status = released }) _ _ refl
                                  (Ends-emit_last e (λ n h. struck n h refl) c.headers c.released
                                    aggregate_type_reservation topic_events reservation.id
                                    cmd.saga_id event_type_seat_released _ msg.message_id _ refl
                                    (λ n h. row_taken n h refl) (λ x b. bad_event _ b)
                                    (λ x h b. bad_headers h b)
                                    λ event_id created_at event headers event_json headers_json.
                                      inr (
                                        inr (record {
                                          cmd = cmd;
                                          reservation = reservation;
                                          event_id = event_id;
                                          event = event;
                                          headers = headers;
                                          processed_at = at;
                                          created_at = created_at;
                                          decoded = decoded;
                                          known = known;
                                          was_held = still;
                                          same_seat =
                                              (==_iff reservation.seat_id cmd.seat_id).0 same;
                                          event_json = event_json;
                                          headers_json = headers_json;
                                          tables = refl;
                                        })))))
                      ]
                    ]
              ]
            ]
