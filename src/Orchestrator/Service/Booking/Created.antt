-- ===== src/Orchestrator/Service/Booking/Created.antt =====
-- `StartBooking` does what its abstract description says.
use go_saga_outbox.Base.{
  ℕ, ◌+◌, ℤ, String, ◌≡◌, ◌⊎◌, inl, inr, refl, true, none, some, [], any, List, ◌++◌,
}
use go_saga_outbox.Runtime.{
  Uuid, Bytes, Error, db_error, good, Env, World, pure, Outcome, ok, err, panic, continue,
}
use go_saga_outbox.Runtime.Ends.{Ends, Ends-bind, Ends-pure}
use go_saga_outbox.Trx.{run}
use go_saga_outbox.Trx.Ends.{Lost, Ends-run}
use go_saga_outbox.Trx.Atomic.{KeptOrDone, run-KeptOrDone}
use go_saga_outbox.Storage.{Outbox}
use go_saga_outbox.Contracts.Inventory.{new_reserve_seat}
use go_saga_outbox.Outbox.{has_id}
use go_saga_outbox.Orchestrator.Model.{
  running, reserve_seat, new_book_ticket_payload, new_saga, schedule_next, deadline, add_duration,
  step_timeout,
}
use go_saga_outbox.Orchestrator.Repo.{SagaDb, upsert_saga}
use go_saga_outbox.Orchestrator.Repo.Ends.{Ends-upsert}
use go_saga_outbox.Orchestrator.Service.Shared.{Codecs, saga_type}
use go_saga_outbox.Orchestrator.Service.Effects.{reserve, Encodes, SentRow}
use go_saga_outbox.Orchestrator.Service.Sending.{Ends-emit_last}
use go_saga_outbox.Orchestrator.Service.Booking.{create_saga, start_booking}

-- Why a booking can fail.
pub data BookingRefusal (e : Env) (d : SagaDb) (x : Error) : Type 0 where
  struck : (n : ℕ) → e.fault n ≡ true → x ≡ db_error → BookingRefusal e d x
  row_taken :
      (n : ℕ) → any (has_id (e.fresh n)) d.outbox ≡ true → x ≡ db_error → BookingRefusal e d x

module _ (e : Env) (c : Codecs) (event_id user_id : Uuid) (channel : String) (amount : ℤ) where
  -- A running saga at its first step, and the command for it, which no message caused.
  pub record BookedEffect (saga_id : Uuid) (d d' : SagaDb) : Type 0 where
    pub payload : Bytes
    pub asked : ℕ  -- the event at which the clock is first read
    pub rows : List Outbox
    pub payload_json :
        c.payloads.marshal (new_book_ticket_payload event_id user_id amount channel) ≡ good payload
    pub sent : SentRow c saga_id none (reserve (new_reserve_seat saga_id event_id user_id)) rows
    pub tables : d' ≡ record d {
      outbox = rows ++ d.outbox;
      own = record d.own {
        saga =
            upsert_saga
              (record {
                id = saga_id;
                type = saga_type;
                state = running;
                current_step = reserve_seat;
                payload = payload;
                context = [];
                attempts = 0;
                next_attempt_at = some (
                    add_duration
                      (e.now (asked + 1 + 1))
                      (step_timeout 0 (e.rand (asked + 1 + 1 + 1))));
                created_at = e.now asked;
                updated_at = e.now (asked + 1 + 1);
              })
              d.own.saga;
      };
    }

  -- StartBooking, for codecs that encode: it never panics; it fails only where a statement failed
  -- or the drawn id of the outbox row was taken; and where it returns a saga's id, that saga is
  -- stored, running at the seat's reservation with the order as its payload, an empty context and a
  -- first deadline, and one reserve command for the event and the user is in the outbox; or the
  -- commit failed, and no table changed although an id is returned.
  pub start_booking-Ends :
      (w : World SagaDb)
      → Encodes c
      → Ends
          (BookingRefusal e w.db)
          (λ saga_id d'. Lost e w.db d' ⊎ BookedEffect saga_id w.db d')
          (start_booking e c event_id user_id channel amount w)
  unfolding start_booking new_saga schedule_next deadline
  start_booking-Ends w json =
      let (payload, payload_json) =
        json.payloads (new_book_ticket_payload event_id user_id amount channel) in
      let body = create_saga e c (e.fresh w.tick) event_id user_id channel amount in
      Ends-bind {Q = λ _ d'. Lost e w.db d' ⊎ BookedEffect (e.fresh w.tick) w.db d'} (run e body)
        (λ _. pure (e.fresh w.tick)) (record w { tick = w.tick + 1 })
        (Ends-run e body (record w { tick = w.tick + 1 }) (λ n h. struck n h refl)
          (λ _ n h. inl (n, h, refl))
          (rw payload_json (
            Ends-upsert e (λ n h. struck n h refl) _ _ _ refl
              (Ends-emit_last e (λ n h. struck n h refl) c
                (reserve (new_reserve_seat (e.fresh w.tick) event_id user_id)) (e.fresh w.tick) none
                _ refl json (λ n h. row_taken n h refl)
                λ rows sent. inr (record {
                  payload = payload;
                  asked = _;
                  rows = rows;
                  payload_json = payload_json;
                  sent = sent;
                  tables = refl;
                })))))
        λ _ w' fine booked. Ends-pure (e.fresh w.tick) w' fine booked

still_kept :
    {A B : Type 0} (b : B) (w : World SagaDb) (r : Outcome A × World SagaDb)
    → KeptOrDone w r
    → KeptOrDone w (continue r.0 (λ _. pure b) r.1)
still_kept b w (ok a, w') h = tt
still_kept b w (err x, w') h = h
still_kept b w (panic, w') h = h

-- A booking that fails leaves the tables as they were.
pub start_booking-KeptOrDone :
    (e : Env) (c : Codecs) (event_id user_id : Uuid) (channel : String) (amount : ℤ)
    (w : World SagaDb)
    → KeptOrDone w (start_booking e c event_id user_id channel amount w)
unfolding start_booking
start_booking-KeptOrDone e c event_id user_id channel amount w = still_kept (e.fresh w.tick) w _ (
    run-KeptOrDone e (create_saga e c (e.fresh w.tick) event_id user_id channel amount)
      (record w { tick = w.tick + 1 }))
