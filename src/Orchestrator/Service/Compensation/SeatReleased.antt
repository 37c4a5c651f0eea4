-- ===== src/Orchestrator/Service/Compensation/SeatReleased.antt =====
-- `HandleSeatReleased` does what its abstract description says.
use go_saga_outbox.Base.{
  ℕ, Bool, true, false, Option, ◌==◌, Bool-cases, arith, ℕ, ◌≡◌, refl, true, false, ◌⊎◌, inl, inr,
  none, some, [], ◌==◌, ◌≢◌,
}
use go_saga_outbox.Runtime.{Error, M, ◌>>=◌, Uuid, Error, good, Env, World}
use go_saga_outbox.Runtime.Ends.{Ends, Ends-lift, Ends-pure, Ends-raise}
use go_saga_outbox.Contracts.Inventory.{SeatReleased}
use go_saga_outbox.Kafka.{Message, get_saga_id_from_headers}
use go_saga_outbox.Inbox.Ends.{repeated, lost}
use go_saga_outbox.Orchestrator.Model.{
  BookTicketContext, compensated, reserve_seat, compensate, step_succeeded, Saga, decode_context,
  is_compensating,
}
use go_saga_outbox.Orchestrator.Repo.{SagaDb, lookup_saga}
use go_saga_outbox.Orchestrator.Repo.Ends.{Ends-upsert, Ends-find_by_id}
use go_saga_outbox.Orchestrator.Service.Shared.{Codecs}
use go_saga_outbox.Orchestrator.Service.Effects.{Wrote, Ignored, Skipped}
use go_saga_outbox.Orchestrator.Service.Refusals.{
  Refusal, struck, step_taken, bad_value, bad_saga_id, unknown_saga, of_saga, hidden_context,
  lacks_reservation, lacks_seat, differs,
}
use go_saga_outbox.Orchestrator.Service.Rules.{Ends-once, Ends-or_error, Ends-require, Ends-unless}
use go_saga_outbox.Orchestrator.Service.Sending.{Ends-record_step_last}
use go_saga_outbox.Orchestrator.Service.Compensation.{handle_seat_released, is_mismatch}

same_some : (o : Option ℕ) (a b : ℕ) → o ≡ some a → (a == b) ≡ true → o ≡ some b
same_some o a b p h = ground arith

other_some : (o : Option ℕ) (a b : ℕ) → o ≡ some a → (a == b) ≡ false → o ≢ some b
other_some o a b p h = ground arith

module _ (e : Env) (c : Codecs) where
  -- The saga is compensated.
  pub record SeatReleasedEffect (msg : Message) (d d' : SagaDb) : Type 0 where
    pub value : SeatReleased
    pub saga_id : Uuid
    pub saga : Saga
    pub context : BookTicketContext
    pub asked : ℕ  -- the event at which the clock is read
    pub decoded : c.seats_released.unmarshal msg.value ≡ good value
    pub identified : get_saga_id_from_headers e msg ≡ good saga_id
    pub known : lookup_saga saga_id d ≡ some saga
    pub back : is_compensating saga ≡ true
    pub had : decode_context c.contexts saga ≡ good context
    pub reserved : context.reservation_id ≡ some value.reservation_id
    pub seated : context.seat_id ≡ some value.seat_id
    pub wrote :
        Wrote c msg
          (record {
            saga = record saga { state = compensated; updated_at = e.now asked };
            saga_id = saga_id;
            step_name = reserve_seat;
            direction = compensate;
            status = step_succeeded;
            error = none;
            command = none;
          })
          d
          d'

  -- The saga is not compensating, and stays as it is.
  pub record StrayRelease (msg : Message) (d d' : SagaDb) : Type 0 where
    pub saga_id : Uuid
    pub saga : Saga
    pub identified : get_saga_id_from_headers e msg ≡ good saga_id
    pub known : lookup_saga saga_id d ≡ some saga
    pub stray : is_compensating saga ≡ false
    pub ignored : Ignored msg d d'

  -- The released seat or reservation is not that of the context.
  abbrev pub OtherSeat : Message → BookTicketContext → Type 0
  OtherSeat msg ctx =
      (value : SeatReleased) × (c.seats_released.unmarshal msg.value ≡ good value)
      × ((ctx.reservation_id ≢ some value.reservation_id) ⊎ (ctx.seat_id ≢ some value.seat_id))

  module _ {X : Error → Type 0} {Q : Unit → SagaDb → Type 0} where
    -- The comparison of the context with the message, where the context has both ids.
    Ends-is_mismatch :
        (ctx : BookTicketContext) (value : SeatReleased) (f : Bool → M SagaDb Unit)
        (w : World SagaDb) (reservation_id seat_id : Uuid)
        → ctx.reservation_id ≡ some reservation_id
        → ctx.seat_id ≡ some seat_id
        → ((ctx.reservation_id ≢ some value.reservation_id) ⊎ (ctx.seat_id ≢ some value.seat_id)
            → Ends X Q (f true w))
        → (ctx.reservation_id ≡ some value.reservation_id
            → ctx.seat_id ≡ some value.seat_id
            → Ends X Q (f false w))
        → Ends X Q ((is_mismatch e c ctx value >>= f) w)
    unfolding is_mismatch
    Ends-is_mismatch ctx value f w reservation_id seat_id reserved seated other same =
        elim (Bool-cases (reservation_id == value.reservation_id)) [
          | inl r ↦ elim (Bool-cases (seat_id == value.seat_id)) [
            | inl s ↦
                simp (reserved, seated, r, s)
                  (same (same_some _ _ _ reserved r) (same_some _ _ _ seated s))
            | inr s ↦ simp (reserved, seated, r, s) (other (inr (other_some _ _ _ seated s)))
          ]
          | inr r ↦ simp (reserved, r) (other (inl (other_some _ _ _ reserved r)))
        ]

  pub handle_seat_released-Ends :
      (msg : Message) (w : World SagaDb)
      → Ends
          (Refusal e c msg (c.seats_released.unmarshal msg.value) (OtherSeat msg) w.db)
          (λ _ d'.
            Skipped e msg w.db d' ⊎ StrayRelease msg w.db d' ⊎ SeatReleasedEffect msg w.db d')
          (handle_seat_released e c msg w)
  unfolding handle_seat_released
  handle_seat_released-Ends msg w =
      Ends-once e struck msg _ w (λ dup. inl (repeated dup refl)) (λ n h. inl (lost n h refl))
        λ at k.
          Ends-lift _ _ _ (λ x b. bad_value b)
            λ value decoded.
              Ends-lift _ _ _ (λ x b. bad_saga_id b)
                λ saga_id identified.
                  Ends-find_by_id e struck saga_id _ _ refl
                    (λ gone. unknown_saga saga_id identified gone refl)
                    λ saga known.
                      Ends-unless (is_compensating saga) _ _ _
                        (λ stray. Ends-pure tt _ refl (
                          inr (
                            inl (record {
                              saga_id = saga_id;
                              saga = saga;
                              identified = identified;
                              known = known;
                              stray = stray;
                              ignored = record { processed_at = at; tables = refl };
                            }))))
                        λ back.
                          Ends-or_error _ _ _ _
                            (λ y b. of_saga saga_id saga identified known (hidden_context y b refl))
                            λ context had.
                              Ends-require _ _ _ _
                                (λ lost.
                                  of_saga saga_id saga identified known
                                    (lacks_reservation context had lost refl))
                                λ reservation_id reserved.
                                  Ends-require _ _ _ _
                                    (λ lost.
                                      of_saga saga_id saga identified known
                                        (lacks_seat context had lost refl))
                                    λ seat_id seated.
                                      Ends-is_mismatch context value _ _ reservation_id seat_id
                                        reserved seated
                                        (λ other. Ends-raise _ _ (
                                          of_saga saga_id saga identified known
                                            (differs context had (value, decoded, other) refl)))
                                        λ reserved' seated'. Ends-upsert e struck _ _ _ refl (
                                          Ends-record_step_last e struck saga_id reserve_seat
                                            compensate step_succeeded none _ refl step_taken
                                            λ step_id step_at. inr (
                                              inr (record {
                                                value = value;
                                                saga_id = saga_id;
                                                saga = saga;
                                                context = context;
                                                asked = _;
                                                decoded = decoded;
                                                identified = identified;
                                                known = known;
                                                back = back;
                                                had = had;
                                                reserved = reserved';
                                                seated = seated';
                                                wrote = record {
                                                  processed_at = at;
                                                  step_id = step_id;
                                                  step_at = step_at;
                                                  rows = [];
                                                  sent = refl;
                                                  tables = refl;
                                                };
                                              })))
