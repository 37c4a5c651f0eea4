-- ===== src/Orchestrator/Service/Failures/SeatReservationFailed.antt =====
-- `HandleSeatReservationFailed` does what its abstract description says.
use go_saga_outbox.Base.{◌≡◌, refl, ◌⊎◌, inl, inr, none, some, [], ℕ}
use go_saga_outbox.Runtime.{Uuid, good, Env, World}
use go_saga_outbox.Runtime.Ends.{Ends, Ends-lift}
use go_saga_outbox.Contracts.Inventory.{SeatReservationFailed}
use go_saga_outbox.Kafka.{Message, get_saga_id_from_headers}
use go_saga_outbox.Inbox.Ends.{repeated, lost}
use go_saga_outbox.Orchestrator.Model.{failed, reserve_seat, forward, step_failed, Saga}
use go_saga_outbox.Orchestrator.Repo.{SagaDb, lookup_saga}
use go_saga_outbox.Orchestrator.Repo.Ends.{Ends-upsert, Ends-find_by_id}
use go_saga_outbox.Orchestrator.Service.Shared.{Codecs, reason_ptr}
use go_saga_outbox.Orchestrator.Service.Effects.{Wrote, Skipped}
use go_saga_outbox.Orchestrator.Service.Refusals.{
  Refusal, NoCheck, struck, step_taken, bad_value, bad_saga_id, unknown_saga,
}
use go_saga_outbox.Orchestrator.Service.Rules.{Ends-once}
use go_saga_outbox.Orchestrator.Service.Sending.{Ends-record_step_last}
use go_saga_outbox.Orchestrator.Service.Failures.{handle_seat_reservation_failed}

module _ (e : Env) (c : Codecs) where
  -- The saga has failed, and the step carries the reason.
  pub record SeatReservationFailedEffect (msg : Message) (d d' : SagaDb) : Type 0 where
    pub value : SeatReservationFailed
    pub saga_id : Uuid
    pub saga : Saga
    pub asked : ℕ  -- the event at which the clock is read
    pub decoded : c.reservations_failed.unmarshal msg.value ≡ good value
    pub identified : get_saga_id_from_headers e msg ≡ good saga_id
    pub known : lookup_saga saga_id d ≡ some saga
    pub wrote :
        Wrote c msg
          (record {
            saga = record saga { state = failed; updated_at = e.now asked };
            saga_id = saga_id;
            step_name = reserve_seat;
            direction = forward;
            status = step_failed;
            error = reason_ptr value.reason;
            command = none;
          })
          d
          d'

  pub handle_seat_reservation_failed-Ends :
      (msg : Message) (w : World SagaDb)
      → Ends
          (Refusal e c msg (c.reservations_failed.unmarshal msg.value) NoCheck w.db)
          (λ _ d'. Skipped e msg w.db d' ⊎ SeatReservationFailedEffect msg w.db d')
          (handle_seat_reservation_failed e c msg w)
  unfolding handle_seat_reservation_failed
  handle_seat_reservation_failed-Ends msg w =
      Ends-once e struck msg _ w (λ dup. inl (repeated dup refl)) (λ n h. inl (lost n h refl))
        λ at k.
          Ends-lift _ _ _ (λ x b. bad_saga_id b)
            λ saga_id identified.
              Ends-find_by_id e struck saga_id _ _ refl
                (λ gone. unknown_saga saga_id identified gone refl)
                λ saga known.
                  Ends-lift _ _ _ (λ x b. bad_value b)
                    λ value decoded. Ends-upsert e struck _ _ _ refl (
                      Ends-record_step_last e struck saga_id reserve_seat forward step_failed
                        (reason_ptr value.reason) _ refl step_taken
                        λ step_id step_at. inr (record {
                          value = value;
                          saga_id = saga_id;
                          saga = saga;
                          asked = _;
                          decoded = decoded;
                          identified = identified;
                          known = known;
                          wrote = record {
                            processed_at = at;
                            step_id = step_id;
                            step_at = step_at;
                            rows = [];
                            sent = refl;
                            tables = refl;
                          };
                        }))
