-- ===== src/Orchestrator/Service/Failures/PaymentFailed.antt =====
-- `HandlePaymentFailed` does what its abstract description says.
use go_saga_outbox.Base.{◌≡◌, refl, true, false, ◌⊎◌, inl, inr, some, ◌||◌, ℕ}
use go_saga_outbox.Runtime.{Uuid, good, Env, World}
use go_saga_outbox.Runtime.Ends.{Ends, Ends-lift, Ends-pure, Ends-deref}
use go_saga_outbox.Contracts.Inventory.{new_release_seat}
use go_saga_outbox.Contracts.Payment.{Failed as PaymentFailed}
use go_saga_outbox.Kafka.{Message, get_saga_id_from_headers}
use go_saga_outbox.Inbox.Ends.{repeated, lost}
use go_saga_outbox.Orchestrator.Model.{
  BookTicketContext, compensating, charge_payment, forward, step_failed, Saga, decode_context,
  is_compensated, is_compensating,
}
use go_saga_outbox.Orchestrator.Repo.{SagaDb, lookup_saga}
use go_saga_outbox.Orchestrator.Repo.Ends.{Ends-upsert, Ends-find_by_id}
use go_saga_outbox.Orchestrator.Service.Shared.{Codecs, reason_ptr}
use go_saga_outbox.Orchestrator.Service.Effects.{release, Encodes, Wrote, Ignored, Skipped}
use go_saga_outbox.Orchestrator.Service.Refusals.{
  Refusal, NoCheck, struck, step_taken, row_taken, bad_value, bad_saga_id, unknown_saga, of_saga,
  bad_context, lacks_reservation, lacks_seat,
}
use go_saga_outbox.Orchestrator.Service.Rules.{Ends-once, Ends-require, Ends-if, Ends-record_step}
use go_saga_outbox.Orchestrator.Service.Sending.{Ends-emit_last}
use go_saga_outbox.Orchestrator.Service.Failures.{handle_payment_failed}

module _ (e : Env) (c : Codecs) where
  -- The saga compensates: its seat is to be released.
  pub record PaymentFailedEffect (msg : Message) (d d' : SagaDb) : Type 0 where
    pub value : PaymentFailed
    pub saga_id : Uuid
    pub saga : Saga
    pub context : BookTicketContext
    pub reservation_id : Uuid
    pub seat_id : Uuid
    pub asked : ℕ  -- the event at which the clock is read
    pub decoded : c.payments_failed.unmarshal msg.value ≡ good value
    pub identified : get_saga_id_from_headers e msg ≡ good saga_id
    pub known : lookup_saga saga_id d ≡ some saga
    pub going : (is_compensated saga || is_compensating saga) ≡ false
    pub had : decode_context c.contexts saga ≡ good context
    pub reserved : context.reservation_id ≡ some reservation_id
    pub seated : context.seat_id ≡ some seat_id
    pub wrote :
        Wrote c msg
          (record {
            saga = record saga { state = compensating; updated_at = e.now asked };
            saga_id = saga_id;
            step_name = charge_payment;
            direction = forward;
            status = step_failed;
            error = reason_ptr value.reason;
            command = some (release (new_release_seat saga_id reservation_id seat_id));
          })
          d
          d'

  -- The saga is compensating or compensated, and stays as it is.
  pub record LatePaymentFailure (msg : Message) (d d' : SagaDb) : Type 0 where
    pub saga_id : Uuid
    pub saga : Saga
    pub identified : get_saga_id_from_headers e msg ≡ good saga_id
    pub known : lookup_saga saga_id d ≡ some saga
    pub late : (is_compensated saga || is_compensating saga) ≡ true
    pub ignored : Ignored msg d d'

  pub handle_payment_failed-Ends :
      (msg : Message) (w : World SagaDb)
      → Encodes c
      → Ends
          (Refusal e c msg (c.payments_failed.unmarshal msg.value) NoCheck w.db)
          (λ _ d'.
            Skipped e msg w.db d'
            ⊎ LatePaymentFailure msg w.db d'
            ⊎ PaymentFailedEffect msg w.db d')
          (handle_payment_failed e c msg w)
  unfolding handle_payment_failed
  handle_payment_failed-Ends msg w json =
      Ends-once e struck msg _ w (λ dup. inl (repeated dup refl)) (λ n h. inl (lost n h refl))
        λ at k.
          Ends-lift _ _ _ (λ x b. bad_saga_id b)
            λ saga_id identified.
              Ends-lift _ _ _ (λ x b. bad_value b)
                λ value decoded.
                  Ends-find_by_id e struck saga_id _ _ refl
                    (λ gone. unknown_saga saga_id identified gone refl)
                    λ saga known.
                      Ends-if (is_compensated saga || is_compensating saga) _ _ _
                        (λ late. Ends-pure tt _ refl (
                          inr (
                            inl (record {
                              saga_id = saga_id;
                              saga = saga;
                              identified = identified;
                              known = known;
                              late = late;
                              ignored = record { processed_at = at; tables = refl };
                            }))))
                        λ going.
                          Ends-lift _ _ _
                            (λ x b. of_saga saga_id saga identified known (bad_context b))
                            λ context had. Ends-upsert e struck _ _ _ refl (
                              Ends-record_step e struck saga_id charge_payment forward step_failed
                                (reason_ptr value.reason) _ _ refl step_taken
                                λ step_id step_at k'.
                                  Ends-require _ _ _ _
                                    (λ lost.
                                      of_saga saga_id saga identified known
                                        (lacks_reservation context had lost refl))
                                    λ reservation_id reserved.
                                      Ends-require _ _ _ _
                                        (λ lost.
                                          of_saga saga_id saga identified known
                                            (lacks_seat context had lost refl))
                                        λ seat_id seated. Ends-deref _ _ _ reservation_id reserved (
                                          Ends-deref _ _ _ seat_id seated (
                                            Ends-emit_last e struck c
                                              (release
                                                (new_release_seat saga_id reservation_id seat_id))
                                              saga_id (some msg.message_id) _ refl json row_taken
                                              λ rows sent. inr (
                                                inr (record {
                                                  value = value;
                                                  saga_id = saga_id;
                                                  saga = saga;
                                                  context = context;
                                                  reservation_id = reservation_id;
                                                  seat_id = seat_id;
                                                  asked = _;
                                                  decoded = decoded;
                                                  identified = identified;
                                                  known = known;
                                                  going = going;
                                                  had = had;
                                                  reserved = reserved;
                                                  seated = seated;
                                                  wrote = record {
                                                    processed_at = at;
                                                    step_id = step_id;
                                                    step_at = step_at;
                                                    rows = rows;
                                                    sent = sent;
                                                    tables = refl;
                                                  };
                                                })))))
