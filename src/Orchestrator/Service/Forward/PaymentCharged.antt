-- ===== src/Orchestrator/Service/Forward/PaymentCharged.antt =====
-- `HandlePaymentCharged` does what its abstract description says.
use go_saga_outbox.Base.{ℕ, ◌≡◌, refl, ◌⊎◌, inl, inr, none, some, ◌+◌}
use go_saga_outbox.Runtime.{Uuid, Bytes, good, Env, World}
use go_saga_outbox.Runtime.Ends.{Ends, Ends-lift}
use go_saga_outbox.Contracts.Payment.{Charged}
use go_saga_outbox.Contracts.Notification.{new_send}
use go_saga_outbox.Kafka.{Message, get_saga_id_from_headers}
use go_saga_outbox.Inbox.Ends.{repeated, lost}
use go_saga_outbox.Orchestrator.Model.{
  BookTicketContext, BookTicketPayload, running, charge_payment, send_notification, forward,
  step_succeeded, Saga, decode_context, decode_payload, deadline, add_duration, step_timeout,
}
use go_saga_outbox.Orchestrator.Repo.{SagaDb, lookup_saga}
use go_saga_outbox.Orchestrator.Repo.Ends.{Ends-upsert, Ends-find_by_id}
use go_saga_outbox.Orchestrator.Service.Shared.{Codecs}
use go_saga_outbox.Orchestrator.Service.Effects.{send, Encodes, Wrote, Skipped}
use go_saga_outbox.Orchestrator.Service.Refusals.{
  Refusal, NoCheck, struck, step_taken, row_taken, bad_value, bad_saga_id, unknown_saga, of_saga,
  bad_context, bad_payload,
}
use go_saga_outbox.Orchestrator.Service.Rules.{Ends-once, Ends-record_step}
use go_saga_outbox.Orchestrator.Service.Sending.{Ends-emit_last}
use go_saga_outbox.Orchestrator.Service.Forward.{handle_payment_charged, advance}

module _ (e : Env) (c : Codecs) where
  -- The saga goes to the notification with the payment in its context.
  pub record PaymentChargedEffect (msg : Message) (d d' : SagaDb) : Type 0 where
    pub value : Charged
    pub saga_id : Uuid
    pub saga : Saga
    pub context : BookTicketContext
    pub context_json : Bytes
    pub payload : BookTicketPayload
    pub asked : ℕ  -- the event at which the clock is first read
    pub decoded : c.charged.unmarshal msg.value ≡ good value
    pub identified : get_saga_id_from_headers e msg ≡ good saga_id
    pub known : lookup_saga saga_id d ≡ some saga
    pub had : decode_context c.contexts saga ≡ good context
    pub has :
        c.contexts.marshal (record context { payment_id = some value.payment_id })
        ≡ good context_json
    pub ordered : decode_payload c.payloads saga ≡ good payload
    pub wrote :
        Wrote c msg
          (record {
            saga = record saga {
              state = running;
              current_step = send_notification;
              context = context_json;
              attempts = 0;
              next_attempt_at =
                  some (add_duration (e.now (asked + 1)) (step_timeout 0 (e.rand (asked + 1 + 1))));
              updated_at = e.now asked;
            };
            saga_id = saga_id;
            step_name = charge_payment;
            direction = forward;
            status = step_succeeded;
            error = none;
            command = some (send (new_send saga_id payload.user_id payload.channel));
          })
          d
          d'

  pub handle_payment_charged-Ends :
      (msg : Message) (w : World SagaDb)
      → Encodes c
      → Ends
          (Refusal e c msg (c.charged.unmarshal msg.value) NoCheck w.db)
          (λ _ d'. Skipped e msg w.db d' ⊎ PaymentChargedEffect msg w.db d')
          (handle_payment_charged e c msg w)
  unfolding handle_payment_charged advance deadline
  handle_payment_charged-Ends msg w json =
      Ends-once e struck msg _ w (λ dup. inl (repeated dup refl)) (λ n h. inl (lost n h refl))
        λ at k.
          Ends-lift _ _ _ (λ x b. bad_saga_id b)
            λ saga_id identified.
              Ends-lift _ _ _ (λ x b. bad_value b)
                λ value decoded.
                  Ends-find_by_id e struck saga_id _ _ refl
                    (λ gone. unknown_saga saga_id identified gone refl)
                    λ saga known.
                      Ends-lift _ _ _ (λ x b. of_saga saga_id saga identified known (bad_context b))
                        λ context had.
                          let (context_json, has) =
                            json.contexts (record context { payment_id = some value.payment_id }) in
                          rw has (
                            Ends-upsert e struck _ _ _ refl (
                              Ends-record_step e struck saga_id charge_payment forward
                                step_succeeded none _ _ refl step_taken
                                λ step_id step_at k'.
                                  Ends-lift _ _ _
                                    (λ x b. of_saga saga_id saga identified known (bad_payload b))
                                    λ payload ordered.
                                      Ends-emit_last e struck c
                                        (send (new_send saga_id payload.user_id payload.channel))
                                        saga_id (some msg.message_id) _ refl json row_taken
                                        λ rows sent. inr (record {
                                          value = value;
                                          saga_id = saga_id;
                                          saga = saga;
                                          context = context;
                                          context_json = context_json;
                                          payload = payload;
                                          asked = _;
                                          decoded = decoded;
                                          identified = identified;
                                          known = known;
                                          had = had;
                                          has = has;
                                          ordered = ordered;
                                          wrote = record {
                                            processed_at = at;
                                            step_id = step_id;
                                            step_at = step_at;
                                            rows = rows;
                                            sent = sent;
                                            tables = refl;
                                          };
                                        })))
