-- ===== src/Orchestrator/Service/Failures/NotificationFailed.antt =====
-- `HandleNotificationFailed` does what its abstract description says.
use go_saga_outbox.Base.{◌≡◌, refl, true, false, ◌⊎◌, inl, inr, some, ◌||◌, ℕ}
use go_saga_outbox.Runtime.{Uuid, Bytes, good, Env, World}
use go_saga_outbox.Runtime.Ends.{Ends, Ends-lift, Ends-pure, Ends-deref}
use go_saga_outbox.Contracts.Payment.{new_refund}
use go_saga_outbox.Contracts.Notification.{Failed as NotificationFailed}
use go_saga_outbox.Kafka.{Message, get_saga_id_from_headers}
use go_saga_outbox.Inbox.Ends.{repeated, lost}
use go_saga_outbox.Orchestrator.Model.{
  BookTicketContext, compensating, send_notification, forward, step_failed, Saga, decode_context,
  is_compensated, is_compensating,
}
use go_saga_outbox.Orchestrator.Repo.{SagaDb, lookup_saga}
use go_saga_outbox.Orchestrator.Repo.Ends.{Ends-upsert, Ends-find_by_id}
use go_saga_outbox.Orchestrator.Service.Shared.{Codecs, reason_ptr}
use go_saga_outbox.Orchestrator.Service.Effects.{refund, Encodes, Wrote, Ignored, Skipped}
use go_saga_outbox.Orchestrator.Service.Refusals.{
  Refusal, NoCheck, struck, step_taken, row_taken, bad_value, bad_saga_id, unknown_saga, of_saga,
  hidden_context, lacks_payment,
}
use go_saga_outbox.Orchestrator.Service.Rules.{
  Ends-once, Ends-or_error, Ends-require, Ends-if, Ends-record_step,
}
use go_saga_outbox.Orchestrator.Service.Sending.{Ends-emit_last}
use go_saga_outbox.Orchestrator.Service.Failures.{handle_notification_failed}

module _ (e : Env) (c : Codecs) where
  -- The saga compensates: its payment is to be refunded first.
  pub record NotificationFailedEffect (msg : Message) (d d' : SagaDb) : Type 0 where
    pub value : NotificationFailed
    pub saga_id : Uuid
    pub saga : Saga
    pub context : BookTicketContext
    pub context_json : Bytes
    pub payment_id : Uuid
    pub asked : ℕ  -- the event at which the clock is read
    pub decoded : c.notifications_failed.unmarshal msg.value ≡ good value
    pub identified : get_saga_id_from_headers e msg ≡ good saga_id
    pub known : lookup_saga saga_id d ≡ some saga
    pub going : (is_compensated saga || is_compensating saga) ≡ false
    pub had : decode_context c.contexts saga ≡ good context
    pub paid : context.payment_id ≡ some payment_id
    pub has :
        c.contexts.marshal (record context { notification_id = some value.notification_id })
        ≡ good context_json
    pub wrote :
        Wrote c msg
          (record {
            saga = record saga {
              state = compensating;
              context = context_json;
              updated_at = e.now asked;
            };
            saga_id = saga_id;
            step_name = send_notification;
            direction = forward;
            status = step_failed;
            error = reason_ptr value.reason;
            command = some (refund (new_refund saga_id payment_id));
          })
          d
          d'

  -- The saga is compensating or compensated, and stays as it is.
  pub record LateNotificationFailure (msg : Message) (d d' : SagaDb) : Type 0 where
    pub saga_id : Uuid
    pub saga : Saga
    pub identified : get_saga_id_from_headers e msg ≡ good saga_id
    pub known : lookup_saga saga_id d ≡ some saga
    pub late : (is_compensated saga || is_compensating saga) ≡ true
    pub ignored : Ignored msg d d'

  -- HandleNotificationFailed, for codecs that encode: it never panics; it fails only for a reason
  -- that `Refusal` lists; and where it succeeds it changed no table, since the message had been seen
  -- or the commit failed, or found the saga compensating or compensated and only noted the message,
  -- or set the saga compensating, noted the failed notification with its reason and put one refund
  -- command, for the payment of the context, in the outbox.
  pub handle_notification_failed-Ends :
      (msg : Message) (w : World SagaDb)
      → Encodes c
      → Ends
          (Refusal e c msg (c.notifications_failed.unmarshal msg.value) NoCheck w.db)
          (λ _ d'.
            Skipped e msg w.db d'
            ⊎ LateNotificationFailure msg w.db d'
            ⊎ NotificationFailedEffect msg w.db d')
          (handle_notification_failed e c msg w)
  unfolding handle_notification_failed
  handle_notification_failed-Ends msg w json =
      Ends-once e struck msg _ w (λ dup. inl (repeated dup refl)) (λ n h. inl (lost n h refl))
        λ at k.
          Ends-lift _ _ _ (λ x b. bad_saga_id b)
            λ saga_id identified.
              Ends-lift _ _ _ (λ x b. bad_value b)
                λ value decoded.
                  Ends-find_by_id e struck saga_id _ _ refl
                    (λ gone. unknown_saga saga_id identified gone refl)
                    λ saga known.
                      Ends-if (is_compensated saga || is_compensating saga) _ _ _
                        (λ late. Ends-pure tt _ refl (
                          inr (
                            inl (record {
                              saga_id = saga_id;
                              saga = saga;
                              identified = identified;
                              known = known;
                              late = late;
                              ignored = record { processed_at = at; tables = refl };
                            }))))
                        λ going.
                          Ends-or_error _ _ _ _
                            (λ y b. of_saga saga_id saga identified known (hidden_context y b refl))
                            λ context had.
                              Ends-require _ _ _ _
                                (λ lost.
                                  of_saga saga_id saga identified known
                                    (lacks_payment context had lost refl))
                                λ payment_id paid.
                                  let (context_json, has) = json.contexts (record context {
                                    notification_id = some value.notification_id;
                                  }) in
                                  rw has (
                                    Ends-upsert e struck _ _ _ refl (
                                      Ends-record_step e struck saga_id send_notification forward
                                        step_failed (reason_ptr value.reason) _ _ refl step_taken
                                        λ step_id step_at k'. Ends-deref _ _ _ payment_id paid (
                                          Ends-emit_last e struck c
                                            (refund (new_refund saga_id payment_id)) saga_id
                                            (some msg.message_id) _ refl json row_taken
                                            λ rows sent. inr (
                                              inr (record {
                                                value = value;
                                                saga_id = saga_id;
                                                saga = saga;
                                                context = context;
                                                context_json = context_json;
                                                payment_id = payment_id;
                                                asked = _;
                                                decoded = decoded;
                                                identified = identified;
                                                known = known;
                                                going = going;
                                                had = had;
                                                paid = paid;
                                                has = has;
                                                wrote = record {
                                                  processed_at = at;
                                                  step_id = step_id;
                                                  step_at = step_at;
                                                  rows = rows;
                                                  sent = sent;
                                                  tables = refl;
                                                };
                                              })))))
