-- ===== src/Orchestrator/Service/Forward/NotificationSent.antt =====
-- `HandleNotificationSent` does what its abstract description says.
use go_saga_outbox.Base.{◌≡◌, refl, ◌⊎◌, inl, inr, none, some, [], ℕ}
use go_saga_outbox.Runtime.{Uuid, Bytes, good, Env, World}
use go_saga_outbox.Runtime.Ends.{Ends, Ends-lift}
use go_saga_outbox.Contracts.Notification.{Sent}
use go_saga_outbox.Kafka.{Message, get_saga_id_from_headers}
use go_saga_outbox.Inbox.Ends.{repeated, lost}
use go_saga_outbox.Orchestrator.Model.{
  BookTicketContext, completed, send_notification, forward, step_succeeded, Saga, decode_context,
}
use go_saga_outbox.Orchestrator.Repo.{SagaDb, lookup_saga}
use go_saga_outbox.Orchestrator.Repo.Ends.{Ends-upsert, Ends-find_by_id}
use go_saga_outbox.Orchestrator.Service.Shared.{Codecs}
use go_saga_outbox.Orchestrator.Service.Effects.{Encodes, Wrote, Skipped}
use go_saga_outbox.Orchestrator.Service.Refusals.{
  Refusal, NoCheck, struck, step_taken, bad_value, bad_saga_id, unknown_saga, of_saga,
  hidden_context,
}
use go_saga_outbox.Orchestrator.Service.Rules.{Ends-once, Ends-or_error}
use go_saga_outbox.Orchestrator.Service.Sending.{Ends-record_step_last}
use go_saga_outbox.Orchestrator.Service.Forward.{handle_notification_sent}

module _ (e : Env) (c : Codecs) where
  -- The saga is completed, with the notification in its context and no deadline.
  pub record NotificationSentEffect (msg : Message) (d d' : SagaDb) : Type 0 where
    pub value : Sent
    pub saga_id : Uuid
    pub saga : Saga
    pub context : BookTicketContext
    pub context_json : Bytes
    pub asked : ℕ  -- the event at which the clock is read
    pub decoded : c.sent.unmarshal msg.value ≡ good value
    pub identified : get_saga_id_from_headers e msg ≡ good saga_id
    pub known : lookup_saga saga_id d ≡ some saga
    pub had : decode_context c.contexts saga ≡ good context
    pub has :
        c.contexts.marshal (record context { notification_id = some value.notification_id })
        ≡ good context_json
    pub wrote :
        Wrote c msg
          (record {
            saga = record saga {
              state = completed;
              context = context_json;
              attempts = 0;
              next_attempt_at = none;
              updated_at = e.now asked;
            };
            saga_id = saga_id;
            step_name = send_notification;
            direction = forward;
            status = step_succeeded;
            error = none;
            command = none;
          })
          d
          d'

  -- HandleNotificationSent, for codecs that encode: it never panics; it fails only for a reason
  -- that `Refusal` lists; and where it succeeds it changed no table, since the message had been seen
  -- or the commit failed, or completed the saga, cleared its deadline and attempts, put the
  -- notification in its context and noted the step as succeeded, and sent no command.
  pub handle_notification_sent-Ends :
      (msg : Message) (w : World SagaDb)
      → Encodes c
      → Ends
          (Refusal e c msg (c.sent.unmarshal msg.value) NoCheck w.db)
          (λ _ d'. Skipped e msg w.db d' ⊎ NotificationSentEffect msg w.db d')
          (handle_notification_sent e c msg w)
  unfolding handle_notification_sent
  handle_notification_sent-Ends msg w json =
      Ends-once e struck msg _ w (λ dup. inl (repeated dup refl)) (λ n h. inl (lost n h refl))
        λ at k.
          Ends-lift _ _ _ (λ x b. bad_saga_id b)
            λ saga_id identified.
              Ends-lift _ _ _ (λ x b. bad_value b)
                λ value decoded.
                  Ends-find_by_id e struck saga_id _ _ refl
                    (λ gone. unknown_saga saga_id identified gone refl)
                    λ saga known.
                      Ends-or_error _ _ _ _
                        (λ y b. of_saga saga_id saga identified known (hidden_context y b refl))
                        λ context had.
                          let (context_json, has) =
                            json.contexts
                              (record context { notification_id = some value.notification_id }) in
                          rw has (
                            Ends-upsert e struck _ _ _ refl (
                              Ends-record_step_last e struck saga_id send_notification forward
                                step_succeeded none _ refl step_taken
                                λ step_id step_at. inr (record {
                                  value = value;
                                  saga_id = saga_id;
                                  saga = saga;
                                  context = context;
                                  context_json = context_json;
                                  asked = _;
                                  decoded = decoded;
                                  identified = identified;
                                  known = known;
                                  had = had;
                                  has = has;
                                  wrote = record {
                                    processed_at = at;
                                    step_id = step_id;
                                    step_at = step_at;
                                    rows = [];
                                    sent = refl;
                                    tables = refl;
                                  };
                                })))
