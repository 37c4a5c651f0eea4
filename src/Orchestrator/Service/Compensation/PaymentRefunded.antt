-- ===== src/Orchestrator/Service/Compensation/PaymentRefunded.antt =====
-- `HandlePaymentRefunded` does what its abstract description says.
use go_saga_outbox.Base.{◌≡◌, refl, true, false, ◌⊎◌, inl, inr, none, some, ℕ}
use go_saga_outbox.Runtime.{Uuid, good, Env, World}
use go_saga_outbox.Runtime.Ends.{Ends, Ends-lift, Ends-pure, Ends-deref, Ends-raise}
use go_saga_outbox.Contracts.Inventory.{new_release_seat}
use go_saga_outbox.Contracts.Payment.{Refunded}
use go_saga_outbox.Kafka.{Message, get_saga_id_from_headers}
use go_saga_outbox.Inbox.Ends.{repeated, lost}
use go_saga_outbox.Orchestrator.Model.{
  BookTicketContext, charge_payment, compensate, step_succeeded, Saga, decode_context,
  is_compensating, compare_payment_id,
}
use go_saga_outbox.Orchestrator.Repo.{SagaDb, lookup_saga}
use go_saga_outbox.Orchestrator.Repo.Ends.{Ends-upsert, Ends-find_by_id}
use go_saga_outbox.Orchestrator.Service.Shared.{Codecs}
use go_saga_outbox.Orchestrator.Service.Effects.{release, Encodes, Wrote, Ignored, Skipped}
use go_saga_outbox.Orchestrator.Service.Refusals.{
  Refusal, struck, step_taken, row_taken, bad_value, bad_saga_id, unknown_saga, of_saga,
  hidden_context, lacks_reservation, lacks_seat, differs,
}
use go_saga_outbox.Orchestrator.Service.Rules.{
  Ends-once, Ends-or_error, Ends-require, Ends-unless, Ends-record_step,
}
use go_saga_outbox.Orchestrator.Service.Sending.{Ends-emit_last}
use go_saga_outbox.Orchestrator.Service.Compensation.{handle_payment_refunded}

module _ (e : Env) (c : Codecs) where
  -- After the refund the seat is to be released.
  pub record PaymentRefundedEffect (msg : Message) (d d' : SagaDb) : Type 0 where
    pub value : Refunded
    pub saga_id : Uuid
    pub saga : Saga
    pub context : BookTicketContext
    pub reservation_id : Uuid
    pub seat_id : Uuid
    pub asked : ℕ  -- the event at which the clock is read
    pub decoded : c.refunded.unmarshal msg.value ≡ good value
    pub identified : get_saga_id_from_headers e msg ≡ good saga_id
    pub known : lookup_saga saga_id d ≡ some saga
    pub back : is_compensating saga ≡ true
    pub had : decode_context c.contexts saga ≡ good context
    pub reserved : context.reservation_id ≡ some reservation_id
    pub seated : context.seat_id ≡ some seat_id
    pub same_payment : compare_payment_id context value.payment_id ≡ true
    pub wrote :
        Wrote c msg
          (record {
            saga = record saga { updated_at = e.now asked };
            saga_id = saga_id;
            step_name = charge_payment;
            direction = compensate;
            status = step_succeeded;
            error = none;
            command = some (release (new_release_seat saga_id reservation_id seat_id));
          })
          d
          d'

  -- The saga is not compensating, and stays as it is.
  pub record StrayRefund (msg : Message) (d d' : SagaDb) : Type 0 where
    pub saga_id : Uuid
    pub saga : Saga
    pub identified : get_saga_id_from_headers e msg ≡ good saga_id
    pub known : lookup_saga saga_id d ≡ some saga
    pub stray : is_compensating saga ≡ false
    pub ignored : Ignored msg d d'

  -- The refunded payment is not that of the context.
  abbrev pub OtherPayment : Message → BookTicketContext → Type 0
  OtherPayment msg ctx =
      (value : Refunded) × (c.refunded.unmarshal msg.value ≡ good value)
      × (compare_payment_id ctx value.payment_id ≡ false)

  -- HandlePaymentRefunded, for codecs that encode: it never panics; it fails only for a reason that
  -- `Refusal` lists, a payment other than the context's among them; and where it succeeds it changed
  -- no table, since the message had been seen or the commit failed, or found the saga not
  -- compensating and only noted the message, or kept the saga compensating, noted the compensated
  -- charge and put one release command, for the reservation and the seat of the context, in the
  -- outbox.
  pub handle_payment_refunded-Ends :
      (msg : Message) (w : World SagaDb)
      → Encodes c
      → Ends
          (Refusal e c msg (c.refunded.unmarshal msg.value) (OtherPayment msg) w.db)
          (λ _ d'.
            Skipped e msg w.db d' ⊎ StrayRefund msg w.db d' ⊎ PaymentRefundedEffect msg w.db d')
          (handle_payment_refunded e c msg w)
  unfolding handle_payment_refunded
  handle_payment_refunded-Ends msg w json =
      Ends-once e struck msg _ w (λ dup. inl (repeated dup refl)) (λ n h. inl (lost n h refl))
        λ at k.
          Ends-lift _ _ _ (λ x b. bad_value b)
            λ value decoded.
              Ends-lift _ _ _ (λ x b. bad_saga_id b)
                λ saga_id identified.
                  Ends-find_by_id e struck saga_id _ _ refl
                    (λ gone. unknown_saga saga_id identified gone refl)
                    λ saga known.
                      Ends-unless (is_compensating saga) _ _ _
                        (λ stray. Ends-pure tt _ refl (
                          inr (
                            inl (record {
                              saga_id = saga_id;
                              saga = saga;
                              identified = identified;
                              known = known;
                              stray = stray;
                              ignored = record { processed_at = at; tables = refl };
                            }))))
                        λ back.
                          Ends-or_error _ _ _ _
                            (λ y b. of_saga saga_id saga identified known (hidden_context y b refl))
                            λ context had.
                              Ends-require _ _ _ _
                                (λ lost.
                                  of_saga saga_id saga identified known
                                    (lacks_reservation context had lost refl))
                                λ reservation_id reserved.
                                  Ends-require _ _ _ _
                                    (λ lost.
                                      of_saga saga_id saga identified known
                                        (lacks_seat context had lost refl))
                                    λ seat_id seated.
                                      Ends-unless (compare_payment_id context value.payment_id) _ _
                                        _
                                        (λ other. Ends-raise _ _ (
                                          of_saga saga_id saga identified known
                                            (differs context had (value, decoded, other) refl)))
                                        λ same_payment. Ends-upsert e struck _ _ _ refl (
                                          Ends-record_step e struck saga_id charge_payment
                                            compensate step_succeeded none _ _ refl step_taken
                                            λ step_id step_at k'.
                                              Ends-deref _ _ _ reservation_id reserved (
                                                Ends-deref _ _ _ seat_id seated (
                                                  Ends-emit_last e struck c
                                                    (release (
                                                      new_release_seat saga_id reservation_id
                                                        seat_id))
                                                    saga_id (some msg.message_id) _ refl json
                                                    row_taken
                                                    λ rows sent. inr (
                                                      inr (record {
                                                        value = value;
                                                        saga_id = saga_id;
                                                        saga = saga;
                                                        context = context;
                                                        reservation_id = reservation_id;
                                                        seat_id = seat_id;
                                                        asked = _;
                                                        decoded = decoded;
                                                        identified = identified;
                                                        known = known;
                                                        back = back;
                                                        had = had;
                                                        reserved = reserved;
                                                        seated = seated;
                                                        same_payment = same_payment;
                                                        wrote = record {
                                                          processed_at = at;
                                                          step_id = step_id;
                                                          step_at = step_at;
                                                          rows = rows;
                                                          sent = sent;
                                                          tables = refl;
                                                        };
                                                      })))))
