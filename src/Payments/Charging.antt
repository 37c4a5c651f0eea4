-- ===== src/Payments/Charging.antt =====
-- `HandleChargeCommand` does what its abstract description says.
use go_saga_outbox.Base.{ℕ, ◌≡◌, true, none, some, ◌∷◌, any, ◌==◌, is_negative, if◌then◌else◌}
use go_saga_outbox.Runtime.{Uuid, Time, Bytes, Error, db_error, negative_amount, good, bad, Env}
use go_saga_outbox.Runtime.Ends.{Ends}
use go_saga_outbox.Storage.{new_inbox}
use go_saga_outbox.Contracts.{MessageHeaders, new_message_headers}
use go_saga_outbox.Contracts.Payment.{
  Charge, Charged, Failed, new_charged, new_failed, topic_events, event_type_charged,
  event_type_failed,
}
use go_saga_outbox.Outbox.{has_id}
use go_saga_outbox.Kafka.{Message}
use go_saga_outbox.Payments.{
  Payment, PaymentDb, Codecs, new_payment, lookup_payment, consumer_name, aggregate_type_payment,
}

module _ (e : Env) (c : Codecs) where
  -- Why a charge can fail.
  pub data ChargeRefusal (msg : Message) (d : PaymentDb) (x : Error) : Type 0 where
    struck : (n : ℕ) → e.fault n ≡ true → x ≡ db_error → ChargeRefusal msg d x
    bad_value : c.charges.unmarshal msg.value ≡ bad x → ChargeRefusal msg d x
    id_taken :
        (n : ℕ)
        → any (λ row. row.id == e.fresh n) d.own.payment ≡ true
        → x ≡ db_error
        → ChargeRefusal msg d x
    row_taken :
        (n : ℕ) → any (has_id (e.fresh n)) d.outbox ≡ true → x ≡ db_error → ChargeRefusal msg d x
    bad_event : (v : Charged) → c.charged.marshal v ≡ bad x → ChargeRefusal msg d x
    bad_failure : (v : Failed) → c.failures.marshal v ≡ bad x → ChargeRefusal msg d x
    bad_headers : (v : MessageHeaders) → c.headers.marshal v ≡ bad x → ChargeRefusal msg d x

  -- The saga has a payment, and the message is only noted.
  pub record PaidBefore (msg : Message) (d d' : PaymentDb) : Type 0 where
    pub cmd : Charge
    pub payment : Payment
    pub processed_at : Time
    pub decoded : c.charges.unmarshal msg.value ≡ good cmd
    pub paid : lookup_payment cmd.saga_id d ≡ some payment
    pub tables :
        d' ≡ record d { inbox = new_inbox msg.message_id consumer_name processed_at ∷ d.inbox }

  -- The saga's first payment, charged or failed by the sign of the amount, and one event for it.
  pub record ChargedEffect (msg : Message) (d d' : PaymentDb) : Type 0 where
    pub cmd : Charge
    pub id : Uuid
    pub event_id : Uuid
    pub event : Bytes
    pub headers : Bytes
    pub processed_at : Time
    pub created_at : Time
    pub decoded : c.charges.unmarshal msg.value ≡ good cmd
    pub first : lookup_payment cmd.saga_id d ≡ none
    pub event_json :
        (if is_negative cmd.amount
          then c.failures.marshal (new_failed cmd.saga_id (e.error_text negative_amount))
          else c.charged.marshal (new_charged id cmd.saga_id cmd.amount))
        ≡ good event
    pub headers_json :
        c.headers.marshal (
          new_message_headers event_id cmd.saga_id
            (some msg.message_id)
            (if is_negative cmd.amount then event_type_failed else event_type_charged))
        ≡ good headers
    pub tables : d' ≡ record {
      inbox = new_inbox msg.message_id consumer_name processed_at ∷ d.inbox;
      outbox =
          record {
            id = event_id;
            aggregate_type = aggregate_type_payment;
            aggregate_id = id;
            topic = topic_events;
            key = cmd.saga_id;
            payload = event;
            headers = headers;
            created_at = created_at;
            published_at = none;
          }
          ∷ d.outbox;
      dead_message = d.dead_message;
      own = record {
        payment = (new_payment id cmd.saga_id cmd.user_id cmd.amount).0 ∷ d.own.payment;
      };
    }
