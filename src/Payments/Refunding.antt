-- ===== src/Payments/Refunding.antt =====
-- `HandleRefundCommand` does what its abstract description says.
use go_saga_outbox.Base.{ℕ, ◌≡◌, ◌⊎◌, true, false, none, some, ◌∷◌, any, update, ◌==◌}
use go_saga_outbox.Runtime.{
  Uuid, Time, Bytes, Error, db_error, cannot_refund_not_charged, good, bad, Env,
}
use go_saga_outbox.Runtime.Ends.{Ends}
use go_saga_outbox.Storage.{new_inbox}
use go_saga_outbox.Contracts.{MessageHeaders, new_message_headers}
use go_saga_outbox.Contracts.Payment.{
  Refund, Refunded, new_refunded, topic_events, event_type_refunded,
}
use go_saga_outbox.Outbox.{has_id}
use go_saga_outbox.Kafka.{Message}
use go_saga_outbox.Payments.{
  Payment, charged, refunded, PaymentDb, Codecs, is_charged, status_is_refunded, overwrite,
  lookup_payment, consumer_name, aggregate_type_payment,
}

module _ (e : Env) (c : Codecs) where
  -- Why a refund can fail.
  pub data RefundRefusal (msg : Message) (d : PaymentDb) (x : Error) : Type 0 where
    struck : (n : ℕ) → e.fault n ≡ true → x ≡ db_error → RefundRefusal msg d x
    bad_value : c.refunds.unmarshal msg.value ≡ bad x → RefundRefusal msg d x
    not_charged :
        (cmd : Refund) (payment : Payment)
        → c.refunds.unmarshal msg.value ≡ good cmd
        → lookup_payment cmd.saga_id d ≡ some payment
        → is_charged payment ≡ false
        → x ≡ cannot_refund_not_charged
        → RefundRefusal msg d x
    row_taken :
        (n : ℕ) → any (has_id (e.fresh n)) d.outbox ≡ true → x ≡ db_error → RefundRefusal msg d x
    bad_event : (v : Refunded) → c.refunded.marshal v ≡ bad x → RefundRefusal msg d x
    bad_headers : (v : MessageHeaders) → c.headers.marshal v ≡ bad x → RefundRefusal msg d x

  -- There is nothing to refund, and the message is only noted: the saga has no payment, or its
  -- payment was refunded before.
  pub record NothingToRefund (msg : Message) (d d' : PaymentDb) : Type 0 where
    pub cmd : Refund
    pub processed_at : Time
    pub decoded : c.refunds.unmarshal msg.value ≡ good cmd
    pub reason :
        (lookup_payment cmd.saga_id d ≡ none)
        ⊎ ((p : Payment) × (lookup_payment cmd.saga_id d ≡ some p)
            × (status_is_refunded p.status ≡ true))
    pub tables :
        d' ≡ record d { inbox = new_inbox msg.message_id consumer_name processed_at ∷ d.inbox }

  -- The charged payment of the saga is refunded, and one event says so.
  pub record RefundedEffect (msg : Message) (d d' : PaymentDb) : Type 0 where
    pub cmd : Refund
    pub payment : Payment
    pub event_id : Uuid
    pub event : Bytes
    pub headers : Bytes
    pub processed_at : Time
    pub created_at : Time
    pub decoded : c.refunds.unmarshal msg.value ≡ good cmd
    pub known : lookup_payment cmd.saga_id d ≡ some payment
    pub was_charged : payment.status ≡ charged
    pub event_json : c.refunded.marshal (new_refunded cmd.saga_id payment.id) ≡ good event
    pub headers_json :
        c.headers.marshal
          (new_message_headers event_id cmd.saga_id (some msg.message_id) event_type_refunded)
        ≡ good headers
    pub tables : d' ≡ record {
      inbox = new_inbox msg.message_id consumer_name processed_at ∷ d.inbox;
      outbox =
          record {
            id = event_id;
            aggregate_type = aggregate_type_payment;
            aggregate_id = payment.id;
            topic = topic_events;
            key = cmd.saga_id;
            payload = event;
            headers = headers;
            created_at = created_at;
            published_at = none;
          }
          ∷ d.outbox;
      dead_message = d.dead_message;
      own = record {
        payment =
            update
              (λ row. row.id == payment.id)
              (overwrite (record payment { status = refunded }))
              d.own.payment;
      };
    }
