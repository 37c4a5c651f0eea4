-- ===== src/Notifications/Sending.antt =====
-- `HandleSendCommand` does what its abstract description says.
use go_saga_outbox.Base.{ℕ, ◌≡◌, true, none, some, ◌∷◌, any, if◌then◌else◌}
use go_saga_outbox.Runtime.{Uuid, Time, Bytes, Error, db_error, good, bad, Env}
use go_saga_outbox.Runtime.Ends.{Ends}
use go_saga_outbox.Storage.{new_inbox}
use go_saga_outbox.Contracts.{MessageHeaders, new_message_headers}
use go_saga_outbox.Contracts.Notification.{
  Send, Sent, Failed, new_sent, new_failed, topic_events, event_type_sent, event_type_failed,
}
use go_saga_outbox.Outbox.{has_id}
use go_saga_outbox.Kafka.{Message}
use go_saga_outbox.Handling.Ends.{event_row}
use go_saga_outbox.Notifications.{
  Notification, sent, failed, new_notification, NotificationDb, Codecs, clashes,
  lookup_notification, consumer_name, aggregate_type_notification, is_broken,
}

module _ (e : Env) (c : Codecs) where
  -- Why a notification can fail.
  pub data SendRefusal (msg : Message) (d : NotificationDb) (x : Error) : Type 0 where
    struck : (n : ℕ) → e.fault n ≡ true → x ≡ db_error → SendRefusal msg d x
    bad_value : c.sends.unmarshal msg.value ≡ bad x → SendRefusal msg d x
    key_taken :
        (cmd : Send) (n : Notification)
        → c.sends.unmarshal msg.value ≡ good cmd
        → n.saga_id ≡ cmd.saga_id
        → any (clashes n) d.own.notification ≡ true
        → x ≡ db_error
        → SendRefusal msg d x
    row_taken :
        (n : ℕ) → any (has_id (e.fresh n)) d.outbox ≡ true → x ≡ db_error → SendRefusal msg d x
    bad_event : (v : Sent) → c.sent.marshal v ≡ bad x → SendRefusal msg d x
    bad_failure : (v : Failed) → c.failures.marshal v ≡ bad x → SendRefusal msg d x
    bad_headers : (v : MessageHeaders) → c.headers.marshal v ≡ bad x → SendRefusal msg d x

  -- The saga has a notification, and the message is only noted.
  pub record NotifiedBefore (msg : Message) (d d' : NotificationDb) : Type 0 where
    pub cmd : Send
    pub notification : Notification
    pub processed_at : Time
    pub decoded : c.sends.unmarshal msg.value ≡ good cmd
    pub known : lookup_notification cmd.saga_id d ≡ some notification
    pub tables :
        d' ≡ record d { inbox = new_inbox msg.message_id consumer_name processed_at ∷ d.inbox }

  -- The saga's first notification, failed on the broken channel and sent on any other, and one
  -- event for it.
  pub record NotifiedEffect (msg : Message) (d d' : NotificationDb) : Type 0 where
    pub cmd : Send
    pub id : Uuid
    pub event_id : Uuid
    pub event : Bytes
    pub headers : Bytes
    pub processed_at : Time
    pub sent_at : Time
    pub created_at : Time
    pub decoded : c.sends.unmarshal msg.value ≡ good cmd
    pub first : lookup_notification cmd.saga_id d ≡ none
    pub event_json :
        (if is_broken cmd.channel
          then c.failures.marshal (new_failed cmd.saga_id id "channel is broken")
          else c.sent.marshal (new_sent id cmd.saga_id))
        ≡ good event
    pub headers_json :
        c.headers.marshal (
          new_message_headers event_id cmd.saga_id
            (some msg.message_id)
            (if is_broken cmd.channel then event_type_failed else event_type_sent))
        ≡ good headers
    pub tables : d' ≡ record {
      inbox = new_inbox msg.message_id consumer_name processed_at ∷ d.inbox;
      outbox =
          event_row aggregate_type_notification topic_events event_id id cmd.saga_id event headers
            created_at
          ∷ d.outbox;
      dead_message = d.dead_message;
      own = record {
        notification =
            new_notification id cmd.saga_id cmd.channel
              (if is_broken cmd.channel then failed else sent)
              sent_at
            ∷ d.own.notification;
      };
    }
