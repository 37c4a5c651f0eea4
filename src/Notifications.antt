-- ===== src/Notifications.antt =====
-- The notification service: notification/internal/model, repo, service and consumer/router.go.
pub mod Sending
use go_saga_outbox.Base.{
  String, Bool, Option, none, some, List, ◌∷◌, ◌||◌, find, any, ◌==◌, str_eq, if◌then◌else◌,
}
use go_saga_outbox.Runtime.{
  Uuid, Time, notification_not_found, Outcome, ok, err, panic, Codec, Env, M, pure, raise, crash,
  lift, now, v7, statement, ◌>>=◌, ◌>>◌,
}
use go_saga_outbox.Storage.{Db}
use go_saga_outbox.Contracts.{MessageHeaders}
use go_saga_outbox.Contracts.Notification.{
  Send, Sent, Failed, new_sent, new_failed, topic_events, event_type_send, event_type_sent,
  event_type_failed,
}
use go_saga_outbox.Handling
use go_saga_outbox.Handling.{once}
use go_saga_outbox.Kafka.{Message, Handler, header_or_empty}

pub data NotificationStatus : Type 0 where
  pending sent failed : NotificationStatus

pub record Notification : Type 0 where
  pub id : Uuid
  pub saga_id : Uuid
  pub channel : String
  pub status : NotificationStatus
  pub sent_at : Time

-- `NewNotification`
abbrev pub new_notification : Uuid → Uuid → String → NotificationStatus → Time → Notification
new_notification id saga_id channel status sent_at = record {
  id = id;
  saga_id = saga_id;
  channel = channel;
  status = status;
  sent_at = sent_at;
}

pub record NotificationTables : Type 0 where
  pub notification : List Notification

abbrev pub NotificationDb : Type 0
NotificationDb = Db NotificationTables

abbrev pub set_notifications : List Notification → NotificationDb → NotificationDb
set_notifications rows db = record db { own = record { notification = rows } }

-- The keys `id` and `saga_id`.
abbrev pub clashes : Notification → Notification → Bool
clashes n row = row.id == n.id || row.saga_id == n.saga_id

abbrev pub create_row : Notification → NotificationDb → Option (Unit {0} × NotificationDb)
create_row n db =
    if any (clashes n) db.own.notification
    then none
    else some (tt, set_notifications (n ∷ db.own.notification) db)

-- `Create`
create : Env → Notification → M NotificationDb Unit
unfolding statement
create e n = statement e (create_row n)

abbrev pub lookup_notification : Uuid → NotificationDb → Option Notification
lookup_notification saga_id db = find (λ row. row.saga_id == saga_id) db.own.notification

abbrev found : Option Notification → M NotificationDb Notification
found none = raise notification_not_found
found (some n) = pure n

-- `FindBySagaID`
find_by_saga_id : Env → Uuid → M NotificationDb Notification
unfolding statement
find_by_saga_id e saga_id = do
  row ← statement e (λ db. some (lookup_notification saga_id db, db))
  found row

-- JSON at the types that the service encodes and decodes.
pub record Codecs : Type 0 where
  pub headers : Codec MessageHeaders
  pub sends : Codec Send
  pub sent : Codec Sent
  pub failures : Codec Failed

abbrev pub consumer_name : String
consumer_name = "notification"

abbrev pub aggregate_type_notification : String
aggregate_type_notification = "notification"

-- The channel that is never delivered.
abbrev pub is_broken : String → Bool
is_broken channel = str_eq channel "broken"

module _ (e : Env) (c : Codecs) where
  -- `emit`
  emit : {P : Type 0} → Codec P → Uuid → String → Uuid → Uuid → P → M NotificationDb Unit
  unfolding Handling.emit
  emit codec saga_id event_type notification_id message_id payload =
      Handling.emit e c.headers codec aggregate_type_notification topic_events notification_id
        saga_id event_type payload message_id

  -- Where the channel is broken: a failed notification.
  fail_new : Send → Message → M NotificationDb Unit
  unfolding create emit
  fail_new cmd msg = do
    id ← v7 e
    at ← now e
    let n = new_notification id cmd.saga_id cmd.channel failed at
    create e n
    emit c.failures cmd.saga_id event_type_failed n.id msg.message_id
        (new_failed cmd.saga_id n.id "channel is broken")

  -- Elsewhere: a sent one.
  send_new : Send → Message → M NotificationDb Unit
  unfolding create emit
  send_new cmd msg = do
    id ← v7 e
    at ← now e
    let n = new_notification id cmd.saga_id cmd.channel sent at
    create e n
    emit c.sent cmd.saga_id event_type_sent n.id msg.message_id (new_sent n.id cmd.saga_id)

  -- What the handler does with the result of the look-up.
  send_found : Send → Message → Outcome Notification → M NotificationDb Unit
  unfolding fail_new send_new
  send_found cmd msg (ok n) = pure tt
  send_found cmd msg (err notification_not_found) =
      if is_broken cmd.channel then fail_new cmd msg else send_new cmd msg
  send_found cmd msg (err x) = raise x
  send_found cmd msg panic = crash

  on_send : Message → M NotificationDb Unit
  unfolding find_by_saga_id send_found
  on_send msg = do
    cmd ← lift (c.sends.unmarshal msg.value)
    λ w. let (r, w') = find_by_saga_id e cmd.saga_id w in send_found cmd msg r w'

  unfoldable pub handle_send_command : Message → M NotificationDb Unit
  unfolding once on_send
  handle_send_command msg = once e consumer_name msg (on_send msg)

  -- `Route`
  unfoldable pub route : Handler NotificationDb
  unfolding handle_send_command
  route msg =
      let event_type = header_or_empty "event_type" msg.headers in
      if str_eq event_type event_type_send then handle_send_command msg else pure tt
