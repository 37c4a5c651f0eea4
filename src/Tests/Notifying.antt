-- ===== src/Tests/Notifying.antt =====
-- The notification service: the first notification of a saga.
use go_saga_outbox.Base.{◌≡◌, refl, [], ◌∷◌}
use go_saga_outbox.Runtime.{ok}
use go_saga_outbox.Runtime.Ends.{Ends}
use go_saga_outbox.Notifications.{NotificationDb, Codecs, handle_send_command}
use go_saga_outbox.Tests.{calm, codecs, world, message, read_only, write_only}

abbrev notification_codecs : Codecs
notification_codecs = record {
  headers = codecs.headers;
  sends = read_only (record { saga_id = 7; user_id = 4; channel = "broken" });
  sent = write_only λ v. v.notification_id ∷ v.saga_id ∷ [];
  failures = write_only λ v. v.notification_id ∷ v.saga_id ∷ [];
}

abbrev silent : NotificationDb
silent = record { inbox = []; outbox = []; dead_message = []; own = record { notification = [] } }

-- The call succeeds there.
send_ok :
    (handle_send_command calm notification_codecs (message "send.command") (world silent)).0 ≡ ok tt
unfolding handle_send_command
send_ok = refl
