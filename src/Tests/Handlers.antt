-- ===== src/Tests/Handlers.antt =====
-- The handlers of the forward steps, each at a saga and the event that it waits for.
use go_saga_outbox.Base.{◌≡◌, refl, ◌⊎◌}
use go_saga_outbox.Runtime.{ok}
use go_saga_outbox.Runtime.Ends.{Ends}
use go_saga_outbox.Orchestrator.Model.{
  running, compensating, reserve_seat, charge_payment, send_notification,
}
use go_saga_outbox.Orchestrator.Service.Effects.{Skipped}
use go_saga_outbox.Orchestrator.Service.Refusals.{NoCheck, Refusal}
use go_saga_outbox.Orchestrator.Service.Forward.{
  handle_seat_reserved, handle_payment_charged, handle_notification_sent,
}
use go_saga_outbox.Orchestrator.Service.Forward.NotificationSent.{
  NotificationSentEffect, handle_notification_sent-Ends,
}
use go_saga_outbox.Tests.{calm, codecs, codecs_encode, saga_at, tables_of, world, message}

-- The call succeeds there.
handle_seat_reserved_ok :
    (handle_seat_reserved calm codecs
      (message "seat.reserved")
      (world (tables_of (saga_at running reserve_seat 1)))).0
    ≡ ok tt
unfolding handle_seat_reserved go_saga_outbox.Orchestrator.Service.Shared.once
    go_saga_outbox.Trx.run go_saga_outbox.Orchestrator.Service.Shared.unless_seen
    go_saga_outbox.Inbox.dedup go_saga_outbox.Orchestrator.Repo.find_by_id
    go_saga_outbox.Orchestrator.Service.Forward.advance go_saga_outbox.Orchestrator.Model.deadline
    go_saga_outbox.Orchestrator.Repo.upsert go_saga_outbox.Orchestrator.Service.Shared.record_step
    go_saga_outbox.Orchestrator.Repo.append_step go_saga_outbox.Orchestrator.Service.Shared.emit
    go_saga_outbox.Outbox.append
handle_seat_reserved_ok = refl

-- The call succeeds there.
handle_payment_charged_ok :
    (handle_payment_charged calm codecs
      (message "payment.charged")
      (world (tables_of (saga_at running charge_payment 1)))).0
    ≡ ok tt
unfolding handle_payment_charged go_saga_outbox.Orchestrator.Service.Shared.once
    go_saga_outbox.Trx.run go_saga_outbox.Orchestrator.Service.Shared.unless_seen
    go_saga_outbox.Inbox.dedup go_saga_outbox.Orchestrator.Repo.find_by_id
    go_saga_outbox.Orchestrator.Service.Forward.advance go_saga_outbox.Orchestrator.Model.deadline
    go_saga_outbox.Orchestrator.Repo.upsert go_saga_outbox.Orchestrator.Service.Shared.record_step
    go_saga_outbox.Orchestrator.Repo.append_step go_saga_outbox.Orchestrator.Service.Shared.emit
    go_saga_outbox.Outbox.append
handle_payment_charged_ok = refl

handle_notification_sent-Ends_example :
    Ends
      (Refusal calm codecs
        (message "notification.sent")
        (codecs.sent.unmarshal (message "notification.sent").value)
        NoCheck
        (tables_of (saga_at running send_notification 1)))
      (λ _ d'.
        Skipped calm
          (message "notification.sent")
          (tables_of (saga_at running send_notification 1))
          d'
        ⊎ NotificationSentEffect calm codecs
            (message "notification.sent")
            (tables_of (saga_at running send_notification 1))
            d')
      (handle_notification_sent calm codecs
        (message "notification.sent")
        (world (tables_of (saga_at running send_notification 1))))
handle_notification_sent-Ends_example =
    handle_notification_sent-Ends calm codecs (message "notification.sent")
      (world (tables_of (saga_at running send_notification 1))) codecs_encode

-- The call succeeds there.
handle_notification_sent_ok :
    (handle_notification_sent calm codecs
      (message "notification.sent")
      (world (tables_of (saga_at running send_notification 1)))).0
    ≡ ok tt
unfolding handle_notification_sent go_saga_outbox.Orchestrator.Service.Shared.once
    go_saga_outbox.Trx.run go_saga_outbox.Orchestrator.Service.Shared.unless_seen
    go_saga_outbox.Inbox.dedup go_saga_outbox.Orchestrator.Repo.find_by_id
    go_saga_outbox.Orchestrator.Repo.upsert go_saga_outbox.Orchestrator.Service.Shared.record_step
    go_saga_outbox.Orchestrator.Repo.append_step
handle_notification_sent_ok = refl
