-- ===== src/Tests/Compensating.antt =====
-- The handlers of failures and of compensation, each at a saga and the event that it waits for.
use go_saga_outbox.Base.{◌≡◌, refl, ◌⊎◌}
use go_saga_outbox.Runtime.{ok}
use go_saga_outbox.Runtime.Ends.{Ends}
use go_saga_outbox.Orchestrator.Model.{
  running, compensating, reserve_seat, charge_payment, send_notification,
}
use go_saga_outbox.Orchestrator.Service.Effects.{Skipped}
use go_saga_outbox.Orchestrator.Service.Refusals.{NoCheck, Refusal}
use go_saga_outbox.Orchestrator.Service.Failures.{
  handle_seat_reservation_failed, handle_payment_failed, handle_notification_failed,
}
use go_saga_outbox.Orchestrator.Service.Compensation.{handle_payment_refunded, handle_seat_released}
use go_saga_outbox.Orchestrator.Service.Failures.NotificationFailed.{
  LateNotificationFailure, NotificationFailedEffect, handle_notification_failed-Ends,
}
use go_saga_outbox.Orchestrator.Service.Compensation.PaymentRefunded.{
  StrayRefund, PaymentRefundedEffect, OtherPayment, handle_payment_refunded-Ends,
}
use go_saga_outbox.Tests.{calm, codecs, codecs_encode, saga_at, tables_of, world, message}

-- The call succeeds there.
handle_seat_reservation_failed_ok :
    (handle_seat_reservation_failed calm codecs
      (message "seat.reservation_failed")
      (world (tables_of (saga_at running reserve_seat 1)))).0
    ≡ ok tt
unfolding handle_seat_reservation_failed go_saga_outbox.Orchestrator.Service.Shared.once
    go_saga_outbox.Trx.run go_saga_outbox.Orchestrator.Service.Shared.unless_seen
    go_saga_outbox.Inbox.dedup go_saga_outbox.Orchestrator.Repo.find_by_id
    go_saga_outbox.Orchestrator.Repo.upsert go_saga_outbox.Orchestrator.Service.Shared.record_step
    go_saga_outbox.Orchestrator.Repo.append_step
handle_seat_reservation_failed_ok = refl

-- The call succeeds there.
handle_payment_failed_ok :
    (handle_payment_failed calm codecs
      (message "payment.failed")
      (world (tables_of (saga_at running charge_payment 1)))).0
    ≡ ok tt
unfolding handle_payment_failed go_saga_outbox.Orchestrator.Service.Shared.once
    go_saga_outbox.Trx.run go_saga_outbox.Orchestrator.Service.Shared.unless_seen
    go_saga_outbox.Inbox.dedup go_saga_outbox.Orchestrator.Repo.find_by_id
    go_saga_outbox.Orchestrator.Repo.upsert go_saga_outbox.Orchestrator.Service.Shared.record_step
    go_saga_outbox.Orchestrator.Repo.append_step go_saga_outbox.Orchestrator.Service.Shared.emit
    go_saga_outbox.Outbox.append
handle_payment_failed_ok = refl

handle_notification_failed-Ends_example :
    Ends
      (Refusal calm codecs
        (message "notification.failed")
        (codecs.notifications_failed.unmarshal (message "notification.failed").value)
        NoCheck
        (tables_of (saga_at running send_notification 1)))
      (λ _ d'.
        Skipped calm
          (message "notification.failed")
          (tables_of (saga_at running send_notification 1))
          d'
        ⊎ LateNotificationFailure calm codecs
            (message "notification.failed")
            (tables_of (saga_at running send_notification 1))
            d'
        ⊎ NotificationFailedEffect calm codecs
            (message "notification.failed")
            (tables_of (saga_at running send_notification 1))
            d')
      (handle_notification_failed calm codecs
        (message "notification.failed")
        (world (tables_of (saga_at running send_notification 1))))
handle_notification_failed-Ends_example =
    handle_notification_failed-Ends calm codecs (message "notification.failed")
      (world (tables_of (saga_at running send_notification 1))) codecs_encode

-- The call succeeds there.
handle_notification_failed_ok :
    (handle_notification_failed calm codecs
      (message "notification.failed")
      (world (tables_of (saga_at running send_notification 1)))).0
    ≡ ok tt
unfolding handle_notification_failed go_saga_outbox.Orchestrator.Service.Shared.once
    go_saga_outbox.Trx.run go_saga_outbox.Orchestrator.Service.Shared.unless_seen
    go_saga_outbox.Inbox.dedup go_saga_outbox.Orchestrator.Repo.find_by_id
    go_saga_outbox.Orchestrator.Repo.upsert go_saga_outbox.Orchestrator.Service.Shared.record_step
    go_saga_outbox.Orchestrator.Repo.append_step go_saga_outbox.Orchestrator.Service.Shared.emit
    go_saga_outbox.Outbox.append
handle_notification_failed_ok = refl

handle_payment_refunded-Ends_example :
    Ends
      (Refusal calm codecs
        (message "payment.refunded")
        (codecs.refunded.unmarshal (message "payment.refunded").value)
        (OtherPayment calm codecs (message "payment.refunded"))
        (tables_of (saga_at compensating send_notification 1)))
      (λ _ d'.
        Skipped calm
          (message "payment.refunded")
          (tables_of (saga_at compensating send_notification 1))
          d'
        ⊎ StrayRefund calm codecs
            (message "payment.refunded")
            (tables_of (saga_at compensating send_notification 1))
            d'
        ⊎ PaymentRefundedEffect calm codecs
            (message "payment.refunded")
            (tables_of (saga_at compensating send_notification 1))
            d')
      (handle_payment_refunded calm codecs
        (message "payment.refunded")
        (world (tables_of (saga_at compensating send_notification 1))))
handle_payment_refunded-Ends_example =
    handle_payment_refunded-Ends calm codecs (message "payment.refunded")
      (world (tables_of (saga_at compensating send_notification 1))) codecs_encode

-- The call succeeds there.
handle_payment_refunded_ok :
    (handle_payment_refunded calm codecs
      (message "payment.refunded")
      (world (tables_of (saga_at compensating send_notification 1)))).0
    ≡ ok tt
unfolding handle_payment_refunded go_saga_outbox.Orchestrator.Service.Shared.once
    go_saga_outbox.Trx.run go_saga_outbox.Orchestrator.Service.Shared.unless_seen
    go_saga_outbox.Inbox.dedup go_saga_outbox.Orchestrator.Repo.find_by_id
    go_saga_outbox.Orchestrator.Repo.upsert go_saga_outbox.Orchestrator.Service.Shared.record_step
    go_saga_outbox.Orchestrator.Repo.append_step go_saga_outbox.Orchestrator.Service.Shared.emit
    go_saga_outbox.Outbox.append
handle_payment_refunded_ok = refl

-- The call succeeds there.
handle_seat_released_ok :
    (handle_seat_released calm codecs
      (message "seat.released")
      (world (tables_of (saga_at compensating charge_payment 1)))).0
    ≡ ok tt
unfolding handle_seat_released go_saga_outbox.Orchestrator.Service.Shared.once
    go_saga_outbox.Trx.run go_saga_outbox.Orchestrator.Service.Shared.unless_seen
    go_saga_outbox.Inbox.dedup go_saga_outbox.Orchestrator.Repo.find_by_id
    go_saga_outbox.Orchestrator.Service.Compensation.is_mismatch
    go_saga_outbox.Orchestrator.Repo.upsert go_saga_outbox.Orchestrator.Service.Shared.record_step
    go_saga_outbox.Orchestrator.Repo.append_step
handle_seat_released_ok = refl
