-- ===== src/Contracts/Payment.antt =====
-- pkg/contracts/payment
use go_saga_outbox.Base.{ℤ, String}
use go_saga_outbox.Runtime.{Uuid}

abbrev pub topic_commands : String
topic_commands = "saga.payment.commands"

abbrev pub event_type_charge : String
event_type_charge = "charge.command"

abbrev pub event_type_refund : String
event_type_refund = "refund.command"

pub record Charge : Type 0 where
  pub saga_id : Uuid
  pub user_id : Uuid
  pub amount : ℤ  -- int64

abbrev pub new_charge : Uuid → Uuid → ℤ → Charge
new_charge saga_id user_id amount = record { saga_id = saga_id; user_id = user_id; amount = amount }

pub record Refund : Type 0 where
  pub saga_id : Uuid
  pub payment_id : Uuid

abbrev pub new_refund : Uuid → Uuid → Refund
new_refund saga_id payment_id = record { saga_id = saga_id; payment_id = payment_id }

abbrev pub topic_events : String
topic_events = "saga.payment.events"

abbrev pub event_type_charged : String
event_type_charged = "payment.charged"

abbrev pub event_type_failed : String
event_type_failed = "payment.failed"

abbrev pub event_type_refunded : String
event_type_refunded = "payment.refunded"

pub record Charged : Type 0 where
  pub payment_id : Uuid
  pub saga_id : Uuid
  pub amount : ℤ  -- int64

abbrev pub new_charged : Uuid → Uuid → ℤ → Charged
new_charged payment_id saga_id amount = record {
  payment_id = payment_id;
  saga_id = saga_id;
  amount = amount;
}

pub record Failed : Type 0 where
  pub saga_id : Uuid
  pub reason : String

abbrev pub new_failed : Uuid → String → Failed
new_failed saga_id reason = record { saga_id = saga_id; reason = reason }

pub record Refunded : Type 0 where
  pub saga_id : Uuid
  pub payment_id : Uuid

abbrev pub new_refunded : Uuid → Uuid → Refunded
new_refunded saga_id payment_id = record { saga_id = saga_id; payment_id = payment_id }
