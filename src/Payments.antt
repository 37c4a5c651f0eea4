-- ===== src/Payments.antt =====
-- The payment service: payment/internal/model, repo, service and consumer/router.go.
pub mod Charging
pub mod Refunding
use go_saga_outbox.Base.{
  ℕ, ℤ, is_negative, String, Bool, true, false, ◌||◌, Option, none, some, List, [], ◌∷◌, find, any,
  update, ◌==◌, str_eq, if◌then◌else◌,
}
use go_saga_outbox.Runtime.{
  Uuid, Error, payment_not_found, cannot_refund_not_charged, negative_amount, Outcome, ok, err,
  panic, Codec, Env, M, pure, raise, crash, lift, now, v7, statement, ◌>>=◌, ◌>>◌,
}
use go_saga_outbox.Trx.{run}
use go_saga_outbox.Storage.{Db}
use go_saga_outbox.Contracts.{MessageHeaders, new_message_headers}
use go_saga_outbox.Contracts.Payment.{
  Charge, Refund, Charged, Failed, Refunded, new_charged, new_failed, new_refunded, topic_events,
  event_type_charge, event_type_refund, event_type_charged, event_type_failed, event_type_refunded,
}
use go_saga_outbox.Inbox.{dedup}
use go_saga_outbox.Outbox.{new_outbox, append}
use go_saga_outbox.Handling
use go_saga_outbox.Handling.{once}
use go_saga_outbox.Kafka.{Message, Handler, header_or_empty}

pub data PaymentStatus : Type 0 where
  authorized charged refunded failed : PaymentStatus

pub record Payment : Type 0 where
  pub id : Uuid
  pub saga_id : Uuid
  pub user_id : Uuid
  pub amount_cents : ℤ  -- int64
  pub status : PaymentStatus
  pub external_id : Option String

pub record PaymentTables : Type 0 where
  pub payment : List Payment

abbrev pub PaymentDb : Type 0
PaymentDb = Db PaymentTables

-- `NewPayment`, with the UUID that it draws: a payment in any case, and an error or none.
abbrev pub new_payment : Uuid → Uuid → Uuid → ℤ → Payment × Option Error
new_payment id saga_id user_id amount_cents = (
  record {
    id = id;
    saga_id = saga_id;
    user_id = user_id;
    amount_cents = amount_cents;
    status = if is_negative amount_cents then failed else charged;
    external_id = none;
  },
  if is_negative amount_cents then some negative_amount else none,
)

abbrev status_is_charged : PaymentStatus → Bool
status_is_charged charged = true
status_is_charged _ = false

abbrev status_is_refunded : PaymentStatus → Bool
status_is_refunded refunded = true
status_is_refunded _ = false

-- `IsCharged`
abbrev pub is_charged : Payment → Bool
is_charged p = status_is_charged p.status

abbrev pub set_payments : List Payment → PaymentDb → PaymentDb
set_payments rows db = record db { own = record { payment = rows } }

-- The keys `id` and `saga_id`.
abbrev pub clashes : Payment → Payment → Bool
clashes p row = row.id == p.id || row.saga_id == p.saga_id

abbrev pub create_row : Payment → PaymentDb → Option (Unit {0} × PaymentDb)
create_row p db =
    if any (clashes p) db.own.payment then none else some (tt, set_payments (p ∷ db.own.payment) db)

-- `Create`
create : Env → Payment → M PaymentDb Unit
unfolding statement
create e p = statement e (create_row p)

abbrev pub lookup_payment : Uuid → PaymentDb → Option Payment
lookup_payment saga_id db = find (λ row. row.saga_id == saga_id) db.own.payment

abbrev found : Option Payment → M PaymentDb Payment
found none = raise payment_not_found
found (some p) = pure p

-- `FindBySagaID`
find_by_saga_id : Env → Uuid → M PaymentDb Payment
unfolding statement
find_by_saga_id e saga_id = do
  row ← statement e (λ db. some (lookup_payment saga_id db, db))
  found row

abbrev pub overwrite : Payment → Payment → Payment
overwrite p row = record row { status = p.status; external_id = p.external_id; user_id = p.user_id }

-- `Update`
update_payment : Env → Payment → M PaymentDb Unit
unfolding statement
update_payment e p =
    statement e (λ db.
      some (tt, set_payments (update (λ row. row.id == p.id) (overwrite p) db.own.payment) db))

-- JSON at the types that the service encodes and decodes.
pub record Codecs : Type 0 where
  pub headers : Codec MessageHeaders
  pub charges : Codec Charge
  pub refunds : Codec Refund
  pub charged : Codec Charged
  pub failures : Codec Failed
  pub refunded : Codec Refunded

abbrev pub consumer_name : String
consumer_name = "payment"

abbrev pub aggregate_type_payment : String
aggregate_type_payment = "payment"

module _ (e : Env) (c : Codecs) where
  -- `emit`
  pub emit : {P : Type 0} → Codec P → Uuid → Uuid → String → P → Uuid → M PaymentDb Unit
  unfolding Handling.emit
  emit codec = Handling.emit e c.headers codec aggregate_type_payment topic_events

  -- `contractFromDomain`, and the event that is sent with it.
  answer : Payment → Option Error → Uuid → Uuid → M PaymentDb Unit
  unfolding emit
  answer p none saga_id causation_id =
      emit c.charged p.id saga_id event_type_charged (new_charged p.id p.saga_id p.amount_cents)
        causation_id
  answer p (some x) saga_id causation_id =
      emit c.failures p.id saga_id event_type_failed (new_failed p.saga_id (e.error_text x))
        causation_id

  charge_new : Charge → Message → M PaymentDb Unit
  unfolding create answer
  charge_new cmd msg = do
    id ← v7 e
    let (payment, domain_err) = new_payment id cmd.saga_id cmd.user_id cmd.amount
    create e payment
    answer payment domain_err cmd.saga_id msg.message_id

  -- What the handler does with the result of the look-up.
  charge_found : Charge → Message → Outcome Payment → M PaymentDb Unit
  unfolding charge_new
  charge_found cmd msg (ok payment) = pure tt
  charge_found cmd msg (err payment_not_found) = charge_new cmd msg
  charge_found cmd msg (err x) = raise x
  charge_found cmd msg panic = crash

  on_charge : Message → M PaymentDb Unit
  unfolding find_by_saga_id charge_found
  on_charge msg = do
    cmd ← lift (c.charges.unmarshal msg.value)
    λ w. let (r, w') = find_by_saga_id e cmd.saga_id w in charge_found cmd msg r w'

  unfoldable pub handle_charge_command : Message → M PaymentDb Unit
  unfolding once on_charge
  handle_charge_command msg = once e consumer_name msg (on_charge msg)

  refund_found : Refund → Message → Outcome Payment → M PaymentDb Unit
  unfolding update_payment emit
  refund_found cmd msg (ok payment) =
      if status_is_refunded payment.status
      then pure tt
      else if is_charged payment
      then (do
        update_payment e (record payment { status = refunded })
        emit c.refunded payment.id cmd.saga_id event_type_refunded
            (new_refunded cmd.saga_id payment.id) msg.message_id)
      else raise cannot_refund_not_charged
  refund_found cmd msg (err payment_not_found) = pure tt
  refund_found cmd msg (err x) = raise x
  refund_found cmd msg panic = crash

  on_refund : Message → M PaymentDb Unit
  unfolding find_by_saga_id refund_found
  on_refund msg = do
    cmd ← lift (c.refunds.unmarshal msg.value)
    λ w. let (r, w') = find_by_saga_id e cmd.saga_id w in refund_found cmd msg r w'

  unfoldable pub handle_refund_command : Message → M PaymentDb Unit
  unfolding once on_refund
  handle_refund_command msg = once e consumer_name msg (on_refund msg)

  -- `Route`
  unfoldable pub route : Handler PaymentDb
  unfolding handle_charge_command handle_refund_command
  route msg =
      let event_type = header_or_empty "event_type" msg.headers in
      if str_eq event_type event_type_charge
      then handle_charge_command msg
      else if str_eq event_type event_type_refund
      then handle_refund_command msg
      else pure tt
