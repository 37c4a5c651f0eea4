-- ===== src/Tests/Paying.antt =====
-- The payment service: a charge for a saga without a payment, and a refund.
use go_saga_outbox.Base.{pos, ◌≡◌, refl, none, [], ◌∷◌}
use go_saga_outbox.Runtime.{json_syntax, ok, good, bad, World}
use go_saga_outbox.Runtime.Ends.{Ends}
use go_saga_outbox.Payments.{
  PaymentDb, Codecs, charged, handle_charge_command, handle_refund_command,
}
use go_saga_outbox.Tests.{calm, codecs, world, message}

abbrev payment_codecs : Codecs
payment_codecs = record {
  headers = codecs.headers;
  charges = record {
    marshal = λ v. bad json_syntax;
    unmarshal = λ b. good (record { saga_id = 7; user_id = 4; amount = pos 250 });
  };
  refunds = record {
    marshal = λ v. bad json_syntax;
    unmarshal = λ b. good (record { saga_id = 7; payment_id = 8 });
  };
  charged = record {
    marshal = λ v. good (v.payment_id ∷ v.saga_id ∷ []);
    unmarshal = λ b. bad json_syntax;
  };
  failures = record { marshal = λ v. good (v.saga_id ∷ []); unmarshal = λ b. bad json_syntax };
  refunded = record {
    marshal = λ v. good (v.payment_id ∷ v.saga_id ∷ []);
    unmarshal = λ b. bad json_syntax;
  };
}

abbrev no_payments : PaymentDb
no_payments = record { inbox = []; outbox = []; dead_message = []; own = record { payment = [] } }

abbrev idle : World PaymentDb
idle = world no_payments

-- The call succeeds there.
handle_charge_command_ok :
    (handle_charge_command calm payment_codecs (message "charge.command") idle).0 ≡ ok tt
unfolding handle_charge_command go_saga_outbox.Outbox.append
handle_charge_command_ok = refl

-- Saga 7 has this charged payment.
abbrev paid : PaymentDb
paid = record no_payments {
  own = record {
    payment =
        record {
          id = 8;
          saga_id = 7;
          user_id = 4;
          amount_cents = pos 250;
          status = charged;
          external_id = none;
        }
        ∷ [];
  };
}

-- The call succeeds there.
handle_refund_command_ok :
    (handle_refund_command calm payment_codecs
      (message "refund.command")
      (record idle { db = paid })).0
    ≡ ok tt
unfolding handle_refund_command go_saga_outbox.Outbox.append
handle_refund_command_ok = refl
