-- ===== src/Tests/Samples.antt =====
-- A payment, a refund, a service and a database to run the model on.
use payment_service.Prelude.{Bool, true, false, none, some, List, [], ◌∷◌, ok, err}
use payment_service.Prelude.Int.{pos}
use payment_service.Domain.Transaction.{Txn, processing, captured, card, auto}
use payment_service.Domain.Refund.{Refund}
use payment_service.Domain.Refund
use payment_service.Ports.Gateway.{
  Adapter, PaymentResponse, succeeded, typed, GatewayError, ambiguous, completed,
}
use payment_service.Postgres.{World, Lease, outside}
use payment_service.App.Payment.Service.{Service}

-- A PROCESSING payment of 500.00 INR, of which the gateway charges 510.00.
abbrev pub paying : Txn
paying = record {
  id = 7;
  tenant_id = 1;
  user_id = 2;
  amount = pos 50000;
  currency = "INR";
  payment_method = card;
  status = processing;
  capture_mode = auto;
  version = 2;
  gateway_id = "razorpay";
  gateway_reference_id = "";
  gateway_idempotency_key = "key-7";
  attempted_gateway = "razorpay";
  actual_gateway = "";
  original_gateway = "razorpay";
  estimated_timeout_seconds = pos 30;
  failure_reason = none;
  method_details = none;
  metadata = "{}";
  description = "";
  customer_id = 3;
  customer_email = "a@b.c";
  cancel_intent = false;
  cancel_requested_by = none;
  cancel_requested_at = none;
  cancel_requested_via = none;
  processing_started_at = some (pos 0);
  processing_timeout = some (pos 30000000000);
  callback_url = "https://shop.test/done";
  redirect_url = "";
  token_hash = "";
  gateway_fee_estimate = none;
  gateway_fee_currency = "";
  gateway_fee_model_version = 0;
  fee_breakdown = none;
  gateway_amount = some (pos 51000);
  gateway_currency = "INR";
  created_at = pos 0;
  updated_at = pos 0;
}

-- The same, paid and with the lease fields cleared.
abbrev pub paid : Txn
paid = record paying { status = captured; processing_started_at = none; processing_timeout = none }

abbrev pub half : Refund
half = record {
  id = 21;
  transaction_id = 7;
  amount = pos 25000;
  reason = "damaged";
  status = Refund.processing;
  initiated_by = "ops";
  gateway_refund_id = "";
  attempted_gateway = "razorpay";
  actual_gateway = "";
  attempts = 1;
  failure_reason = none;
  initiated_at = pos 0;
  resolved_at = none;
  version = 1;
}

abbrev pub unknown : GatewayError
unknown = record { category = ambiguous; code = "x"; gateway_code = ""; gateway_message = "" }

abbrev pub accepted : PaymentResponse
accepted = record {
  gateway_reference_id = "pay_1";
  status = succeeded;
  amount = pos 51000;
  currency = "INR";
  error_code = "";
  error_message = "";
  method_response = none;
  gateway_metadata = none;
}

-- A gateway that takes every payment and never knows what became of one.
abbrev pub forgetful : Adapter
forgetful = record {
  initiate_payment = λ _. ok accepted;
  check_status = λ _. err (typed unknown);
  capture_payment = λ _. err (typed unknown);
  refund = λ q. ok (record {
    gateway_refund_id = "rf_1";
    status = completed;
    amount = q.amount;
    currency = q.currency;
  });
}

abbrev pub service : Service
service = record {
  gateways = λ _. some forgetful;
  cancel_resolver = none;
  has_breaker = true;
  has_intents = true;
  has_audit = true;
  has_notif = true;
  has_webhooks = true;
  has_bus = true;
  has_metadata = true;
}

abbrev pub lease : Lease
lease = record {
  key = 7;
  payment_intent_id = 7;
  acquired_at = pos 0;
  ttl_sec = pos 30;
  cached_response = none;
}

abbrev pub world_with : Txn → List Refund → List Bool → World
world_with t rs faults = record {
  db = record {
    txns = t ∷ [];
    refunds = rs;
    outbox = [];
    leases = lease ∷ [];
    gateway_metadata = [];
    dispatched = [];
    keys = [];
    webhook_events = [];
    disputes = [];
    evidence = [];
    jobs = [];
    entries = [];
  };
  tx = outside;
  audit = [];
  effects = [];
  clock = pos 60000000000;
  faults = faults;
}
