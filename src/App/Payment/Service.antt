-- ===== src/App/Payment/Service.antt =====
-- The payment service's collaborators (`Service` in internal/app/payment/service.go), the gateway
-- calls and the calls to the breaker and the intent tracker (gateway.go).
use payment_service.Prelude.{ℕ, Bool, Option, none, some, String, Result, if◌then◌else◌}
use payment_service.Prelude.Int.{ℤ}
use payment_service.Domain.Transaction.{Txn}
use payment_service.Ports.Gateway.{
  Adapter, PaymentRequest, StatusRequest, PaymentResponse, GatewayError,
}
use payment_service.Postgres.{
  Action, ◌>>◌, pure, raise, emit, when, no_adapter, initiated, status_checked, breaker_failure,
  breaker_success, intent_entered, intent_exited,
}
use payment_service.App.Payment.Outcome.{
  is_gateway_health_failure, as_gateway_error, gateway_amount_for,
}

-- A collaborator that may be nil is a flag, or an `Option` where the service uses its result.
pub record Service : Type 0 where
  pub gateways : String → Option Adapter
  pub cancel_resolver : Option (ℕ → ℤ → Action (Unit {0}))
  pub has_breaker : Bool
  pub has_intents : Bool
  pub has_audit : Bool
  pub has_notif : Bool
  pub has_webhooks : Bool
  pub has_bus : Bool
  pub has_metadata : Bool

abbrev pub found_adapter : String → Option Adapter → Action Adapter
found_adapter id none = raise (no_adapter id)
found_adapter id (some a) = pure a

unfoldable pub adapter_for : Service → String → Action Adapter
adapter_for s id = found_adapter id (s.gateways id)

unfoldable pub payment_request : Txn → PaymentRequest
payment_request t = record {
  transaction_id = t.id;
  tenant_id = t.tenant_id;
  amount = (gateway_amount_for t).0;
  currency = (gateway_amount_for t).1;
  payment_method = t.payment_method;
  idempotency_key = t.gateway_idempotency_key;
  metadata = t.metadata;
  customer_email = t.customer_email;
  description = t.description;
  attempt_number = 1;
}

unfoldable pub call_gateway : Adapter → Txn → Action (Result GatewayError PaymentResponse)
call_gateway a t = do
  emit (initiated t.gateway_id (payment_request t))
  pure (as_gateway_error "gateway_call_failed" (a.initiate_payment (payment_request t)))

unfoldable pub status_request : Txn → StatusRequest
status_request t = record {
  transaction_id = t.id;
  tenant_id = t.tenant_id;
  gateway_reference_id = t.gateway_reference_id;
  idempotency_key = t.gateway_idempotency_key;
}

unfoldable pub check_status : Adapter → Txn → Action (Result GatewayError PaymentResponse)
check_status a t = do
  emit (status_checked t.gateway_id (status_request t))
  pure (as_gateway_error "status_check_failed" (a.check_status (status_request t)))

-- The breaker's own errors are logged and dropped.
unfoldable pub record_breaker :
    {A : Type 0} → Service → String → Result GatewayError A → Action (Unit {0})
record_breaker s gateway reply = when s.has_breaker (
    if is_gateway_health_failure reply
    then emit (breaker_failure gateway)
    else emit (breaker_success gateway))

unfoldable pub enter_intent : Service → String → ℕ → Action (Unit {0})
enter_intent s gateway id = when s.has_intents (emit (intent_entered gateway id))

unfoldable pub exit_intent : Service → String → ℕ → Action (Unit {0})
exit_intent s gateway id = when s.has_intents (emit (intent_exited gateway id))
