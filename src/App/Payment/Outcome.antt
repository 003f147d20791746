-- ===== src/App/Payment/Outcome.antt =====
-- internal/app/payment/gateway.go: what a gateway's reply means for the payment.
pub mod Safety
use payment_service.Prelude.{
  ℕ, Bool, true, false, Option, none, some, String, Result, ok, err, if◌then◌else◌,
}
use payment_service.Prelude.Int.{ℤ}
use payment_service.Domain.Transaction.{
  Status, captured, authorized, failed, cancelled, FailureReason, source_gateway, MethodDetails,
  card_details, upi_details, netbanking_details, wallet_details, Txn,
}
use payment_service.Ports.Gateway.{
  ErrorCategory, hard_decline, soft_decline, network_timeout, gateway_error, idempotency_conflict,
  ambiguous, GatewayError, PaymentResponse, PaymentStatus, CaptureResponse, CallError, typed,
  untyped, MethodResponse, card_response, upi_response, netbanking_response, wallet_response,
  succeeded, pending,
}

-- `outcome`: not terminal, or terminal with a status and, for a failure, its reason.
pub data Outcome : Type 0 where
  open_outcome : Outcome
  terminal : Status → Option FailureReason → Outcome

abbrev pub category_text : ErrorCategory → String
category_text hard_decline = "hard_decline"
category_text soft_decline = "soft_decline"
category_text network_timeout = "network_timeout"
category_text gateway_error = "gateway_error"
category_text idempotency_conflict = "idempotency_conflict"
category_text ErrorCategory.ambiguous = "ambiguous"

abbrev pub gateway_failure : GatewayError → FailureReason
gateway_failure e = record {
  category = category_text e.category;
  code = e.code;
  gateway_code = e.gateway_code;
  gateway_message = e.gateway_message;
  source = source_gateway;
}

abbrev pub declined : PaymentResponse → FailureReason
declined r = record {
  category = "gateway_declined";
  code = r.error_code;
  gateway_code = r.error_code;
  gateway_message = r.error_message;
  source = source_gateway;
}

-- The three functions treat an error alike: an ambiguous one or a timeout decides nothing.
abbrev pub resolve_error : ErrorCategory → GatewayError → Outcome
resolve_error ErrorCategory.ambiguous e = open_outcome
resolve_error network_timeout e = open_outcome
resolve_error _ e = terminal failed (some (gateway_failure e))

abbrev resolve_status : PaymentStatus → PaymentResponse → Outcome
resolve_status succeeded r = terminal captured none
resolve_status PaymentStatus.authorized r = terminal authorized none
resolve_status PaymentStatus.failed r = terminal failed (some (declined r))
resolve_status PaymentStatus.cancelled r = terminal cancelled none
resolve_status _ r = open_outcome

unfoldable pub resolve_outcome : Result GatewayError PaymentResponse → Outcome
resolve_outcome (err e) = resolve_error e.category e
resolve_outcome (ok r) = resolve_status r.status r

abbrev resolve_authorize_status : PaymentStatus → PaymentResponse → Outcome
resolve_authorize_status succeeded r = terminal authorized none
resolve_authorize_status pending r = terminal authorized none
resolve_authorize_status PaymentStatus.authorized r = terminal authorized none
resolve_authorize_status PaymentStatus.failed r = terminal failed (some (declined r))
resolve_authorize_status PaymentStatus.cancelled r = terminal cancelled none
resolve_authorize_status _ r = open_outcome

unfoldable pub resolve_authorize_outcome : Result GatewayError PaymentResponse → Outcome
resolve_authorize_outcome (err e) = resolve_error e.category e
resolve_authorize_outcome (ok r) = resolve_authorize_status r.status r

abbrev resolve_capture_status : PaymentStatus → PaymentResponse → Outcome
resolve_capture_status succeeded r = terminal captured none
resolve_capture_status PaymentStatus.failed r = terminal failed (some (declined r))
resolve_capture_status PaymentStatus.cancelled r = terminal cancelled none
resolve_capture_status _ r = open_outcome

unfoldable pub resolve_capture_outcome : Result GatewayError PaymentResponse → Outcome
resolve_capture_outcome (err e) = resolve_error e.category e
resolve_capture_outcome (ok r) = resolve_capture_status r.status r

unfoldable pub new_status_or : Outcome → Status → Status
new_status_or (terminal s _) current = s
new_status_or open_outcome current = current

abbrev pub is_health_category : ErrorCategory → Bool
is_health_category network_timeout = true
is_health_category gateway_error = true
is_health_category ErrorCategory.ambiguous = true
is_health_category _ = false

-- A reply without an error is no failure of the gateway.
unfoldable pub is_gateway_health_failure : {A : Type 0} → Result GatewayError A → Bool
is_gateway_health_failure (ok _) = false
is_gateway_health_failure (err e) = is_health_category e.category

-- An error that is no `*GatewayError` becomes one of category `gateway_error`.
unfoldable pub as_gateway_error : {A : Type 0} → String → Result CallError A → Result GatewayError A
as_gateway_error code (ok r) = ok r
as_gateway_error code (err (typed e)) = err e
as_gateway_error code (err (untyped message)) =
    err (record {
      category = gateway_error;
      code = code;
      gateway_code = "";
      gateway_message = message;
    })

abbrev amount_or : Option ℤ → Txn → ℤ × String
amount_or (some amount) t = (amount, t.gateway_currency)
amount_or none t = (t.amount, t.currency)

unfoldable pub gateway_amount_for : Txn → ℤ × String
gateway_amount_for t = amount_or t.gateway_amount t

unfoldable pub to_method_details : Option MethodResponse → Option MethodDetails
to_method_details none = none
to_method_details (some (card_response brand last4 network risk auth)) =
    some (card_details brand last4 network risk auth)
to_method_details (some (upi_response vpa id bank)) = some (upi_details vpa id bank)
to_method_details (some (netbanking_response bank ref)) = some (netbanking_details bank ref)
to_method_details (some (wallet_response provider id)) = some (wallet_details provider id)

-- `Capture` copies the capture response into a payment response.
unfoldable pub as_payment_response : CaptureResponse → PaymentResponse
as_payment_response r = record {
  gateway_reference_id = r.gateway_reference_id;
  status = r.status;
  amount = r.amount;
  currency = r.currency;
  error_code = r.error_code;
  error_message = r.error_message;
  method_response = none;
  gateway_metadata = none;
}
