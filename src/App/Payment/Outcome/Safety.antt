-- ===== src/App/Payment/Outcome/Safety.antt =====
-- No outcome is guessed (internal/app/payment/gateway.go).
use payment_service.Prelude.{◌≡◌, refl, ◌⊎◌, true, Result, ok, err, arith, Option}
use payment_service.Domain.Transaction.{captured, FailureReason}
use payment_service.Ports.Gateway.{
  GatewayError, PaymentResponse, network_timeout, ErrorCategory, succeeded,
}
use payment_service.App.Payment.Outcome.{
  open_outcome, terminal, resolve_outcome, resolve_authorize_outcome, resolve_capture_outcome,
  is_gateway_health_failure,
}

-- A gateway's reply ends a payment as CAPTURED, in any of the three flows, only if the gateway
-- itself reported success, and never from an authorization; an ambiguous error or a timeout leaves
-- the payment open in all three, and each of those two counts against the gateway's health.
pub resolve_never_guesses :
    (reply : Result GatewayError PaymentResponse) (reason : Option FailureReason)
    → ((resolve_outcome reply ≡ terminal captured reason)
          ⊎ (resolve_capture_outcome reply ≡ terminal captured reason)
        → (r : PaymentResponse) × (reply ≡ ok r) × (r.status ≡ succeeded))
      × ¬ (resolve_authorize_outcome reply ≡ terminal captured reason)
      × ((e : GatewayError)
          → reply ≡ err e
          → (e.category ≡ ErrorCategory.ambiguous) ⊎ (e.category ≡ network_timeout)
          → (resolve_outcome reply ≡ open_outcome)
            × (resolve_authorize_outcome reply ≡ open_outcome)
            × (resolve_capture_outcome reply ≡ open_outcome)
            × (is_gateway_health_failure reply ≡ true))
unfolding resolve_outcome resolve_authorize_outcome resolve_capture_outcome
    is_gateway_health_failure
resolve_never_guesses (ok r) reason = (λ h. (r, refl, ground arith), λ h. ground arith, λ e h k. cc)
resolve_never_guesses (err x) reason =
    (λ h. absurd (ground arith), λ h. ground arith, λ e h k. ground arith)
