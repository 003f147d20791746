-- ===== src/App/Payment/Process.antt =====
-- internal/app/payment/process.go: a pending payment is taken to its gateway under a lease, and one
-- whose lease has expired is asked after.
pub mod Recovery
use payment_service.Prelude.{
  ℕ, Bool, true, false, not, ◌&&◌, Option, none, some, String, str_eq, Result, ok, err,
  if◌then◌else◌,
}
use payment_service.Prelude.Int.{ℤ, pos, mul64}
use payment_service.Domain.Transaction.{
  Txn, pending, processing, system, status_eq, is_lease_expired,
}
use payment_service.Domain.Transaction.Machine.{transition_state}
use payment_service.Ports.Gateway.{Adapter, GatewayError, PaymentResponse}
use payment_service.Postgres.{Action, ◌>>=◌, ◌>>◌, pure, lift, gets, within_tx, txn_error}
use payment_service.Postgres.Transactions.{get_by_id, update_status}
use payment_service.Postgres.Leases.{acquire}
use payment_service.App.Payment.Outcome.{Outcome, open_outcome, terminal, resolve_outcome}
use payment_service.App.Payment.Service.{
  Service, adapter_for, call_gateway, check_status, record_breaker, enter_intent,
}
use payment_service.App.Payment.Finalize.{finalize}

abbrev pub response_of : Result GatewayError PaymentResponse → Option PaymentResponse
response_of (ok r) = some r
response_of (err _) = none

unfoldable pub attempt_gateways :
    Service → Adapter → Txn → Action (Option PaymentResponse × Outcome)
attempt_gateways s a t = do
  reply ← call_gateway a t
  record_breaker s t.gateway_id reply
  pure (response_of reply, resolve_outcome reply)

abbrev pub claim_or_reload : Bool → Txn → Action (Bool × Txn)
claim_or_reload false t = do current ← get_by_id t.id; pure (false, current)
claim_or_reload true t = do
  now ← gets (λ w. w.clock)
  moved ← lift txn_error (transition_state (some t) processing system now)
  let started = record moved {
    processing_started_at = some now;
    processing_timeout = some (mul64 t.estimated_timeout_seconds (pos 1000000000));
  }
  t' ← update_status started
  pure (true, t')

-- The transaction of `ProcessPayment`: whether the lease was won, and the payment.
unfoldable pub begin_processing : Txn → Action (Bool × Txn)
begin_processing t = do won ← acquire t.id t.id t.estimated_timeout_seconds; claim_or_reload won.0 t

abbrev pub drive : Bool → Service → Adapter → Txn → Action Txn
drive false s a t = pure t
drive true s a t = do
  enter_intent s t.gateway_id t.id
  reply ← attempt_gateways s a t
  finalize s t reply.0 reply.1

abbrev pub process_if : Bool → Service → Txn → Action Txn
process_if false s t = pure t
process_if true s t = do
  a ← adapter_for s t.gateway_id
  begun ← within_tx (begin_processing t)
  drive begun.0 s a begun.1

unfoldable pub process_payment : Service → ℕ → Action Txn
process_payment s id = do t ← get_by_id id; process_if (status_eq t.status pending) s t

abbrev pub recovery_gateway : Txn → String
recovery_gateway t = if str_eq t.actual_gateway "" then t.gateway_id else t.actual_gateway

abbrev pub finish_recovery : Outcome → Service → Txn → Option PaymentResponse → Action Txn
finish_recovery open_outcome s t resp = pure t
finish_recovery (terminal status reason) s t resp = finalize s t resp (terminal status reason)

-- The gateway that got the call is asked what became of it.
unfoldable pub recover : Service → Txn → Action Txn
recover s t = do
  a ← adapter_for s (recovery_gateway t)
  reply ← check_status a (record t { gateway_id = recovery_gateway t })
  record_breaker s (recovery_gateway t) reply
  finish_recovery (resolve_outcome reply) s (record t { gateway_id = recovery_gateway t })
      (response_of reply)

abbrev pub recover_if : Bool → Service → Txn → Action Txn
recover_if true s t = recover s t
recover_if false s t = pure t

unfoldable pub recover_expired_lease : Service → ℕ → Action Txn
recover_expired_lease s id = do
  t ← get_by_id id
  now ← gets (λ w. w.clock)
  recover_if (status_eq t.status processing && is_lease_expired t now) s t
