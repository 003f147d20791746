-- ===== src/App/Payment/Attempt.antt =====
-- `Authorize`, `Capture` and `Settle` (internal/app/payment/service.go).
use payment_service.Prelude.{ℕ, Bool, true, false, some, Result, ok, err, if◌then◌else◌}
use payment_service.Prelude.Int.{ℤ, pos, mul64, leb_ℤ}
use payment_service.Domain.Transaction.{
  Txn, CaptureMode, manual, processing, authorized, settled, system, status_eq,
}
use payment_service.Domain.Transaction.Machine.{transition_state}
use payment_service.Ports.Gateway.{
  Adapter, CallError, GatewayError, PaymentResponse, CaptureResponse, CaptureRequest,
}
use payment_service.Postgres.{
  Action, ◌>>=◌, ◌>>◌, pure, raise, lift, gets, emit, when, within_tx, txn_error,
  invalid_transition, wrong_capture_mode, capture_called, of_txn, manual_settle,
}
use payment_service.Postgres.Transactions.{get_by_id, update_status, write_audit}
use payment_service.Postgres.Leases.{try_acquire_direct}
use payment_service.App.Payment.Outcome.{
  resolve_authorize_outcome, resolve_capture_outcome, as_gateway_error, as_payment_response,
  gateway_amount_for,
}
use payment_service.App.Payment.Service.{Service, adapter_for, call_gateway, record_breaker}
use payment_service.App.Payment.Finalize.{build_terminal_event, write_event_if}
use payment_service.App.Payment.Process.{response_of, finish_recovery}

-- `return nil, ErrInvalidTransition`, whatever the error was.
unfoldable pub or_invalid_transition : {A : Type 0} → Action A → Action A
or_invalid_transition m w =
    let (r, w') = m w in elim r [ ok a ↦ (ok a, w') | err _ ↦ (err invalid_transition, w') ]

-- The transaction of `Authorize` and of `Capture`; `now` is read before it begins.
unfoldable pub begin_attempt : Txn → ℤ → Action Txn
begin_attempt t now = do
  at ← gets (λ w. w.clock)
  moved ← lift txn_error (transition_state (some t) processing system at)
  update_status (record moved {
    processing_started_at = some now;
    processing_timeout = some (mul64 t.estimated_timeout_seconds (pos 1000000000));
  })

unfoldable pub lease_ttl : Txn → ℤ
lease_ttl t =
    if leb_ℤ t.estimated_timeout_seconds (pos 0) then pos 30 else t.estimated_timeout_seconds

-- The common course: begin, take the lease, and call the gateway if it was won.
unfoldable pub attempt_leased : (Txn → Action Txn) → ℕ → Txn → Action Txn
attempt_leased call id t = do
  now ← gets (λ w. w.clock)
  t' ← or_invalid_transition (within_tx (begin_attempt t now))
  won ← try_acquire_direct t'.id t'.id (lease_ttl t')
  if won then call t' else get_by_id id

unfoldable pub authorize_call : Service → Txn → Action Txn
authorize_call s t = do
  a ← adapter_for s t.gateway_id
  reply ← call_gateway a t
  record_breaker s t.gateway_id reply
  finish_recovery (resolve_authorize_outcome reply) s t (response_of reply)

abbrev pub is_manual : CaptureMode → Bool
is_manual manual = true
is_manual _ = false

unfoldable pub authorize : Service → ℕ → Action Txn
authorize s id = do
  t ← get_by_id id
  (if is_manual t.capture_mode
      then attempt_leased (authorize_call s) id t
      else raise wrong_capture_mode)

unfoldable pub capture_request : Txn → CaptureRequest
capture_request t = record {
  transaction_id = t.id;
  gateway_reference_id = t.gateway_reference_id;
  amount = (gateway_amount_for t).0;
  currency = (gateway_amount_for t).1;
}

abbrev captured_reply : Result CallError CaptureResponse → Result CallError PaymentResponse
captured_reply (ok r) = ok (as_payment_response r)
captured_reply (err e) = err e

unfoldable pub call_capture : Adapter → Txn → Action (Result GatewayError PaymentResponse)
call_capture a t = do
  emit (capture_called t.gateway_id (capture_request t))
  pure (
      as_gateway_error "capture_call_failed"
        (captured_reply (a.capture_payment (capture_request t))))

unfoldable pub capture_call : Service → Txn → Action Txn
capture_call s t = do
  a ← adapter_for s t.gateway_id
  reply ← call_capture a t
  record_breaker s t.gateway_id reply
  finish_recovery (resolve_capture_outcome reply) s t (response_of reply)

unfoldable pub capture : Service → ℕ → Action Txn
capture s id = do
  t ← get_by_id id
  (if status_eq t.status authorized
      then attempt_leased (capture_call s) id t
      else raise invalid_transition)

-- What `Settle` does within its transaction.
unfoldable pub settle_body : Service → Txn → Action Txn
settle_body s t = do
  now ← gets (λ w. w.clock)
  moved ← lift txn_error (transition_state (some t) settled system now)
  t' ← update_status moved
  write_event_if (build_terminal_event t' settled)
  when s.has_audit (
      write_audit (record {
        id = 0;
        transaction_id = t'.id;
        actor = "system";
        previous = of_txn t.status;
        next = of_txn settled;
        reason = manual_settle;
      }))
  pure t'

unfoldable pub settle : Service → ℕ → Action Txn
settle s id = do t ← get_by_id id; or_invalid_transition (within_tx (settle_body s t))
