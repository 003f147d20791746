-- ===== src/App/Refund/Process.antt =====
-- The refund's run (internal/app/refund/process.go): it is claimed, sent to the gateway, and its
-- result is written together with the payment's.
use payment_service.Prelude.{
  ℕ, Bool, true, false, not, ◌&&◌, Option, none, some, String, str_eq, Result, ok, err,
  if◌then◌else◌,
}
use payment_service.Prelude.Int.{ℤ, pos, leb_ℤ, ltb_ℤ}
use payment_service.Domain.Transaction.{
  Txn, partially_refunded, refund_failed, system, FailureReason,
}
use payment_service.Domain.Transaction
use payment_service.Domain.Transaction.Machine.{transition_state}
use payment_service.Domain.Refund.{Refund, initiated, processing, status_eq, transition}
use payment_service.Domain.Refund
use payment_service.Ports.Gateway.{GatewayError, RefundResponse, Adapter}
use payment_service.Ports.Outbox.{OutboxEvent, EventType, refund, refund_ended, refund_succeeded}
use payment_service.Ports.Outbox
use payment_service.Postgres.{
  Action, ◌>>=◌, ◌>>◌, pure, lift, gets, when, emit, dispatch, within_tx, published, notified,
  webhook, refund_completed, Notice, of_refund, refund_processed, txn_error, refund_error,
}
use payment_service.Postgres.Transactions.{update_status, get_by_id, write_event, write_audit}
use payment_service.Postgres.Refunds.{sum_active_refunds, claim_processing, exists_by_reason}
use payment_service.Postgres.Refunds
use payment_service.App.Payment.Service.{Service, adapter_for}
use payment_service.App.Refund.{
  RefundOutcome, open_refund, ended, resolve_refund_outcome, call_gateway,
}

-- Where the payment goes once one of its refunds has ended, given what its refunds add up to.
unfoldable pub parent_after : Txn → Refund.Status → ℤ → ℤ → Result Transaction.TxnError Txn
parent_after parent Refund.refunded sum now =
    if leb_ℤ parent.amount sum
    then transition_state (some parent) Transaction.refunded system now
    else transition_state (some parent) partially_refunded system now
parent_after parent _ sum now =
    if ltb_ℤ (pos 0) sum then ok parent else transition_state (some parent) refund_failed system now

unfoldable pub transition_parent_on_refund_result : Txn → Refund.Status → Action Txn
transition_parent_on_refund_result parent status = do
  sum ← sum_active_refunds parent.id
  now ← gets (λ w. w.clock)
  lift txn_error (parent_after parent status sum now)

abbrev terminal_type : Refund.Status → EventType
terminal_type Refund.refunded = refund_succeeded
terminal_type _ = Outbox.refund_failed

unfoldable pub build_terminal_event : Refund → Refund.Status → OutboxEvent
build_terminal_event r status = record {
  aggregate_id = r.id;
  aggregate_type = refund;
  event_type = terminal_type status;
  payload = refund_ended r.id r.transaction_id status r.gateway_refund_id r.amount r.version;
  event_version = 1;
  aggregate_version = r.version;
}

abbrev pub message_of : Option FailureReason → String
message_of none = ""
message_of (some r) = r.gateway_message

abbrev pub notify : Refund.Status → ℕ → Option FailureReason → Action (Unit {0})
notify Refund.refunded id reason = dispatch (notified id refund_completed)
notify Refund.failed id reason =
    dispatch (notified id (Notice.refund_failed (some (message_of reason))))
notify _ id reason = pure tt

unfoldable pub dispatch_terminal_notification :
    Service → Txn → Refund.Status → Option FailureReason → Action (Unit {0})
dispatch_terminal_notification s parent status reason =
    when (s.has_notif && not (str_eq parent.customer_email "")) (notify status parent.id reason)

abbrev pub send_webhook : Refund.Status → ℕ → Action (Unit {0})
send_webhook Refund.refunded id = dispatch (webhook id refund_succeeded)
send_webhook Refund.failed id = dispatch (webhook id Outbox.refund_failed)
send_webhook _ id = pure tt

unfoldable pub dispatch_tenant_webhook : Service → Txn → Refund.Status → Action (Unit {0})
dispatch_tenant_webhook s parent status = when s.has_webhooks (send_webhook status parent.id)

abbrev pub bus_status : Refund.Status → Transaction.Status
bus_status Refund.refunded = Transaction.refunded
bus_status _ = refund_failed

-- The second transaction of `runRefund`. A terminal outcome's status is REFUNDED or REFUND_FAILED.
unfoldable pub end_refund :
    Service → Refund → Txn → Refund.Status → Option FailureReason → Action Refund
end_refund s r parent status reason = do
  now ← gets (λ w. w.clock)
  moved ← lift refund_error (transition r status now)
  r' ← Refunds.update_status (record moved { failure_reason = reason })
  parent' ← transition_parent_on_refund_result parent status
  parent'' ← update_status parent'
  write_event (build_terminal_event r' status)
  dispatch_terminal_notification s parent'' status reason
  dispatch_tenant_webhook s parent'' status
  when s.has_bus (emit (published parent''.id (bus_status status)))
  pure r'

unfoldable pub settle_outcome : Service → Refund → Txn → RefundOutcome → Action Refund
settle_outcome s r parent open_refund = within_tx (Refunds.update_status r)
settle_outcome s r parent (ended status reason) = do
  r' ← within_tx (end_refund s r parent status reason)
  when s.has_audit (
      write_audit (record {
        id = 0;
        transaction_id = r'.transaction_id;
        actor = "system";
        previous = of_refund processing;
        next = of_refund status;
        reason = refund_processed;
      }))
  pure r'

unfoldable pub with_reply : Result GatewayError RefundResponse → Refund → Refund
with_reply (ok reply) r = record r {
  gateway_refund_id = reply.gateway_refund_id;
  actual_gateway = r.attempted_gateway;
}
with_reply (err _) r = record r { actual_gateway = r.attempted_gateway }

-- The loser of the claim reads the row again; only the winner calls the gateway.
unfoldable pub after_claim : Service → Adapter → Txn → Bool → Refund → Action Refund
after_claim s a parent false r = Refunds.get_by_id r.id
after_claim s a parent true r = do
  reply ← call_gateway a r parent
  settle_outcome s (with_reply reply r) parent (resolve_refund_outcome reply)

unfoldable pub run_refund : Service → Refund → Action Refund
run_refund s r = do
  parent ← get_by_id r.transaction_id
  adapter ← adapter_for s r.attempted_gateway
  claim ← claim_processing r
  after_claim s adapter parent claim.0 claim.1

abbrev pub run_if : Bool → Service → Refund → Action Refund
run_if true s r = run_refund s r
run_if false s r = pure r

unfoldable pub process_refund : Service → ℕ → Action Refund
process_refund s id = do r ← Refunds.get_by_id id; run_if (status_eq r.status initiated) s r

unfoldable pub retry_stale_refund : Service → ℕ → Action Refund
retry_stale_refund s id = do r ← Refunds.get_by_id id; run_if (status_eq r.status processing) s r
