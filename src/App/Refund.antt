-- ===== src/App/Refund.antt =====
-- internal/app/refund/service.go and the outcome functions of process.go: what a refund request is
-- checked against, and what a gateway's reply means for the refund. The functions here are those of
-- the service without the idempotency guard (`SetIdempotency` is optional); Guarded is the path with
-- it. A JSON payload always marshals.
pub mod Process
pub mod Guarded
pub mod Inserted
pub mod Requests
pub mod Insertion
pub mod Undisturbed
pub mod Parent
pub mod Shares
pub mod Covered
pub mod Cancelled
use payment_service.Prelude.{
  ℕ, Bool, true, false, Option, none, some, String, Result, ok, err, if◌then◌else◌,
}
use payment_service.Prelude.Int.{ℤ, mul64, div64}
use payment_service.Domain.Transaction.{
  Txn, captured, settled, partially_refunded, refund_failed, refund_pending, system, Fresh,
  FailureReason, source_gateway,
}
use payment_service.Domain.Transaction
use payment_service.Domain.Transaction.Machine.{transition_state}
use payment_service.Domain.Refund.{Refund, new, NewRefund}
use payment_service.Domain.Refund
use payment_service.Ports.Gateway.{
  ErrorCategory, network_timeout, GatewayError, RefundResponse, RefundRequest, RefundStatus,
  completed, Adapter,
}
use payment_service.Ports.Outbox.{OutboxEvent, refund, refund_initiated, refund_started}
use payment_service.Postgres.{
  Action, ◌>>=◌, ◌>>◌, pure, raise, lift, gets, when, emit, within_tx, refund_called, no_state,
  of_refund, refund_request, txn_error, refund_error, not_refundable,
}
use payment_service.Postgres.Transactions.{update_status, get_by_id, write_event, write_audit}
use payment_service.Postgres.Refunds.{lock_parent_transaction, sum_active_refunds, insert}
use payment_service.App.Payment.Outcome.{category_text, as_gateway_error}
use payment_service.App.Payment.Service.{Service}

unfoldable pub is_refundable_status : Transaction.Status → Bool
is_refundable_status captured = true
is_refundable_status settled = true
is_refundable_status partially_refunded = true
is_refundable_status refund_failed = true
is_refundable_status _ = false

pub record InitiateInput : Type 0 where
  pub transaction_id : ℕ
  pub amount : ℤ
  pub reason : String
  pub initiated_by : String

abbrev pub new_refund : InitiateInput → Txn → ℤ → NewRefund
new_refund i parent already = record {
  transaction_id = i.transaction_id;
  amount = i.amount;
  original_amount = parent.amount;
  already_refunded = already;
  reason = i.reason;
  initiated_by = i.initiated_by;
}

abbrev initiated_event : InitiateInput → Txn → Refund → OutboxEvent
initiated_event i parent r = record {
  aggregate_id = r.id;
  aggregate_type = refund;
  event_type = refund_initiated;
  payload =
      refund_started r.id i.transaction_id parent.tenant_id parent.user_id r.amount r.reason
        r.version;
  event_version = 1;
  aggregate_version = r.version;
}

-- The id that `uuid.New` draws for the refund is an argument.
unfoldable pub insert_refund : Service → InitiateInput → ℕ → Txn → Action Refund
insert_refund s i fresh parent = do
  lock_parent_transaction i.transaction_id
  already ← sum_active_refunds i.transaction_id
  now ← gets (λ w. w.clock)
  made ← lift refund_error (
      new (new_refund i parent already)
        (record { fresh_id = fresh; fresh_key = ""; fresh_now = now }))
  let r = record made { attempted_gateway = parent.gateway_id }
  insert r
  write_event (initiated_event i parent r)
  when s.has_audit (
      write_audit (record {
        id = 0;
        transaction_id = r.transaction_id;
        actor = i.initiated_by;
        previous = no_state;
        next = of_refund r.status;
        reason = refund_request i.reason;
      }))
  pure r

-- What `InitiateRefund` does within its transaction.
unfoldable pub begin_refund : Service → InitiateInput → ℕ → Txn → Action Refund
begin_refund s i fresh parent = do
  now ← gets (λ w. w.clock)
  moved ← lift txn_error (transition_state (some parent) refund_pending system now)
  parent' ← update_status moved
  insert_refund s i fresh parent'

abbrev pub require_refundable : Bool → Action (Unit {0})
require_refundable true = pure tt
require_refundable false = raise not_refundable

unfoldable pub initiate_refund : Service → InitiateInput → ℕ → Action Refund
initiate_refund s i fresh = do
  parent ← get_by_id i.transaction_id
  require_refundable (is_refundable_status parent.status)
  within_tx (begin_refund s i fresh parent)

-- `refundOutcome`.
pub data RefundOutcome : Type 0 where
  open_refund : RefundOutcome
  ended : Refund.Status → Option FailureReason → RefundOutcome

abbrev refund_failure : GatewayError → FailureReason
refund_failure e = record {
  category = category_text e.category;
  code = e.code;
  gateway_code = e.gateway_code;
  gateway_message = e.gateway_message;
  source = source_gateway;
}

abbrev reported_failure : FailureReason
reported_failure = record {
  category = "gateway_refund_failed";
  code = "";
  gateway_code = "";
  gateway_message = "";
  source = source_gateway;
}

abbrev resolve_category : ErrorCategory → GatewayError → RefundOutcome
resolve_category ErrorCategory.ambiguous e = open_refund
resolve_category network_timeout e = open_refund
resolve_category ErrorCategory.gateway_error e = open_refund
resolve_category _ e = ended Refund.failed (some (refund_failure e))

abbrev resolve_reported : RefundStatus → RefundOutcome
resolve_reported completed = ended Refund.refunded none
resolve_reported RefundStatus.failed = ended Refund.failed (some reported_failure)
resolve_reported _ = open_refund

unfoldable pub resolve_refund_outcome : Result GatewayError RefundResponse → RefundOutcome
resolve_refund_outcome (err e) = resolve_category e.category e
resolve_refund_outcome (ok r) = resolve_reported r.status

abbrev prorated : Option ℤ → Refund → Txn → ℤ × String
prorated none r parent = (r.amount, parent.currency)
prorated (some charged) r parent =
    (div64 (mul64 charged r.amount) parent.amount, parent.gateway_currency)

-- The share of what the gateway charged that belongs to this refund.
unfoldable pub gateway_refund_amount : Refund → Txn → ℤ × String
gateway_refund_amount r parent = prorated parent.gateway_amount r parent

unfoldable pub call_gateway : Adapter → Refund → Txn → Action (Result GatewayError RefundResponse)
call_gateway a r parent = do
  let q : RefundRequest = record {
    refund_id = r.id;
    transaction_id = r.transaction_id;
    tenant_id = parent.tenant_id;
    gateway_reference_id = parent.gateway_reference_id;
    amount = (gateway_refund_amount r parent).0;
    currency = (gateway_refund_amount r parent).1;
    reason = r.reason;
  }
  emit (refund_called r.attempted_gateway q)
  pure (as_gateway_error "refund_call_failed" (a.refund q))
