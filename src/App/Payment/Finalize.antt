-- ===== src/App/Payment/Finalize.antt =====
-- `finalize` and what it calls (internal/app/payment/gateway.go): the one place that writes a
-- payment's outcome.
pub mod Commit
pub mod Recorded
pub mod Audited
pub mod Undisturbed
use payment_service.Prelude.{
  ℕ, Bool, true, false, not, ◌&&◌, Option, none, some, String, str_eq, Result, ok, err,
  if◌then◌else◌, is_some,
}
use payment_service.Prelude.Int.{ℤ}
use payment_service.Domain.Transaction.{
  Status, Txn, captured, failed, cancelled, status_eq, FailureReason, gateway, MethodDetails,
}
use payment_service.Domain.Transaction.Machine.{transition_state}
use payment_service.Ports.Gateway.{PaymentResponse}
use payment_service.Ports.Outbox.{
  OutboxEvent, EventType, transaction, terminal as terminal_payload, callback, transaction_callback,
  transaction_captured, transaction_failed, transaction_cancelled,
  event_type_for_transaction_status,
}
use payment_service.Postgres.{
  Action, World, ◌>>=◌, ◌>>◌, pure, raise, lift, gets, emit, dispatch, when, ignore_error,
  within_tx, AuditEntry, AuditState, of_txn, gateway_finalize, CachedResponse, txn_error, published,
  notified, webhook, payment_success, payment_failure,
}
use payment_service.Postgres.Transactions.{update_status, write_event, write_audit}
use payment_service.Postgres.Leases.{write_cached_response}
use payment_service.App.Payment.Outcome.{
  Outcome, open_outcome, terminal, new_status_or, to_method_details,
}
use payment_service.App.Payment.Service.{Service, exit_intent}

abbrev pub with_details : Option MethodDetails → Txn → Txn
with_details none t = t
with_details (some md) t = record t { method_details = some md }

-- What the reply adds to the payment in memory.
unfoldable pub with_response : Option PaymentResponse → Txn → Txn
with_response none t = t
with_response (some r) t = with_details (to_method_details r.method_response) (
    if str_eq r.gateway_reference_id ""
    then t
    else record t { gateway_reference_id = r.gateway_reference_id })

abbrev terminal_event : Txn → Status → EventType → OutboxEvent
terminal_event t status kind = record {
  aggregate_id = t.id;
  aggregate_type = transaction;
  event_type = kind;
  payload = terminal_payload t.id status t.actual_gateway t.gateway_reference_id t.amount t.version;
  event_version = 1;
  aggregate_version = t.version;
}

abbrev event_of : Option EventType → Txn → Status → Option OutboxEvent
event_of none t status = none
event_of (some kind) t status = some (terminal_event t status kind)

unfoldable pub build_terminal_event : Txn → Status → Option OutboxEvent
build_terminal_event t status = event_of (event_type_for_transaction_status status) t status

unfoldable pub write_event_if : Option OutboxEvent → Action (Unit {0})
write_event_if none = pure tt
write_event_if (some e) = write_event e

abbrev pub callback_event : Txn → Status → OutboxEvent
callback_event t status = record {
  aggregate_id = t.id;
  aggregate_type = transaction;
  event_type = transaction_callback;
  payload = callback t.id status t.callback_url;
  event_version = 1;
  aggregate_version = t.version;
}

abbrev message_of : Option FailureReason → Option String
message_of none = none
message_of (some r) = some r.gateway_message

abbrev notify : Status → ℕ → Option FailureReason → Action (Unit {0})
notify captured id reason = dispatch (notified id payment_success)
notify failed id reason = dispatch (notified id (payment_failure (message_of reason)))
notify _ id reason = pure tt

unfoldable pub dispatch_terminal_notification :
    Service → Txn → Status → Option FailureReason → Action (Unit {0})
dispatch_terminal_notification s t status reason =
    when (s.has_notif && not (str_eq t.customer_email "")) (notify status t.id reason)

abbrev send_webhook : Status → ℕ → Action (Unit {0})
send_webhook captured id = dispatch (webhook id transaction_captured)
send_webhook failed id = dispatch (webhook id transaction_failed)
send_webhook cancelled id = dispatch (webhook id transaction_cancelled)
send_webhook _ id = pure tt

unfoldable pub dispatch_tenant_webhook : Service → Txn → Status → Action (Unit {0})
dispatch_tenant_webhook s t status = when s.has_webhooks (send_webhook status t.id)

-- The first part of the transaction: the transition, its reason and its audit entry.
unfoldable pub apply_outcome : Service → Txn → Outcome → Action Txn
apply_outcome s t open_outcome = pure t
apply_outcome s t (terminal status reason) = do
  now ← gets (λ w. w.clock)
  t' ← lift txn_error (transition_state (some t) status gateway now)
  when s.has_audit (
      write_audit (record {
        id = 0;
        transaction_id = t'.id;
        actor = "gateway";
        previous = of_txn t.status;
        next = of_txn status;
        reason = gateway_finalize;
      }))
  pure (record t' { failure_reason = reason })

-- The last part: the events and the dispatches.
unfoldable pub emit_terminal : Service → Txn → Outcome → Action (Unit {0})
emit_terminal s t open_outcome = pure tt
emit_terminal s t (terminal status reason) = do
  write_event_if (build_terminal_event t status)
  when (not (str_eq t.callback_url "")) (write_event (callback_event t status))
  dispatch_terminal_notification s t status reason
  dispatch_tenant_webhook s t status

unfoldable pub cached_response : Txn → Outcome → CachedResponse
cached_response t result = record {
  status = new_status_or result t.status;
  gateway_reference_id = t.gateway_reference_id;
}

-- What `finalize` does within its transaction.
unfoldable pub commit_outcome : Service → Txn → Outcome → CachedResponse → Action Txn
commit_outcome s t result cached = do
  t1 ← apply_outcome s t result
  t2 ← update_status t1
  emit_terminal s t2 result
  write_cached_response t2.id cached
  pure t2

abbrev run_resolver : Option (ℕ → ℤ → Action (Unit {0})) → Txn → Action (Unit {0})
run_resolver none t = pure tt
run_resolver (some resolve) t = ignore_error (resolve t.id t.amount)

abbrev resolve_on : Outcome → Service → Txn → Action (Unit {0})
resolve_on (terminal captured _) s t = when t.cancel_intent (run_resolver s.cancel_resolver t)
resolve_on _ s t = pure tt

-- The resolver's error is logged and dropped.
unfoldable pub resolve_cancel_if_requested : Service → Txn → Outcome → Action (Unit {0})
resolve_cancel_if_requested s t result = resolve_on result s t

unfoldable pub after_commit : Service → Txn → Outcome → Action (Unit {0})
after_commit s t open_outcome = pure tt
after_commit s t (terminal status _) = do
  when s.has_bus (emit (published t.id status))
  exit_intent s t.gateway_id t.id

unfoldable pub finalize : Service → Txn → Option PaymentResponse → Outcome → Action Txn
finalize s txn resp result = do
  let t = record (with_response resp txn) { actual_gateway = txn.gateway_id }
  let cached = cached_response t result
  t' ← within_tx (commit_outcome s t result cached)
  after_commit s t' result
  resolve_cancel_if_requested s t' result
  pure t'
