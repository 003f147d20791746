-- ===== src/App/Webhook.antt =====
-- internal/app/webhook/service.go: what an event of a gateway does to a payment.
pub mod Applied
pub mod Processed
pub mod Deliveries
use payment_service.Prelude.{
  ℕ, Bool, true, false, not, ◌&&◌, ◌||◌, Option, none, some, String, str_eq, Result, ok, err,
  if◌then◌else◌,
}
use payment_service.Prelude.Int.{ℤ}
use payment_service.Domain.Transaction.{
  Status, Txn, TxnError, captured, failed, cancelled, processing, authorized, refunded, status_eq,
  FailureReason, source_gateway, gateway,
}
use payment_service.Domain.Transaction.Machine.{transition_state}
use payment_service.Ports.Outbox.{
  OutboxEvent, EventType, transaction, webhook_event, transaction_captured, transaction_failed,
  transaction_cancelled, event_type_for_transaction_status,
}
use payment_service.Postgres.{
  Action, World, ◌>>=◌, ◌>>◌, pure, gets, emit, dispatch, when, ignore_error, within_tx, of_txn,
  webhook_received, published, notified, webhook, payment_success, payment_failure,
}
use payment_service.Postgres.Transactions.{
  update_status, write_event, write_audit, insert_gateway_metadata,
}
use payment_service.Postgres.Webhooks.{record_event, get_by_gateway_reference}
use payment_service.App.Payment.Finalize.{callback_event, write_event_if}

-- A collaborator that may be nil is a flag, or an `Option` where the service uses its result.
pub record Service : Type 0 where
  pub has_audit : Bool
  pub has_notif : Bool
  pub has_webhooks : Bool
  pub has_bus : Bool
  pub cancel_resolver : Option (ℕ → ℤ → Action (Unit {0}))

pub record Event : Type 0 where
  pub event_id : String
  pub gateway_reference_id : String
  pub status : String

-- `status` is `none` and `transaction_id` 0 where the code leaves the zero value.
pub record Outcome : Type 0 where
  pub duplicate : Bool
  pub unknown_txn : Bool
  pub resolved : Bool
  pub status : Option Status
  pub transaction_id : ℕ

abbrev pub no_outcome : Outcome
no_outcome = record {
  duplicate = false;
  unknown_txn = false;
  resolved = false;
  status = none;
  transaction_id = 0;
}

abbrev pub is_duplicate : Outcome
is_duplicate = record no_outcome { duplicate = true }

abbrev pub is_unknown : Outcome
is_unknown = record no_outcome { unknown_txn = true }

abbrev pub is_kept : Status → Outcome
is_kept s = record no_outcome { status = some s }

abbrev pub is_resolved : Txn → Status → Outcome
is_resolved t s = record no_outcome { resolved = true; status = some s; transaction_id = t.id }

-- `none` where the text is no terminal status.
unfoldable pub map_webhook_status : String → Option Status
map_webhook_status s =
    if str_eq s "succeeded" || str_eq s "success" || str_eq s "captured" || str_eq s "paid"
    then some captured
    else if str_eq s "authorized"
    then some authorized
    else if str_eq s "failed" || str_eq s "failure"
    then some failed
    else if str_eq s "cancelled" || str_eq s "canceled"
    then some cancelled
    else if str_eq s "refunded"
    then some refunded
    else none

abbrev event_of : Option EventType → Txn → Status → String → Option OutboxEvent
event_of none t status gateway_id = none
event_of (some kind) t status gateway_id = some (record {
  aggregate_id = t.id;
  aggregate_type = transaction;
  event_type = kind;
  payload = webhook_event t.id status gateway_id t.version;
  event_version = 1;
  aggregate_version = t.version;
})

unfoldable pub build_event : Txn → Status → String → Option OutboxEvent
build_event t status gateway_id =
    event_of (event_type_for_transaction_status status) t status gateway_id

abbrev message_of : Option FailureReason → String
message_of none = ""
message_of (some r) = r.gateway_message

abbrev pub notify : Status → Txn → Action (Unit {0})
notify captured t = dispatch (notified t.id payment_success)
notify failed t = dispatch (notified t.id (payment_failure (some (message_of t.failure_reason))))
notify _ t = pure tt

unfoldable pub dispatch_terminal_notification : Service → Txn → Status → Action (Unit {0})
dispatch_terminal_notification s t status =
    when (s.has_notif && not (str_eq t.customer_email "")) (notify status t)

abbrev pub send_webhook : Status → Txn → Action (Unit {0})
send_webhook captured t = dispatch (webhook t.id transaction_captured)
send_webhook failed t = dispatch (webhook t.id transaction_failed)
send_webhook cancelled t = dispatch (webhook t.id transaction_cancelled)
send_webhook _ t = pure tt

unfoldable pub dispatch_tenant_webhook : Service → Txn → Status → Action (Unit {0})
dispatch_tenant_webhook s t status = when s.has_webhooks (send_webhook status t)

abbrev pub run_resolver : Option (ℕ → ℤ → Action (Unit {0})) → Txn → Action (Unit {0})
run_resolver none t = pure tt
run_resolver (some resolve) t = ignore_error (resolve t.id t.amount)

-- The resolver's error is logged and dropped.
unfoldable pub resolve_cancel_if_requested : Service → Txn → Status → Action (Unit {0})
resolve_cancel_if_requested s t status =
    when (status_eq status captured && t.cancel_intent) (run_resolver s.cancel_resolver t)

abbrev pub webhook_failure : FailureReason
webhook_failure = record {
  category = "gateway_webhook_failed";
  code = "";
  gateway_code = "";
  gateway_message = "";
  source = source_gateway;
}

abbrev pub with_reason : Status → Txn → Txn
with_reason failed t = record t { failure_reason = some webhook_failure }
with_reason _ t = t

-- The payment has taken the new status: it is written, with its events.
unfoldable pub apply_status : Service → String → Status → Txn → Action Outcome
apply_status s gateway_id status moved = do
  t ← update_status (with_reason status moved)
  when s.has_audit (
      write_audit (record {
        id = 0;
        transaction_id = t.id;
        actor = "gateway";
        previous = of_txn processing;
        next = of_txn status;
        reason = webhook_received;
      }))
  write_event_if (build_event t status gateway_id)
  when (not (str_eq t.callback_url "")) (write_event (callback_event t status))
  dispatch_terminal_notification s t status
  dispatch_tenant_webhook s t status
  resolve_cancel_if_requested s t status
  pure (is_resolved t status)

-- A transition that the machine refuses leaves the payment, and is no error.
abbrev pub moved_or_kept : Service → String → Status → Txn → Result TxnError Txn → Action Outcome
moved_or_kept s gateway_id status t (err _) = pure (is_kept t.status)
moved_or_kept s gateway_id status t (ok moved) = apply_status s gateway_id status moved

unfoldable pub advance : Service → String → Status → Txn → Action Outcome
advance s gateway_id status t = do
  now ← gets (λ w. w.clock)
  moved_or_kept s gateway_id status t (transition_state (some t) status gateway now)

abbrev pub advance_if : Option Status → Service → String → Txn → Action Outcome
advance_if none s gateway_id t = pure (is_kept t.status)
advance_if (some status) s gateway_id t =
    if status_eq status t.status then pure (is_kept t.status) else advance s gateway_id status t

abbrev pub on_payment : Option Txn → Service → String → Event → String → Action Outcome
on_payment none s gateway_id ev raw = pure is_unknown
on_payment (some t) s gateway_id ev raw = do
  insert_gateway_metadata t.id gateway_id raw
  advance_if (map_webhook_status ev.status) s gateway_id t

abbrev pub on_recorded : Bool → Service → String → Event → String → Action Outcome
on_recorded false s gateway_id ev raw = pure is_duplicate
on_recorded true s gateway_id ev raw = do
  found ← get_by_gateway_reference gateway_id ev.gateway_reference_id
  on_payment found s gateway_id ev raw

-- What `Process` does within its transaction.
unfoldable pub process_body : Service → String → Event → String → Action Outcome
process_body s gateway_id ev raw = do
  recorded ← record_event ev.event_id gateway_id
  on_recorded recorded s gateway_id ev raw

abbrev pub status_or_zero :
    Option Status → Action (Unit {0}) → (Status → Action (Unit {0})) → Action (Unit {0})
status_or_zero none m f = m
status_or_zero (some s) m f = f s

-- The bus hears of a payment that was resolved, after the commit.
unfoldable pub tell : Service → Outcome → Action (Unit {0})
tell s o =
    status_or_zero o.status (pure tt)
      λ st. when (not o.duplicate && o.resolved && s.has_bus) (emit (published o.transaction_id st))

unfoldable pub process : Service → String → Event → String → Action Outcome
process s gateway_id ev raw = do o ← within_tx (process_body s gateway_id ev raw); tell s o; pure o
