-- ===== src/App/Dispute.antt =====
-- internal/app/dispute/service.go: disputes and what they do to the payment.
pub mod Ingest
pub mod Parent
pub mod Stored
pub mod Recorded
pub mod Evidence
use payment_service.Prelude.{
  ℕ, Bool, true, false, not, ◌&&◌, ◌||◌, Option, none, some, String, str_eq, Result, ok, err,
  if◌then◌else◌,
}
use payment_service.Prelude.Int.{ℤ}
use payment_service.Domain.Transaction.{
  Status, Txn, disputed, captured, refunded, status_eq, gateway, system, Actor,
}
use payment_service.Domain.Transaction.Machine.{transition_state}
use payment_service.Domain.Dispute.{Dispute, won, lost, accepted, expired, not_found}
use payment_service.Domain.Dispute
use payment_service.Ports.Outbox.{
  OutboxEvent, EventType, Payload, transaction, dispute_change, dispute_ended, dispute_created,
  dispute_updated,
}
use payment_service.Postgres.{
  Action, World, Error, ◌>>=◌, ◌>>◌, pure, gets, emit, dispatch, when, lift, within_tx, txn_error,
  dispute_error, published, notified, webhook, Notice, dispute_opened, dispute_won, dispute_lost,
}
use payment_service.Postgres.Transactions.{update_status, write_event, get_by_id}
use payment_service.Postgres.Disputes.{create, update, get_by_gateway_dispute_id}

-- A collaborator that may be nil is a flag.
pub record Service : Type 0 where
  pub has_outbox : Bool
  pub has_notif : Bool
  pub has_webhooks : Bool
  pub has_bus : Bool

-- `none` for the error that says that there is no such dispute.
abbrev pub missing_of : Result Error Dispute × World → Result Error (Option Dispute) × World
missing_of (ok d, w) = (ok (some d), w)
missing_of (err (dispute_error not_found), w) = (ok none, w)
missing_of (err e, w) = (err e, w)

unfoldable pub or_missing : Action Dispute → Action (Option Dispute)
or_missing m w = missing_of (m w)

abbrev pub change_event : EventType → Dispute → ℕ → OutboxEvent
change_event kind d id = record {
  aggregate_id = d.transaction_id;
  aggregate_type = transaction;
  event_type = kind;
  payload = dispute_change id d.transaction_id d.gateway_id d.status d.reason;
  event_version = 1;
  aggregate_version = 0;
}

abbrev pub ended_event : Txn → Dispute.Status → Status → OutboxEvent
ended_event t outcome status = record {
  aggregate_id = t.id;
  aggregate_type = transaction;
  event_type = dispute_updated;
  payload = dispute_ended t.id outcome status;
  event_version = 1;
  aggregate_version = t.version;
}

unfoldable pub dispatch_dispute_notification : Service → Txn → Notice → Action (Unit {0})
dispatch_dispute_notification s t notice =
    when (s.has_notif && not (str_eq t.customer_email "")) (dispatch (notified t.id notice))

unfoldable pub dispatch_dispute_webhook : Service → Txn → EventType → Action (Unit {0})
dispatch_dispute_webhook s t kind = when s.has_webhooks (dispatch (webhook t.id kind))

-- The bus is told inside the transaction.
abbrev pub publish : Service → Txn → Action (Unit {0})
publish s t = when s.has_bus (emit (published t.id t.status))

abbrev pub moved_to : Txn → Status → Actor → Action Txn
moved_to t status actor = do
  now ← gets (λ w. w.clock)
  lift txn_error (transition_state (some t) status actor now)

-- A new dispute: the payment becomes DISPUTED.
unfoldable pub transition_parent_on_dispute_create : Service → ℕ → Action (Unit {0})
transition_parent_on_dispute_create s id = do
  t ← get_by_id id
  moved ← moved_to t disputed gateway
  dispatch_dispute_notification s moved dispute_opened
  dispatch_dispute_webhook s moved dispute_created
  publish s moved
  t' ← update_status moved
  pure tt

-- The payment leaves DISPUTED, for the status that the outcome gives it.
abbrev pub end_dispute : Service → Txn → Dispute.Status → Status → Notice → Action (Unit {0})
end_dispute s t outcome status notice = do
  moved ← moved_to t status system
  t' ← update_status moved
  dispatch_dispute_notification s t' notice
  dispatch_dispute_webhook s t' dispute_updated
  publish s t'
  when s.has_outbox (write_event (ended_event t' outcome status))

abbrev pub end_with : Service → Txn → Dispute.Status → Action (Unit {0})
end_with s t won = end_dispute s t won captured dispute_won
end_with s t lost = end_dispute s t lost refunded dispute_lost
end_with s t _ = pure tt

unfoldable pub transition_parent_on_dispute_update :
    Service → ℕ → Dispute.Status → Action (Unit {0})
transition_parent_on_dispute_update s id outcome = do
  t ← get_by_id id
  if status_eq t.status disputed then end_with s t outcome else pure tt

abbrev pub is_resolved : Dispute.Status → Bool
is_resolved st =
    Dispute.status_eq st won
    || Dispute.status_eq st lost
    || Dispute.status_eq st accepted
    || Dispute.status_eq st expired

-- The row that was found takes what the gateway says now, whatever its status was.
unfoldable pub overwritten : Dispute → Dispute → Dispute
overwritten row d =
    let x = record row {
      status = d.status;
      reason = d.reason;
      evidence_due_by = d.evidence_due_by;
    } in
    if is_resolved d.status then record x { resolved_at = d.resolved_at } else x

abbrev pub is_decided : Dispute.Status → Bool
is_decided st = Dispute.status_eq st won || Dispute.status_eq st lost

abbrev pub create_or_update : Service → Dispute → Option Dispute → Action (Unit {0})
create_or_update s d (some row) = do
  update (overwritten row d)
  when (s.has_outbox && not (is_decided d.status))
      (write_event (change_event dispute_updated d row.id))
  transition_parent_on_dispute_update s d.transaction_id d.status
create_or_update s d none = do
  create d
  when s.has_outbox (write_event (change_event dispute_created d d.id))
  transition_parent_on_dispute_create s d.transaction_id

-- What `CreateDispute` does within its transaction.
unfoldable pub create_body : Service → Dispute → Action (Unit {0})
create_body s d = do
  existing ← or_missing (get_by_gateway_dispute_id d.gateway_id d.gateway_dispute_id)
  create_or_update s d existing

unfoldable pub create_dispute : Service → Dispute → Action (Unit {0})
create_dispute s d = within_tx (create_body s d)
