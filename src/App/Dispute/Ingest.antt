-- ===== src/App/Dispute/Ingest.antt =====
-- `IngestGatewayDispute` (internal/app/dispute/service.go). The event's status is one that the
-- table's check admits.
use payment_service.Prelude.{ℕ, Option, none, some, String}
use payment_service.Prelude.Int.{ℤ}
use payment_service.Domain.Transaction.{Txn}
use payment_service.Domain.Dispute.{Dispute}
use payment_service.Domain.Dispute
use payment_service.Postgres.{Action, ◌>>=◌, raise, gets, not_found}
use payment_service.Postgres.Webhooks.{get_by_gateway_reference}
use payment_service.App.Dispute.{Service, create_dispute}

-- `ports.GatewayDisputeEvent`.
pub record GatewayDisputeEvent : Type 0 where
  pub gateway_dispute_id : String
  pub gateway_reference_id : String
  pub status : Dispute.Status
  pub reason : String
  pub amount : ℤ
  pub currency : String
  pub evidence_due_by : Option ℤ
  pub resolved_at : Option ℤ

-- The id that `uuid.New` draws is an argument.
unfoldable pub new_dispute : ℕ → String → GatewayDisputeEvent → Txn → ℤ → Dispute
new_dispute fresh gateway ev t now = record {
  id = fresh;
  transaction_id = t.id;
  gateway_id = gateway;
  gateway_dispute_id = ev.gateway_dispute_id;
  reason = ev.reason;
  status = ev.status;
  amount = ev.amount;
  currency = ev.currency;
  evidence_due_by = ev.evidence_due_by;
  evidence_submitted_at = none;
  created_at = now;
  resolved_at = ev.resolved_at;
}

abbrev on_payment : Option Txn → Service → ℕ → String → GatewayDisputeEvent → Action (Unit {0})
on_payment none s fresh gateway ev = raise not_found
on_payment (some t) s fresh gateway ev = do
  now ← gets (λ w. w.clock)
  create_dispute s (new_dispute fresh gateway ev t now)

unfoldable pub ingest_gateway_dispute :
    Service → ℕ → String → GatewayDisputeEvent → Action (Unit {0})
ingest_gateway_dispute s fresh gateway ev = do
  found ← get_by_gateway_reference gateway ev.gateway_reference_id
  on_payment found s fresh gateway ev
