-- ===== src/Ports/Outbox.antt =====
-- internal/ports/outbox.go: the domain events. A payload is JSON in the code; here it is the struct
-- that is marshalled.
use payment_service.Prelude.{ℕ, Option, none, some, String}
use payment_service.Prelude.Int.{ℤ}
use payment_service.Domain.Transaction.{
  PaymentMethod, Status, captured, cancelled, authorized, failed, settled, refunded,
}
use payment_service.Domain.Refund
use payment_service.Domain.Dispute

pub data EventType : Type 0 where
  transaction_created transaction_captured transaction_failed transaction_cancelled : EventType
  transaction_authorized transaction_settled refund_initiated refund_succeeded : EventType
  refund_failed transaction_callback gateway_initiate dispute_created dispute_updated : EventType

pub data AggregateType : Type 0 where
  transaction refund : AggregateType

-- The payload structs of the services, field by field.
pub data Payload : Type 0 where
  created : ℕ → ℕ → ℕ → ℤ → String → PaymentMethod → String → Status → ℤ → ℕ → Payload
  initiate : ℕ → ℕ → String → Payload
  terminal : ℕ → Status → String → String → ℤ → ℕ → Payload
  callback : ℕ → Status → String → Payload
  dispute_change : ℕ → ℕ → String → Dispute.Status → String → Payload
  dispute_ended : ℕ → Dispute.Status → Status → Payload
  webhook_event : ℕ → Status → String → ℕ → Payload
  refund_started : ℕ → ℕ → ℕ → ℕ → ℤ → String → ℕ → Payload
  refund_ended : ℕ → ℕ → Refund.Status → String → ℤ → ℕ → Payload

pub record OutboxEvent : Type 0 where
  pub aggregate_id : ℕ
  pub aggregate_type : AggregateType
  pub event_type : EventType
  pub payload : Payload
  pub event_version : ℕ
  pub aggregate_version : ℕ

-- `none`: no downstream event for this status.
unfoldable pub event_type_for_transaction_status : Status → Option EventType
event_type_for_transaction_status captured = some transaction_captured
event_type_for_transaction_status cancelled = some transaction_cancelled
event_type_for_transaction_status authorized = some transaction_authorized
event_type_for_transaction_status failed = some transaction_failed
event_type_for_transaction_status settled = some transaction_settled
event_type_for_transaction_status refunded = some refund_succeeded
event_type_for_transaction_status _ = none
