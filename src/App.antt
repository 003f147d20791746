-- ===== src/App.antt =====
-- internal/app: the application services.
pub mod Payment
pub mod Idempotency
pub mod Cancel
pub mod Webhook
pub mod Dispute
pub mod Reconciliation
pub mod Refund
