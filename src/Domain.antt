-- ===== src/Domain.antt =====
-- The domain packages, internal/domain: data, constructors and state machines, with no I/O.
pub mod Transaction
pub mod Refund
pub mod Dispute
pub mod Gateway
pub mod Fees
pub mod Reconciliation
