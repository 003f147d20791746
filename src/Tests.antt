-- ===== src/Tests.antt =====
-- Runs of the model on concrete values, and the theorems at those values.
pub mod Samples
pub mod Payments
pub mod Refunds
pub mod Others
pub mod Keys
pub mod Relay
pub mod Services
pub mod Sequences
pub mod Handlers
