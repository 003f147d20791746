-- ===== src/App/Payment.antt =====
-- internal/app/payment: the payment service. The gateways, the cancel resolver and which optional
-- collaborators are set come in as a `Service`. Logging and metrics change no state and are left out.
pub mod Outcome
pub mod Service
pub mod Finalize
pub mod Process
pub mod Attempt
pub mod Initiate
pub mod Create
pub mod Leased
pub mod Settled
