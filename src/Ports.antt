-- ===== src/Ports.antt =====
-- internal/ports: what the services hand to gateways, to the outbox and to each other.
pub mod Gateway
pub mod Outbox
pub mod Responses
