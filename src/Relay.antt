-- ===== src/Relay.antt =====
-- internal/relay and the delivery side of internal/adapters/postgres/outbox.go: how the events of the
-- outbox reach the publisher, are tried again, and end as dead letters.
pub mod Backoff
pub mod Outbox
pub mod Worker
pub mod Ring
