-- ===== src/Valkey.antt =====
-- internal/adapters/valkey: what the service keeps in Valkey.
pub mod Breaker
