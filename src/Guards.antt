-- ===== src/Guards.antt =====
-- The guards of the control endpoints (gateway/guards.py): the duplicate filter and the breaker.
pub mod Idempotency
pub mod Breaker
mod Tests
