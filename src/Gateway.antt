-- ===== src/Gateway.antt =====
-- The process of the gateway (gateway.py) and its two schedulers: the poller of LinkedIn posts
-- (agents/linkedin_agent/scheduler.py) and the control scheduler (services/scheduler.py).
pub mod Pollers
pub mod Process
pub mod Shutdown
pub mod Listing
pub mod Secrets
mod Tests
