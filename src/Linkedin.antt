-- ===== src/Linkedin.antt =====
-- The LinkedIn agent: its store (agents/linkedin_agent/storage.py, models.py), its service
-- (service.py), its poller (scheduler.py) and the publishing endpoint (router.py).
pub mod Storage
pub mod Service
pub mod Quota
pub mod Publish
pub mod Published
mod Tests
