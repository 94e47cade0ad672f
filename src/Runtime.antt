-- ===== src/Runtime.antt =====
-- What the agents run on: the event bus (ai/event_bus.py), the retries (ai/utils/retry.py) and the
-- registry (ai/registry.py).
pub mod Bus
pub mod Retry
pub mod Registry
mod Tests
