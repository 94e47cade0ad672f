-- ===== src/Trading.antt =====
-- The trading side of the platform: risk/, oms/, agents/utils/, agents/modes/, data/quality.py,
-- utils/schedule.py, adapters/exchange/router.py and agents/crypto_agent.py.
pub mod Market
pub mod Risk
pub mod Portfolio
pub mod Modes
pub mod Quality
pub mod Router
pub mod Agent
