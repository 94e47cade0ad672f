-- ===== src/Lib.antt =====
-- Mother AI: a governed platform of agents behind one gateway. This library models the control
-- plane and the workflows around it, and proves what makes them correct.
--
-- The parts and how they interact. A request to the gateway (gateway.py, routers/) passes the guard
-- of roles (gateway/auth.py). A request to start or stop an agent (routers/control.py) passes the
-- circuit breaker and the duplicate filter (gateway/guards.py), reaches the supervisor
-- (ai/supervisor.py), and leaves an audit entry (persistence/audit.py). Actions with effects outside
-- need a human approval (services/approvals.py, routers/approvals.py), which the policy of
-- capabilities admits or not (policy/engine.py); every change of an approval is an event
-- (services/event_store.py). The LinkedIn agent (agents/linkedin_agent/) publishes only through an
-- approval. The executive agent (agents/mother_agent.py, routers/executive.py) queues decisions.
--
-- Which file models which code, with the functions of the source:
-- - Common: lists, texts, dictionaries, JSON values, and `Table`, the interface of a database table
--   (what the code relies on of sqlmodel and sqlite); Common/Table/Listed.antt meets it with a list.
-- - Guards/Idempotency.antt: `IdempotencyCache` (`_purge`, `allow`). Guards/Breaker.antt:
--   `CircuitBreaker` (`_purge`, `allow`, `record_success`, `record_error`, `state`).
-- - Auth.antt: `issue_jwt`, `decode_token`, `require` of gateway/auth.py and `login` of gateway.py.
-- - Policy.antt: `PolicyEngine` (`get`, `allows`) and the default policies.
-- - Events.antt: `record_event`, `recent_events`, `compact_events`, `emit`.
-- - Approvals.antt: `request_approval`, `list_pending`, `decide`, `claim_approval`,
--   `finish_approval`. Approvals/Replies.antt: the endpoints of routers/approvals.py.
-- - Supervisor.antt: `Supervisor` (`task_state`, `start`, `stop`, `stop_all`, `_tick_loop`).
-- - Control.antt: `start_agent` and `stop_agent` of routers/control.py, which differ only in words
--   and in the call, as one function of the action; `_audit`.
-- - Executive.antt: `MotherAgent` (`decide`, `enqueue`, `approve`, `status`), `register_job` and
--   `execute` of agents/executive_agents.py. Executive/Queue.antt: the heap behind its queue.
--   Executive/Endpoints.antt: routers/executive.py.
-- - Linkedin/Storage.antt: storage.py and models.py of agents/linkedin_agent;
--   Linkedin/Service.antt: service.py; Linkedin/Publish.antt: `publish_approved` of router.py.
-- - Telegram.antt: the roles, the rate limit and the handlers of telegram/bot.py.
-- - Runtime/Bus.antt: `InMemoryEventBus` (ai/event_bus.py); Runtime/Retry.antt: `with_retry`
--   (ai/utils/retry.py); Runtime/Registry.antt: `load_registry`, `hydrate_agents` (ai/registry.py).
-- - Learning.antt: `create_policy`, `latest_policy`, `update_stage` of learning/policy/registry.py
--   and `can_promote`, `promote`, `rollback` of learning/policy/rollout.py.
-- - Gateway/Process.antt: `on_startup` and `on_shutdown` of gateway.py; Gateway/Pollers.antt:
--   `LinkedInScheduler` (agents/linkedin_agent/scheduler.py), `ControlScheduler`
--   (services/scheduler.py); Gateway/Listing.antt: the status and listing of agents (routers/core.py,
--   routers/agents.py).
-- - Trading: the agents that trade. Trading/Market.antt: oms/orders.py, agents/utils/market_rules.py,
--   utils/schedule.py; Trading/Risk.antt: risk/; Trading/Portfolio.antt: agents/utils/portfolio.py;
--   Trading/Modes.antt: agents/modes/shadow.py and agents/utils/circuit.py; Trading/Quality.antt:
--   data/quality.py; Trading/Router.antt and Trading/Router/Quotes.antt: `ExchangeRouter`
--   (adapters/exchange/router.py); Trading/Router/Execution.antt: its `execute`, `Executor`
--   (oms/execution.py) and `execute_twap` (oms/algos.py).
-- - Trading/Agent.antt: the state of `CryptoTradingAgent` (agents/crypto_agent.py);
--   Trading/Agent/Account.antt: what it reads of it, and `status`; Trading/Agent/Orders.antt:
--   `_handle_buy`, `_handle_sell`, `_execute_order`;
--   Trading/Agent/Tick.antt: `on_tick`, `_check_drawdown`, `_persist_snapshot`;
--   Trading/Agent/Life.antt: `__init__`, `start`, `stop`, `_validate_live_mode`, `_restore_snapshot`.
-- The other files of a folder hold the proofs and are named for what they prove.
--
-- Conventions. A call is a function from the state to its answer and the new state; a call that
-- may raise answers with a value of a result type. Times are natural numbers in a fixed unit, and
-- each reading of a clock is an argument, so that a difference `a - b < c` is written `a < b + c`.
-- An await is not a point of interleaving, except where a file says so: the supervisor's loops are
-- steps between its calls. In particular a claim of an approval, which reads a row and then writes
-- it, is one step. The only fuel is that of `siftdown` in Executive/Queue.antt, which gets the
-- length of the heap and at least halves a position below it at each turn.
--
-- Code outside the repository is a parameter: tables, the token library (`Jwt` in Auth.antt), the
-- network calls of LinkedIn (`Api`), JSON texts (`Codec`), the methods of agents (`Lifecycle`),
-- `int` of a configured value, the exchanges with their clock (`Exchange`), and of the trading
-- agent the wall clock and the webhook (`Host`). In Trading, answers and readings are functions of
-- the number of the call, so that each call may have another one. Floating-point numbers are a
-- parameter too (`Real`), of which no law is assumed. The strategy of a trading agent is an
-- interface of the repository (strategies/base.py): the theorems hold for every strategy.
--
-- Not modelled: the rate limits that decorate endpoints, logging, metrics other than the counters of
-- the control endpoints, failures of a database (also of the trades and audits of an agent); the
-- trading strategies, which are numeric, and the adapters of exchanges; the numeric learning code,
-- the catalog of planned agents, the integrations with outside services, and the user interfaces.
pub mod Common
pub mod Gateway
pub mod Guards
pub mod Auth
pub mod Policy
pub mod Events
pub mod Approvals
pub mod Supervisor
pub mod Control
pub mod Executive
pub mod Linkedin
pub mod Telegram
pub mod Runtime
pub mod Learning
pub mod Trading
