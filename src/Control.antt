-- ===== src/Control.antt =====
-- The endpoints that start and stop agents (routers/control.py), over the supervisor and the two
-- guards. The rate limit and `get_operator` come before the handler. A request carries its readings
-- of the clock; the audit trail is a list, its oldest entry first.
pub mod Audit
pub mod Retry
mod Tests
use ai_system.Common.{
  ℕ, ◌+◌, ◌≡◌, String, Bool, true, false, Option, none, some, List, [], ◌∷◌, ◌++◌, not,
  if◌then◌else◌, Dict, insert, has_key, length, ◌<>◌,
}
use ai_system.Auth.{AuthContext, Role, role_name}
use ai_system.Guards.Idempotency.{IdempotencyCache}
use ai_system.Guards.Idempotency as Cache
use ai_system.Guards.Breaker.{CircuitBreaker, record_success, record_error}
use ai_system.Guards.Breaker as Breaker
use ai_system.Supervisor.{Agent, Lifecycle, Supervisor, start, stop, Outcome, ok, key_error, raised}

-- `AuditEvent`, with the fields that the handlers fill themselves; `duplicate` is in `details`.
pub record AuditEvent : Type 0 where
  pub user_id : String
  pub role : Role
  pub action : String
  pub agent_key : String
  pub ip : Option String
  pub correlation_id : String
  pub ok : Bool
  pub duplicate : Bool
  pub ts : ℕ

-- A call of `agent_actions_total` or of `gateway_errors_total`
pub data Counted : Type 0 where
  agent_action : String → String → Role → Counted
  gateway_error : String → Counted

-- `app.state.agents` is the dictionary of the supervisor.
pub record App : Type 0 where
  pub supervisor : Option Supervisor
  pub breaker : CircuitBreaker
  pub cache : IdempotencyCache
  pub audit : List AuditEvent
  pub last_audit_ts : Option ℕ
  pub agent_state : Dict Bool
  pub counters : List Counted

pub record Request : Type 0 where
  pub agent_key : String
  pub ip : Option String
  pub correlation_id : String
  pub checked : ℕ
  pub allowed : ℕ
  pub recorded : ℕ
  pub audited : ℕ

pub data Reply : Type 0 where
  done : (running : Bool) → Reply
  already : Reply
  unavailable locked unknown failed : Reply

-- `_audit`
unfoldable pub write_audit : Request → AuthContext → String → Bool → Bool → App → App
write_audit req ctx action success duplicate app = record app {
  audit =
      app.audit
      ++ record {
        user_id = ctx.user_id;
        role = ctx.role;
        action = action;
        agent_key = req.agent_key;
        ip = req.ip;
        correlation_id = req.correlation_id;
        ok = success;
        duplicate = duplicate;
        ts = req.audited;
      }
        ∷ [];
  last_audit_ts = some req.audited;
}

-- The two handlers are the same but for these: the words, the call, and what the gauge is set to.
pub data Action : Type 0 where
  starting stopping : Action

abbrev pub action_name : Action → String
action_name starting = "start"
action_name stopping = "stop"

abbrev pub endpoint : Action → String
endpoint starting = "/start"
endpoint stopping = "/stop"

abbrev pub idempotency_prefix : Action → String
idempotency_prefix starting = "start:"
idempotency_prefix stopping = "stop:"

abbrev pub is_starting : Action → Bool
is_starting starting = true
is_starting stopping = false

-- What comes from outside: the methods of the agents, and `repr` of a text, which is the message of
-- a `KeyError`.
pub record Host : Type 0 where
  pub life : Lifecycle
  pub repr : String → String

module _ (host : Host) (action : Action) (ctx : AuthContext) where
  abbrev pub call : String → Supervisor → Outcome × Supervisor
  call key s = elim action [ starting ↦ start host.life key s | stopping ↦ stop host.life key s ]

  abbrev pub succeeded : Request → App → App
  succeeded req app = record app {
    agent_state = insert req.agent_key (is_starting action) app.agent_state;
    counters = app.counters ++ agent_action req.agent_key (action_name action) ctx.role ∷ [];
    breaker = record_success req.recorded app.breaker;
  }

  abbrev pub errored : String → Request → App → App
  errored message req app = record app {
    breaker = record_error message req.recorded app.breaker;
    counters = app.counters ++ gateway_error (endpoint action) ∷ [];
  }

  -- The body of `try`, its handler and `finally`
  abbrev pub attempted : Request → Outcome → App → Reply × App
  attempted req ok app = (
    done (is_starting action),
    write_audit req ctx (action_name action) true false (succeeded req app),
  )
  attempted req key_error app = (
    failed,
    write_audit req ctx (action_name action) false false
        (errored (host.repr req.agent_key) req app),
  )
  attempted req (raised e) app =
      (failed, write_audit req ctx (action_name action) false false (errored e req app))

  abbrev pub attempt : Request → Supervisor → App → Reply × App
  attempt req s app =
      let (outcome, s') = call req.agent_key s in
      attempted req outcome (record app { supervisor = some s' })

  abbrev pub past_cache : Request → Supervisor → Bool → App → Reply × App
  past_cache req s fresh app =
      if fresh
      then attempt req s app
      else (already, write_audit req ctx (action_name action) true true app)

  abbrev pub past_agents : Request → Supervisor → Bool → App → Reply × App
  past_agents req s known app =
      if known
      then (let (fresh, cache) =
            Cache.allow (idempotency_prefix action <> req.agent_key) req.allowed app.cache in
          past_cache req s fresh (record app { cache = cache }))
      else (unknown, app)

  abbrev pub past_breaker : Request → Supervisor → Bool → App → Reply × App
  past_breaker req s closed app =
      if closed then past_agents req s (has_key req.agent_key s.agents) app else (locked, app)

  abbrev pub past_supervisor : Request → Option Supervisor → App → Reply × App
  past_supervisor req none app = (unavailable, app)
  past_supervisor req (some s) app =
      let (closed, breaker) = Breaker.allow req.checked app.breaker in
      past_breaker req s closed (record app { breaker = breaker })

  -- `start_agent` and `stop_agent`
  unfoldable pub control : Request → App → Reply × App
  control req app = past_supervisor req app.supervisor app
