-- ===== src/Control/Audit.antt =====
-- What the endpoints leave in the audit trail.
use ai_system.Common.{
  ◌&&◌, ◌≡◌, refl, Bool, true, false, Option, none, some, List, [], ◌∷◌, ◌++◌, has_key, ◌<>◌,
}
use ai_system.Auth.{AuthContext}
use ai_system.Guards.Idempotency as Cache
use ai_system.Guards.Breaker as Breaker
use ai_system.Supervisor.{Supervisor, Outcome, ok, key_error, raised}
use ai_system.Control.{
  AuditEvent, App, Request, Reply, done, already, unavailable, locked, unknown, failed, write_audit,
  Action, action_name, idempotency_prefix, Host, call, attempted, past_cache, past_agents,
  past_breaker, past_supervisor, control,
}

module _ (action : Action) (ctx : AuthContext) (req : Request) where
  abbrev pub event : Bool → Bool → AuditEvent
  event success duplicate = record {
    user_id = ctx.user_id;
    role = ctx.role;
    action = action_name action;
    agent_key = req.agent_key;
    ip = req.ip;
    correlation_id = req.correlation_id;
    ok = success;
    duplicate = duplicate;
    ts = req.audited;
  }

  -- What a reply says of the entry in the audit trail: whether it is a success and a duplicate.
  abbrev pub marks : Reply → Option (Bool × Bool)
  marks (done running) = some (true, false)
  marks already = some (true, true)
  marks failed = some (false, false)
  marks unavailable = none
  marks locked = none
  marks unknown = none

  -- The gateway has a supervisor, the breaker lets the request pass, and the agent is known.
  abbrev pub has_passed : Option Supervisor → App → Bool
  has_passed none app = false
  has_passed (some s) app =
      (Breaker.allow req.checked app.breaker).0 && has_key req.agent_key s.agents

  abbrev pub IsAudited : Bool → List AuditEvent → Reply × App → Type 0
  IsAudited true before (reply, app) =
      (m : Bool × Bool) × (marks reply ≡ some m) × (app.audit ≡ before ++ event m.0 m.1 ∷ [])
  IsAudited false before (reply, app) = (marks reply ≡ none) × (app.audit ≡ before)

module _ (host : Host) (action : Action) (ctx : AuthContext) (req : Request) where
  attempted-IsAudited :
      (outcome : Outcome) (app : App)
      → IsAudited action ctx req true app.audit (attempted host action ctx req outcome app)
  unfolding write_audit
  attempted-IsAudited ok app = ((true, false), refl, refl)
  attempted-IsAudited key_error app = ((false, false), refl, refl)
  attempted-IsAudited (raised e) app = ((false, false), refl, refl)

  past_cache-IsAudited :
      (s : Supervisor) (fresh : Bool) (app : App)
      → IsAudited action ctx req true app.audit (past_cache host action ctx req s fresh app)
  unfolding write_audit
  past_cache-IsAudited s true app = attempted-IsAudited (call host action ctx req.agent_key s).0 _
  past_cache-IsAudited s false app = ((true, true), refl, refl)

  past_agents-IsAudited :
      (s : Supervisor) (known : Bool) (app : App)
      → IsAudited action ctx req known app.audit (past_agents host action ctx req s known app)
  past_agents-IsAudited s true app =
      past_cache-IsAudited s
        (Cache.allow (idempotency_prefix action <> req.agent_key) req.allowed app.cache).0 _
  past_agents-IsAudited s false app = (refl, refl)

  past_breaker-IsAudited :
      (s : Supervisor) (closed : Bool) (app : App)
      → IsAudited action ctx req
          (closed && has_key req.agent_key s.agents)
          app.audit
          (past_breaker host action ctx req s closed app)
  past_breaker-IsAudited s true app = past_agents-IsAudited s (has_key req.agent_key s.agents) app
  past_breaker-IsAudited s false app = (refl, refl)

  past_supervisor-IsAudited :
      (o : Option Supervisor) (app : App)
      → IsAudited action ctx req
          (has_passed action ctx req o app)
          app.audit
          (past_supervisor host action ctx req o app)
  past_supervisor-IsAudited none app = (refl, refl)
  past_supervisor-IsAudited (some s) app =
      past_breaker-IsAudited s (Breaker.allow req.checked app.breaker).0 _

  -- A request to start or stop an agent adds one entry to the audit trail if the gateway has a
  -- supervisor, the breaker lets the request pass and the agent is known, and none otherwise. The
  -- entry carries the caller with the role, the action, the agent, the address, the correlation id
  -- and the time; it is marked as a success unless the reply is a failure, and as a duplicate exactly
  -- when the reply says so. Whether the agent's methods raise does not matter.
  pub control_audit :
      (app : App)
      → IsAudited action ctx req
          (has_passed action ctx req app.supervisor app)
          app.audit
          (control host action ctx req app)
  unfolding control
  control_audit app = past_supervisor-IsAudited app.supervisor app
