-- ===== src/Control/Tests.antt =====
-- Runs of the endpoints: an agent whose `start` always raises.
use ai_system.Common.{
  ℕ, ◌+◌, ◌<◌, ◌≡◌, refl, String, Bool, true, false, Option, none, some, [], ◌∷◌, ◌++◌, arith,
}
use ai_system.Auth.{AuthContext, operator}
use ai_system.Guards.Idempotency as Cache
use ai_system.Guards.Breaker as Breaker
use ai_system.Supervisor as Supervisor
use ai_system.Supervisor.{Agent, Lifecycle}
use ai_system.Control.{App, Request, Reply, already, failed, Action, starting, Host, control}
use ai_system.Control.Audit.{IsAudited, control_audit}
use ai_system.Control.Retry.{control_retry}

abbrev host : Host
host = record {
  life = record {
    start = λ key a. (some "no config", a);
    stop = λ key a. (none, record a { running = false });
  };
  repr = λ s. s;
}

abbrev app : App
app = record {
  supervisor = some (Supervisor.new (("gold", record { running = false; last_error = none }) ∷ []));
  breaker = Breaker.new 5 60 60;
  cache = Cache.new 30;
  audit = [];
  last_audit_ts = none;
  agent_state = [];
  counters = [];
}

abbrev caller : AuthContext
caller = record { user_id = "ann"; role = operator; via_api_key = false }

abbrev at : ℕ → Request
at now = record {
  agent_key = "gold";
  ip = none;
  correlation_id = "c";
  checked = now;
  allowed = now;
  recorded = now;
  audited = now;
}

abbrev after : App
after = (control host starting caller (at 100) app).1

abbrev left : Supervisor.Supervisor
left = Supervisor.new (("gold", record { running = false; last_error = none }) ∷ [])

control_audit_example :
    IsAudited starting caller (at 100) true [] (control host starting caller (at 100) app)
unfolding Breaker.allow ai_system.Common.lookup
control_audit_example = control_audit host starting caller (at 100) app

control_retry_example :
    ((control host starting caller (at 110) after).0 ≡ already)
    × ((control host starting caller (at 110) after).1.supervisor ≡ some left)
unfolding control Breaker.allow ai_system.Common.lookup Cache.allow Cache.purge
    ai_system.Common.remove_all ai_system.Common.keys_where Supervisor.start
    ai_system.Control.write_audit ai_system.Common.insert ai_system.Common.remove
    Breaker.record_error Breaker.pop_old
control_retry_example =
    control_retry host starting caller (at 100) (at 110) app left tt (omega arith) refl refl
      (omega arith) refl refl refl
