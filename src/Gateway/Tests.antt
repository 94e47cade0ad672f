-- ===== src/Gateway/Tests.antt =====
-- A gateway with one agent and both schedulers, and the theorems about its shutdown at it.
use ai_system.Common.{
  All, Dict, ℕ, ◌≡◌, refl, String, true, false, Option, none, some, [], ◌∷◌, insert, lookup,
}
use ai_system.Common.Effects.{
  Ended, raised, returned, raised, pure, raise, ◌>>=◌, ◌>>◌, attempt, get, modify,
}
use ai_system.Common.Value.{end, entry, text, whole}
use ai_system.Supervisor.{Agent, Lifecycle, stopped, live}
use ai_system.Runtime.Registry.{AgentSpec, load_registry, hydrate_from}
use ai_system.Gateway.Pollers.{
  alive, broken, closed, loop_closed, start_poller, run_once, poll, start_scheduler,
}
use ai_system.Gateway.Process.{App, on_startup, on_shutdown}
use ai_system.Gateway.Listing.{
  registry_entry, safe_config, is_secret, lowers_to, find_spec, agent_items,
}
use ai_system.Gateway.Secrets.{IsShown, shown_value, spec_value, agent_items_show}
use ai_system.Gateway.Shutdown.{
  is_polling, is_started, has_agent, state_in, on_shutdown_ends, on_shutdown_raises,
}

abbrev life : Lifecycle
life = record {
  start = λ key a. (none, record a { running = true });
  stop = λ key a. (none, record a { running = false });
}

abbrev linkedin_spec : AgentSpec
linkedin_spec = record {
  key = "linkedin";
  module_name = "agents";
  class_name = "Agent";
  enabled = true;
  config = end;
}

abbrev empty_app : App ℕ
empty_app = record {
  ready = false;
  supervisor = none;
  linkedin = none;
  scheduler = none;
  service = 0;
  events = [];
}

abbrev make : AgentSpec → Option Agent
make s = some (record { running = false; last_error = none })

abbrev started_app : App ℕ
unfolding on_startup load_registry hydrate_from start_poller start_scheduler pure raise ◌>>=◌ ◌>>◌
    modify insert lookup
started_app = (on_startup make (some (linkedin_spec ∷ [])) empty_app).1

startup_ready : started_app.ready ≡ true
unfolding on_startup load_registry hydrate_from start_poller start_scheduler pure raise ◌>>=◌ ◌>>◌
    modify insert lookup
startup_ready = refl

-- A round of the poller whose service raises ends its task.
poll_breaks :
    (poll {W = ℕ}
      (raise "payload")
      (record { service = 0; task = some alive; running = true })).1.task
    ≡ some (broken "payload")
unfolding poll run_once pure raise ◌>>=◌ ◌>>◌ attempt get modify
poll_breaks = refl

abbrev polling_app : App ℕ
polling_app = record empty_app {
  ready = true;
  supervisor = some (record {
    agents = ("crypto", record { running = true; last_error = none }) ∷ [];
    tasks = ("crypto", record { identity = 0; condition = live }) ∷ [];
    created = 1;
  });
  linkedin = some (record { service = 0; task = some alive; running = true });
  scheduler = some (record { jobs = []; started = true });
}

on_shutdown_ends_example :
    ((on_shutdown life loop_closed polling_app).0 ≡ returned tt)
    × ((on_shutdown life loop_closed polling_app).1.ready ≡ false)
    × ((key : String)
        → has_agent key polling_app.supervisor ≡ true
        → state_in key (on_shutdown life loop_closed polling_app).1.supervisor ≡ stopped)
    × (is_polling (on_shutdown life loop_closed polling_app).1.linkedin ≡ false)
    × (is_started (on_shutdown life loop_closed polling_app).1.scheduler ≡ false)
on_shutdown_ends_example = on_shutdown_ends life loop_closed polling_app refl refl

abbrev broken_app : App ℕ
broken_app = record polling_app {
  linkedin = some (record { service = 0; task = some (broken "payload"); running = true });
}

on_shutdown_raises_example :
    ((on_shutdown life closed broken_app).0 ≡ raised "payload")
    × ((on_shutdown life closed broken_app).1.scheduler
        ≡ some (record { jobs = []; started = true }))
on_shutdown_raises_example = on_shutdown_raises life closed broken_app 0 "payload" refl

-- A configuration with a secret key in capitals
abbrev keyed_spec : AgentSpec
keyed_spec = record linkedin_spec {
  config = entry "API_Key" (text "hidden") (entry "daily_limit" (whole 5) end);
}

one_value_shown :
    shown_value "daily_limit" (registry_entry (some (keyed_spec ∷ [])) "linkedin") ≡ some (whole 5)
unfolding registry_entry safe_config is_secret lowers_to
one_value_shown = refl

one_value_hidden : shown_value "API_Key" (registry_entry (some (keyed_spec ∷ [])) "linkedin") ≡ none
unfolding registry_entry safe_config is_secret lowers_to
one_value_hidden = refl

abbrev ask_raises : String → Agent → Ended ℕ
ask_raises key a = raised "unreachable"

abbrev one_agent : Dict Agent
one_agent = ("linkedin", record { running = false; last_error = none }) ∷ []

agent_items_show_example :
    All
      (λ item.
        (k : String)
        → IsShown k (shown_value k item.2) (spec_value k (find_spec item.0 (keyed_spec ∷ []))))
      (agent_items ask_raises (some (keyed_spec ∷ [])) one_agent)
agent_items_show_example = agent_items_show ask_raises (some (keyed_spec ∷ [])) one_agent
