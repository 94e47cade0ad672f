-- ===== src/Gateway/Process.antt =====
-- `on_startup` and `on_shutdown` of gateway.py, over the registry (ai/registry.py), the supervisor
-- (ai/supervisor.py) and the two schedulers.
use ai_system.Common.{
  String, Bool, true, false, ◌&&◌, Option, none, some, List, [], ◌∷◌, ◌++◌, ◌==◌, if◌then◌else◌,
  Dict, keys,
}
use ai_system.Common.Effects.{Ended, returned, Call, raise, ◌>>◌, modify}
use ai_system.Supervisor.{Supervisor, Agent, Lifecycle, new, stop_all}
use ai_system.Runtime.Registry.{
  AgentSpec, Loaded, loaded, invalid, duplicate_keys, load_registry, hydrate_agents,
}
use ai_system.Gateway.Pollers.{
  LinkedinScheduler, new_poller, start_poller, stop_poller, ControlScheduler, new_scheduler,
  start_scheduler, stop_scheduler, Closing,
}

-- `app.state`, with the state `W` of the LinkedIn service and the types and agents of the events
-- recorded so far
pub record App (W : Type 0) : Type 0 where
  pub ready : Bool
  pub supervisor : Option Supervisor
  pub linkedin : Option (LinkedinScheduler W)
  pub scheduler : Option ControlScheduler
  pub service : W
  pub events : List (String × Option String)

-- `linkedin_enabled`
abbrev pub linkedin_enabled : List AgentSpec → Bool
linkedin_enabled [] = false
linkedin_enabled (s ∷ rest) =
    if s.key == "linkedin" && s.enabled then true else linkedin_enabled rest

abbrev pub discovered : List String → List (String × Option String)
discovered [] = []
discovered (key ∷ rest) = ("agent.discovered", some key) ∷ discovered rest

abbrev pub started_scheduler : ControlScheduler
unfolding start_scheduler
started_scheduler = (start_scheduler new_scheduler).1

abbrev pub stopped_agents : Lifecycle → Option Supervisor → Option Supervisor
stopped_agents life none = none
stopped_agents life (some s) = some (stop_all life s)

module _ {W : Type 0} where
  -- `record_event` of a type alone
  abbrev pub record_kind : String → Call (App W) (Unit {0})
  record_kind kind = modify (λ a. record a { events = a.events ++ (kind, none) ∷ [] })

  abbrev pub started_poller : W → LinkedinScheduler W
  unfolding start_poller
  started_poller w = (start_poller (new_poller w)).1

  -- `on_startup` with the registry and the agents
  abbrev pub start_with : List AgentSpec → Option (Dict Agent) → Call (App W) (Unit {0})
  start_with specs none = raise "hydrate_agents"
  start_with specs (some agents) = do
    modify (λ a. record a {
      supervisor = some (new agents);
      scheduler = some started_scheduler;
      linkedin = if linkedin_enabled specs then some (started_poller a.service) else none;
      ready = true;
    })
    record_kind "system.ready"
    modify (λ a. record a { events = a.events ++ discovered (keys agents) })

  abbrev pub start_loaded : (AgentSpec → Option Agent) → Loaded → Call (App W) (Unit {0})
  start_loaded make (loaded specs) = start_with specs (hydrate_agents make specs)
  start_loaded make invalid = raise "load_registry"
  start_loaded make (duplicate_keys ks) = raise "Duplicate agent keys"

  -- `on_startup`, of what the registry's file holds and of how agents are made
  unfoldable pub on_startup :
      (AgentSpec → Option Agent) → Option (List AgentSpec) → Call (App W) (Unit {0})
  unfolding load_registry
  on_startup make file = do
    modify (λ a. record a { ready = false })
    start_loaded make (load_registry file)

  abbrev pub put_linkedin :
      App W → Ended (Unit {0}) × LinkedinScheduler W → Ended (Unit {0}) × App W
  put_linkedin a (answer, p) = (answer, record a { linkedin = some p })

  abbrev pub stop_linkedin_of : Option (LinkedinScheduler W) → Call (App W) (Unit {0})
  stop_linkedin_of none a = (returned tt, a)
  stop_linkedin_of (some p) a = put_linkedin a (stop_poller p)

  -- `await linkedin_scheduler.stop()`, if there is one
  unfoldable pub stop_linkedin : Call (App W) (Unit {0})
  unfolding stop_poller
  stop_linkedin a = stop_linkedin_of a.linkedin a

  abbrev pub put_scheduler : App W → Ended (Unit {0}) × ControlScheduler → Ended (Unit {0}) × App W
  put_scheduler a (answer, c) = (answer, record a { scheduler = some c })

  abbrev pub stop_control_of : Closing → Option ControlScheduler → Call (App W) (Unit {0})
  stop_control_of closing none a = (returned tt, a)
  stop_control_of closing (some c) a = put_scheduler a (stop_scheduler closing c)

  -- `await scheduler.stop()`, if there is one
  unfoldable pub stop_control : Closing → Call (App W) (Unit {0})
  unfolding stop_scheduler
  stop_control closing a = stop_control_of closing a.scheduler a

  -- `on_shutdown`
  unfoldable pub on_shutdown : Lifecycle → Closing → Call (App W) (Unit {0})
  unfolding stop_linkedin stop_control stop_all
  on_shutdown life closing = do
    modify (λ a. record a { ready = false })
    record_kind "system.shutdown_requested"
    modify (λ a. record a { supervisor = stopped_agents life a.supervisor })
    stop_linkedin
    stop_control closing
