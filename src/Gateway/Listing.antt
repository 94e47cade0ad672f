-- ===== src/Gateway/Listing.antt =====
-- What the gateway tells about its agents: routers/core.py and routers/agents.py. How `status` of an
-- agent ends is a parameter, `ask`.
use Prim.Native.Char.{code}
use Prim.Native.String as Text
use ai_system.Common.{
  ℕ, suc, ◌+◌, String, Bool, true, false, ◌&&◌, ◌||◌, not, Option, none, some, List, [], ◌∷◌, eqb,
  leb, ◌==◌, if◌then◌else◌, Dict, lookup,
}
use ai_system.Common.Effects.{Ended, returned, raised}
use ai_system.Common.Value.{Fields, end, entry}
use ai_system.Supervisor.{Agent}
use ai_system.Runtime.Registry.{AgentSpec}

-- `SECRET_CONFIG_KEYS`
abbrev pub secret_config_keys : List String
secret_config_keys =
    "api_key" ∷ "api_secret" ∷ "secret" ∷ "token" ∷ "password" ∷ "fernet_key" ∷ "webhook_url" ∷ []

-- `a.lower() == b` of one letter, for `b` in ASCII: of the letters outside ASCII, only the Kelvin
-- sign, 8490, becomes one of ASCII, the "k".
abbrev pub lowers : ℕ → ℕ → Bool
lowers a b =
    (eqb a b && not (leb 65 a && leb a 90) && not (eqb a 8490))
    || ((leb 65 a && leb a 90 && eqb (a + 32) b) || (eqb a 8490 && eqb 107 b))

-- `k.lower() == s`, for `s` in ASCII
unfoldable pub lowers_to : String → String → Bool
lowers_to Text.[] Text.[] = true
lowers_to Text.[] (Text.◌∷◌ d t) = false
lowers_to (Text.◌∷◌ c s) Text.[] = false
lowers_to (Text.◌∷◌ c s) (Text.◌∷◌ d t) = lowers (code c) (code d) && lowers_to s t

abbrev pub is_one_of : String → List String → Bool
is_one_of k [] = false
is_one_of k (s ∷ rest) = if lowers_to k s then true else is_one_of k rest

unfoldable pub is_secret : String → Bool
is_secret k = is_one_of k secret_config_keys

-- `safe_config`
unfoldable pub safe_config : Fields → Fields
safe_config end = end
safe_config (entry k v rest) =
    if is_secret k then safe_config rest else entry k v (safe_config rest)

pub record RegistryEntry : Type 0 where
  pub enabled : Bool
  pub module_name : String
  pub class_name : String
  pub config : Fields

abbrev pub shown : AgentSpec → RegistryEntry
shown s = record {
  enabled = s.enabled;
  module_name = s.module_name;
  class_name = s.class_name;
  config = safe_config s.config;
}

-- The first specification of a key
abbrev pub find_spec : String → List AgentSpec → Option AgentSpec
find_spec key [] = none
find_spec key (s ∷ rest) = if s.key == key then some s else find_spec key rest

abbrev pub shown_of : Option AgentSpec → Option RegistryEntry
shown_of none = none
shown_of (some s) = some (shown s)

-- `_registry_entry`, of the registry of the application, if it has one
unfoldable pub registry_entry : Option (List AgentSpec) → String → Option RegistryEntry
registry_entry none key = none
registry_entry (some specs) key = shown_of (find_spec key specs)

-- An entry of the status: what `status` of the agent gave, and what the gateway says of it
pub record AgentStatus (P : Type 0) : Type 0 where
  pub payload : Option P
  pub running : Bool
  pub healthy : Bool
  pub status_error : Option String

module _ {P : Type 0} (ask : String → Agent → Ended P) where
  abbrev pub status_of : Agent → Ended P → AgentStatus P
  status_of a (returned p) = record {
    payload = some p;
    running = a.running;
    healthy = true;
    status_error = none;
  }
  status_of a (raised e) = record {
    payload = none;
    running = a.running;
    healthy = false;
    status_error = some e;
  }

  -- `_safe_agent_status`
  abbrev pub safe_agent_status : String → Agent → AgentStatus P
  safe_agent_status key a = status_of a (ask key a)

  -- `agents` of `status_payload`
  unfoldable pub agent_payload : Dict Agent → Dict (AgentStatus P)
  agent_payload [] = []
  agent_payload ((key, a) ∷ rest) = (key, safe_agent_status key a) ∷ agent_payload rest

  abbrev pub running_count : Dict (AgentStatus P) → ℕ
  running_count [] = 0
  running_count ((key, s) ∷ rest) =
      if s.running then suc (running_count rest) else running_count rest

  abbrev pub healthy_count : Dict (AgentStatus P) → ℕ
  healthy_count [] = 0
  healthy_count ((key, s) ∷ rest) =
      if s.healthy then suc (healthy_count rest) else healthy_count rest

  -- The items of `_agent_items`
  unfoldable pub agent_items :
      Option (List AgentSpec) → Dict Agent → List (String × AgentStatus P × Option RegistryEntry)
  unfolding registry_entry
  agent_items registry [] = []
  agent_items registry ((key, a) ∷ rest) =
      (key, safe_agent_status key a, registry_entry registry key) ∷ agent_items registry rest

  abbrev pub described :
      Option (List AgentSpec)
      → String
      → Option Agent
      → Option (AgentStatus P × Option RegistryEntry)
  described registry key none = none
  described registry key (some a) = some (safe_agent_status key a, registry_entry registry key)

  -- `get_agent`; none stands for the answer 404.
  abbrev pub get_agent :
      Option (List AgentSpec) → Dict Agent → String → Option (AgentStatus P × Option RegistryEntry)
  get_agent registry agents key = described registry key (lookup key agents)

-- `readyz`, of whether the database answers, whether there are a registry and agents, and whether
-- the start-up is over
abbrev pub is_ready : (db_ok registry_ok agents_ok app_ready : Bool) → Bool
is_ready db_ok registry_ok agents_ok app_ready = db_ok && registry_ok && agents_ok && app_ready
