-- ===== src/Telegram.antt =====
-- The Telegram bot (telegram/bot.py): its roles, its rate limit and its handlers. A handler is a
-- function from the update, the time and the histories to its effects, in order, and the new
-- histories. A handler makes at most one request to the gateway; the answer to it is an argument.
pub mod Roles
pub mod Limit
mod Tests
use ai_system.Common.{
  ℕ, ◌+◌, ◌≡◌, String, Bool, true, false, Option, none, some, List, [], ◌∷◌, ◌++◌, leb, eqb, length,
  ◌<>◌, if◌then◌else◌,
}
use ai_system.Common.Value.{Value}
use ai_system.Auth.{Role, viewer, operator, admin, role_level}
use ai_system.Guards.Breaker.{pop_old}

pub record Settings : Type 0 where
  pub telegram_admins : List ℕ
  pub telegram_operators : List ℕ

abbrev pub member : ℕ → List ℕ → Bool
member k [] = false
member k (j ∷ js) = if eqb j k then true else member k js

-- `_role_for`
abbrev pub role_for : Settings → ℕ → Role
role_for settings user =
    if member user settings.telegram_admins
    then admin
    else if member user settings.telegram_operators
    then operator
    else viewer

-- `_COMMAND_HISTORY`, a `defaultdict` of deques
abbrev pub History : Type 0
History = ℕ → List ℕ

abbrev pub set_history : ℕ → List ℕ → History → History
set_history user ts h = λ j. if eqb user j then ts else h j

-- `MAX_COMMANDS_PER_MIN`
abbrev pub max_commands_per_min : ℕ
max_commands_per_min = 10

abbrev pub limit_kept : ℕ → ℕ → List ℕ → History → Bool × History
limit_kept user now kept h =
    if leb max_commands_per_min (length kept)
    then (true, set_history user kept h)
    else (false, set_history user (kept ++ now ∷ []) h)

-- `_rate_limited`, at the time `now` in seconds; its loop is that of the circuit breaker.
unfoldable pub rate_limited : ℕ → ℕ → History → Bool × History
rate_limited user now h = limit_kept user now (pop_old 60 now (h user)) h

-- A request to the gateway
pub data Call : Type 0 where
  get : String → Call
  post : (path agent_key : String) → Call

-- Its answer: the keys of "agents" in the payload, the detail of an error, the last 3500 characters
pub record Response : Type 0 where
  pub is_success : Bool
  pub payload : Value
  pub agents : List String
  pub detail : Value
  pub text_end : String

-- What the bot writes; the correlation id that each text ends with is left out.
pub data Notice : Type 0 where
  too_many_requests permission_denied ready help : Notice
  usage : String → Notice
  status : Value → Notice
  status_unavailable unable_to_load no_agents : Notice
  agent_controls : List String → Notice
  scheduled : (action agent : String) → Notice
  failed_to : (action agent : String) → Value → Notice
  logs : (agent words : String) → Notice
  logs_unavailable : Notice
  confirm_button : (action agent : String) → Notice
  sent nothing : Notice

pub data Effect : Type 0 where
  called : Call → Effect
  answered : Notice → Effect
  recorded : (command : String) → Role → Effect
  callback_answered : Notice → Effect

-- `_send_status`
abbrev pub send_status : Response → List Effect
send_status r =
    called (get "/status")
    ∷ answered (if r.is_success then status r.payload else status_unavailable)
    ∷ []

-- `_control`
abbrev pub control : String → String → Response → List Effect
control agent_key action r =
    called (post ("/" <> action) agent_key)
    ∷ answered
        (if r.is_success then scheduled action agent_key else failed_to action agent_key r.detail)
    ∷ []

abbrev pub listed_agents : List String → Notice
listed_agents [] = no_agents
listed_agents (a ∷ as_) = agent_controls (a ∷ as_)

-- `_list_agents`
abbrev pub list_agents : Response → List Effect
list_agents r =
    called (get "/status")
    ∷ answered (if r.is_success then listed_agents r.agents else unable_to_load)
    ∷ []

-- `_handle_logs`
abbrev pub handle_logs : String → Response → List Effect
handle_logs agent_key r =
    called (get ("/logs/" <> agent_key))
    ∷ answered (if r.is_success then logs agent_key r.text_end else logs_unavailable)
    ∷ []

module _ (settings : Settings) where
  -- `_ensure_role`, for the author of a message
  unfoldable pub ensure_role : Option ℕ → Role → Bool
  ensure_role none minimum_role = false
  ensure_role (some user) minimum_role =
      leb (role_level minimum_role) (role_level (role_for settings user))

  abbrev pub unless_limited : Bool × History → List Effect → List Effect × History
  unless_limited (limited, h) effects =
      (if limited then answered too_many_requests ∷ [] else effects, h)

  -- `start`, `status_cmd` and `agents_cmd`: anyone may ask, within the limit.
  unfoldable pub open_command : String → List Effect → ℕ → ℕ → History → List Effect × History
  open_command command effects user now h =
      unless_limited (rate_limited user now h) (recorded command (role_for settings user) ∷ effects)

  -- `help_cmd`, which has no limit
  abbrev pub help_cmd : ℕ → History → List Effect × History
  help_cmd user h = (recorded "help" (role_for settings user) ∷ answered help ∷ [], h)

  -- `parts = message.text.split()` has two entries, the second one the agent.
  abbrev pub with_agent : String → (String → List Effect) → List String → List Effect
  with_agent command run (name ∷ agent ∷ []) = run agent
  with_agent command run _ = answered (usage command) ∷ []

  abbrev pub guarded : Bool → Option ℕ → ℕ → List Effect → History → List Effect × History
  guarded true (some user) now effects h = unless_limited (rate_limited user now h) effects
  guarded true none now effects h = (answered permission_denied ∷ [], h)
  guarded false from_user now effects h = (answered permission_denied ∷ [], h)

  -- `start_agent`, `stop_agent` and `logs_cmd`: the role first, then the limit, then the words
  unfoldable pub operator_command :
      String → (String → List Effect) → Option ℕ → List String → ℕ → History → List Effect × History
  operator_command command run from_user parts now h =
      guarded (ensure_role from_user operator) from_user now (with_agent command run parts) h

  -- A callback: the author of the message with the button, if the message is still there, and the
  -- user who pressed the button.
  pub record Callback : Type 0 where
    pub message : Option (Option ℕ)
    pub from_user : ℕ

  abbrev pub may_press : Option (Option ℕ) → Bool
  may_press none = false
  may_press (some author) = ensure_role author operator

  -- `start_callback` and `stop_callback`
  unfoldable pub button_callback : (action command agent : String) → Callback → List Effect
  button_callback action command agent c =
      if may_press c.message
      then recorded command (role_for settings c.from_user)
        ∷ answered (confirm_button action agent)
        ∷ callback_answered nothing
        ∷ []
      else callback_answered permission_denied ∷ []

  abbrev pub control_there : Option (Option ℕ) → List Effect → List Effect
  control_there none effects = []
  control_there (some author) effects = effects

  abbrev pub confirmed :
      Bool × History → Role → Option (Option ℕ) → List Effect → List Effect × History
  confirmed (true, h) role message effects = (callback_answered too_many_requests ∷ [], h)
  confirmed (false, h) role message effects =
      (recorded "confirm" role ∷ control_there message effects ++ callback_answered sent ∷ [], h)

  -- `confirm_callback`, for the data "confirm:<action>:<agent>"
  unfoldable pub confirm_callback :
      (action agent : String) → Callback → Response → ℕ → History → List Effect × History
  confirm_callback action agent c r now h =
      confirmed (rate_limited c.from_user now h) (role_for settings c.from_user) c.message
        (control agent action r)

  -- What the dispatcher passes on, one constructor for each handler.
  pub data Update : Type 0 where
    start help_asked status_asked agents_asked : (user : ℕ) → Update
    start_agent stop_agent logs_asked : (from_user : Option ℕ) → (parts : List String) → Update
    start_button stop_button : (agent : String) → Callback → Update
    confirm : (action agent : String) → Callback → Update

  -- The handlers, as `main` registers them
  unfoldable pub handle : Update → Response → ℕ → History → List Effect × History
  unfolding open_command operator_command button_callback confirm_callback
  handle (start user) r now h = open_command "start" (answered ready ∷ []) user now h
  handle (help_asked user) r now h = help_cmd user h
  handle (status_asked user) r now h = open_command "status" (send_status r) user now h
  handle (agents_asked user) r now h = open_command "agents" (list_agents r) user now h
  handle (start_agent from_user parts) r now h =
      operator_command "/start_agent" (λ agent. control agent "start" r) from_user parts now h
  handle (stop_agent from_user parts) r now h =
      operator_command "/stop_agent" (λ agent. control agent "stop" r) from_user parts now h
  handle (logs_asked from_user parts) r now h =
      operator_command "/logs" (λ agent. handle_logs agent r) from_user parts now h
  handle (start_button agent c) r now h = (button_callback "start" "start_button" agent c, h)
  handle (stop_button agent c) r now h = (button_callback "stop" "stop_button" agent c, h)
  handle (confirm action agent c) r now h = confirm_callback action agent c r now h
