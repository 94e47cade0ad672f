-- ===== src/Supervisor.antt =====
-- The lifecycle of agents (ai/supervisor.py over ai/base_agent.py). What the methods `start` and
-- `stop` of an agent do is a parameter, `Lifecycle`; what `on_tick` does comes with each step.
-- `start` and `stop` hold one lock, so each is one step; an iteration of a tick loop is another.
pub mod Tasks
pub mod Stopped
mod Tests
use ai_system.Common.{
  ℕ, zero, suc, ◌+◌, ◌≡◌, String, Bool, true, false, Option, none, some, List, [], ◌∷◌, not, eqb,
  if◌then◌else◌, Dict, lookup, insert, remove, has_key, keys, max,
}
use ai_system.Common.Effects as Effects
use ai_system.Common.Effects.{Ended, returned}
use ai_system.Common.Value.{Value}

pub record Agent : Type 0 where
  pub running : Bool
  pub last_error : Option String

-- The answer of a method that may raise: the message of the exception, if there is one.
abbrev pub Raised : Type 0
Raised = Option String

pub record Lifecycle : Type 0 where
  pub start : String → Agent → Raised × Agent
  pub stop : String → Agent → Raised × Agent

-- A finished task ended with an exception, whose message is kept.
pub data TaskCondition : Type 0 where
  live cancelled : TaskCondition
  finished : String → TaskCondition

-- An `asyncio.Task`; the number tells one task from another.
pub record Task : Type 0 where
  pub identity : ℕ
  pub condition : TaskCondition

pub record Supervisor : Type 0 where
  pub agents : Dict Agent
  pub tasks : Dict Task
  pub created : ℕ

-- `__init__`
abbrev pub new : Dict Agent → Supervisor
new agents = record { agents = agents; tasks = []; created = 0 }

pub data TaskState : Type 0 where
  stopped stopping failed running : TaskState

abbrev pub state_of : Option Task → TaskState
state_of none = stopped
state_of (some t) = elim t.condition [ live ↦ running | finished e ↦ failed | cancelled ↦ stopping ]

-- `task_state`
unfoldable pub task_state : Supervisor → String → TaskState
task_state s key = state_of (lookup key s.tasks)

-- `task is not None and not task.done()`; a cancelled task is done.
abbrev pub is_live : Option Task → Bool
is_live none = false
is_live (some t) = elim t.condition [ live ↦ true | finished e ↦ false | cancelled ↦ false ]

pub data Outcome : Type 0 where
  ok : Outcome
  key_error : Outcome
  raised : String → Outcome

-- `asyncio.create_task` under a key
abbrev pub launch : String → Supervisor → Supervisor
launch key s = record s {
  tasks = insert key (record { identity = s.created; condition = live }) s.tasks;
  created = suc s.created;
}

-- The exception that `await task` raises; that of a cancelled task is suppressed.
abbrev pub failure_of : Option Task → Raised
failure_of none = none
failure_of (some t) = elim t.condition [ live ↦ none | finished e ↦ some e | cancelled ↦ none ]

module _ (life : Lifecycle) where
  abbrev pub launched : String → Raised × Agent → Supervisor → Outcome × Supervisor
  launched key (none, a) s = (ok, launch key (record s { agents = insert key a s.agents }))
  launched key (some e, a) s = (raised e, record s { agents = insert key a s.agents })

  abbrev pub start_agent : String → Agent → Supervisor → Outcome × Supervisor
  start_agent key a s = if a.running then (ok, launch key s) else launched key (life.start key a) s

  abbrev pub start_known : String → Option Agent → Supervisor → Outcome × Supervisor
  start_known key none s = (key_error, s)
  start_known key (some a) s =
      if is_live (lookup key s.tasks)
      then (ok, s)
      else start_agent key a (record s { tasks = remove key s.tasks })

  -- `start`
  unfoldable pub start : String → Supervisor → Outcome × Supervisor
  start key s = start_known key (lookup key s.agents) s

  abbrev pub stopped_with : String → Raised × Agent → Supervisor → Outcome × Supervisor
  stopped_with key (none, a) s = (ok, record s { agents = insert key a s.agents })
  stopped_with key (some e, a) s = (raised e, record s { agents = insert key a s.agents })

  abbrev pub awaited : String → Raised → Agent → Supervisor → Outcome × Supervisor
  awaited key none a s = stopped_with key (life.stop key a) s
  awaited key (some e) a s = (raised e, s)

  abbrev pub stop_known : String → Option Agent → Supervisor → Outcome × Supervisor
  stop_known key none s = (key_error, s)
  stop_known key (some a) s =
      awaited key (failure_of (lookup key s.tasks)) a (record s { tasks = remove key s.tasks })

  -- `stop`: the task is taken out, cancelled and awaited, and then the agent is stopped, unless the task
  -- ended with an exception.
  unfoldable pub stop : String → Supervisor → Outcome × Supervisor
  stop key s = stop_known key (lookup key s.agents) s

  stop_each : List String → Supervisor → Supervisor
  stop_each [] s = s
  stop_each (key ∷ rest) s = stop_each rest (stop key s).1

  -- `stop_all`, which drops the exceptions of the agents
  unfoldable pub stop_all : Supervisor → Supervisor
  unfolding stop_each
  stop_all s = stop_each (keys s.agents) s

-- `finally: if self.tasks.get(key) is current: self.tasks.pop(key, None)`
abbrev pub is_current : ℕ → Option Task → Bool
is_current task none = false
is_current task (some t) = eqb t.identity task

-- The tick loop of `task` ends after its agent raised: the error is kept, the agent is marked as not
-- running, the task is finished, and `finally` takes it out if it still is the task of the key.
abbrev pub loop_ends : String → ℕ → String → Agent → Supervisor → Supervisor
loop_ends key task e a s = record s {
  agents = insert key (record a { running = false; last_error = some e }) s.agents;
  tasks = if is_current task (lookup key s.tasks) then remove key s.tasks else s.tasks;
}

abbrev pub ticked : String → ℕ → Raised × Agent → Supervisor → Supervisor
ticked key task (none, a) s = record s { agents = insert key a s.agents }
ticked key task (some e, a) s = loop_ends key task e a s

abbrev pub tick_known :
    String → ℕ → (Agent → Raised × Agent) → Option Agent → Supervisor → Supervisor
tick_known key task on_tick none s = s
tick_known key task on_tick (some a) s = if a.running then ticked key task (on_tick a) s else s

-- One iteration of `_tick_loop`, of the task `task` of an agent
unfoldable pub tick : String → ℕ → (Agent → Raised × Agent) → Supervisor → Supervisor
tick key task on_tick s = tick_known key task on_tick (lookup key s.agents) s

abbrev bounded : Ended ℕ → Ended ℕ
bounded (returned n) = returned (max 1 n)
bounded (Effects.raised e) = Effects.raised e

-- `max(1, int(agent.config.get("tick_seconds", 5)))`, of the configured value; `to_int` is `int`, with
-- 0 for a negative number, which may raise.
unfoldable pub interval : (Value → Ended ℕ) → Option Value → Ended ℕ
interval to_int none = returned 5
interval to_int (some v) = bounded (to_int v)

-- The first statement of `_tick_loop`, of the task `task`, which stands before its `try`: if it
-- raises, the task is finished and stays in the table.
unfoldable pub begin_loop : String → ℕ → Ended ℕ → Supervisor → Supervisor
begin_loop key task (returned n) s = s
begin_loop key task (Effects.raised e) s =
    if is_current task (lookup key s.tasks)
    then record s {
      tasks = insert key (record { identity = task; condition = finished e }) s.tasks;
    }
    else s
