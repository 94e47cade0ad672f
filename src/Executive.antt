-- ===== src/Executive.antt =====
-- The executive layer: `MotherAgent` (agents/mother_agent.py), the scheduler and workflow facades
-- (agents/executive_agents.py). A decision is a shared object: the history and the queue hold its
-- number, n for the id "decision-n", and `objects` holds what is stored under it.
pub mod Queue
pub mod Endpoints
pub mod Dispatch
pub mod History
mod Tests
use ai_system.Common.{
  ℕ, zero, suc, ◌+◌, ◌-◌, ◌/◌, ◌≡◌, String, Bool, true, false, Option, none, some, List, [], ◌∷◌,
  ◌++◌, not, ◌&&◌, ltb, leb, eqb, ◌==◌, if◌then◌else◌, Dict, insert, contains, drop, length,
  reverse,
}
use ai_system.Common.Value.{Fields, end, or_empty}
use ai_system.Common.Table.{find, replace}
use ai_system.Executive.Queue.{Entry, Heap, Put, heappush}

pub record Decision : Type 0 where
  pub objective : String
  pub target_agents : List String
  pub priority : ℕ
  pub action : String
  pub approval_required : Bool
  pub approved : Bool
  pub approved_at : Option String
  pub created_at : String
  pub context : Fields

pub record MotherAgent : Type 0 where
  pub running : Bool
  pub queue : Heap
  pub sequence : ℕ
  pub objects : List (ℕ × Decision)
  pub decisions : List ℕ
  pub max_history : ℕ
  pub require_approval_for : List String
  pub last_decision_at : Option String

-- `__init__`
abbrev pub new : ℕ → List String → MotherAgent
new max_history require_approval_for = record {
  running = false;
  queue = [];
  sequence = 0;
  objects = [];
  decisions = [];
  max_history = max_history;
  require_approval_for = require_approval_for;
  last_decision_at = none;
}

pub data Failure : Type 0 where
  value_error permission_error key_error type_error : Failure

pub data Result {ℓ} (A : Type ℓ) : Type ℓ where
  ok : A → Result A
  err : Failure → Result A

-- `xs[-n:]`: for 0 this is the whole list.
abbrev pub last_of {ℓ} : {A : Type ℓ} → ℕ → List A → List A
last_of zero xs = xs
last_of (suc n) xs = drop (length xs - suc n) xs

-- `list(dict.fromkeys(xs))`: each text once, in the order of the first ones.
unfoldable pub distinct_from : List String → List String → List String
distinct_from seen [] = []
distinct_from seen (x ∷ xs) =
    let rest = distinct_from (x ∷ seen) xs in
    if contains x seen then distinct_from seen xs else x ∷ rest

-- `bool(approval_required) if approval_required is not None else action in ...`
abbrev pub needs_approval : Option Bool → String → List String → Bool
needs_approval none action policy = contains action policy
needs_approval (some b) action policy = b

-- The arguments of `decide`, with the stripped objective and the text of the time.
pub record Order : Type 0 where
  pub objective : String
  pub target_agents : List String
  pub priority : ℕ
  pub action : String
  pub approval_required : Option Bool
  pub context : Option Fields
  pub now : String

abbrev pub decision_of : Order → MotherAgent → Decision
decision_of o m =
    let approval = needs_approval o.approval_required o.action m.require_approval_for in
    record {
      objective = o.objective;
      target_agents = distinct_from [] o.target_agents;
      priority = o.priority;
      action = o.action;
      approval_required = approval;
      approved = not approval;
      approved_at = none;
      created_at = o.now;
      context = or_empty o.context;
    }

abbrev pub store_decision : Decision → MotherAgent → MotherAgent
store_decision d m = record m {
  sequence = suc m.sequence;
  objects = m.objects ++ (suc m.sequence, d) ∷ [];
  decisions = last_of m.max_history (m.decisions ++ suc m.sequence ∷ []);
  last_decision_at = some d.created_at;
}

-- `decide`, whose answer is the number of the new decision. A priority is not negative here.
unfoldable pub decide : Order → MotherAgent → Result ℕ × MotherAgent
decide o m =
    if o.objective == ""
    then (err value_error, m)
    else if ltb 100 o.priority
    then (err value_error, m)
    else (ok (suc m.sequence), store_decision (decision_of o m) m)

abbrev pub may_dispatch : Decision → Bool
may_dispatch d = if d.approval_required then d.approved else true

abbrev pub put_result : Put → MotherAgent → Result {0} Unit × MotherAgent
put_result (Put.stored heap) m = (ok tt, record m { queue = heap })
put_result (Put.raised heap) m = (err type_error, record m { queue = heap })

-- `enqueue`, of a decision and its number
unfoldable pub enqueue : ℕ → Decision → MotherAgent → Result {0} Unit × MotherAgent
enqueue k d m =
    if may_dispatch d
    then put_result
        (heappush (record { rank = 100 - d.priority; sequence = m.sequence; decision = k }) m.queue)
        m
    else (err permission_error, m)

-- Whether the history holds a decision.
abbrev pub in_history : ℕ → List ℕ → Bool
in_history k [] = false
in_history k (j ∷ js) = if eqb j k then true else in_history k js

-- The object of the history with an id. Ids are given once, so the search from the end is a search.
abbrev pub in_history_of : ℕ → MotherAgent → Option Decision
in_history_of k m = if in_history k m.decisions then find k m.objects else none

abbrev pub approve_found : String → ℕ → Option Decision → MotherAgent → Result ℕ × MotherAgent
approve_found now k none m = (err key_error, m)
approve_found now k (some d) m = (
  ok k,
  record m { objects = replace k (record d { approved = true; approved_at = some now }) m.objects },
)

-- `approve`
unfoldable pub approve : String → ℕ → MotherAgent → Result ℕ × MotherAgent
approve now k m = approve_found now k (in_history_of k m) m

-- `start`, `stop`
abbrev pub set_running : Bool → MotherAgent → MotherAgent
set_running b m = record m { running = b }

pub record MotherStatus : Type 0 where
  pub running : Bool
  pub decision_count : ℕ
  pub queued_commands : ℕ
  pub last_decision_at : Option String

-- The fields of `status` that depend on the agent.
abbrev pub mother_status : MotherAgent → MotherStatus
mother_status m = record {
  running = m.running;
  decision_count = length m.decisions;
  queued_commands = length m.queue;
  last_decision_at = m.last_decision_at;
}

pub record Job : Type 0 where
  pub schedule : String
  pub target : String
  pub priority : ℕ
  pub enabled : Bool

-- `SchedulerAgent.register_job`
abbrev pub register_job : String → String → String → ℕ → Dict Job → Dict Job
register_job job_id schedule target priority =
    insert job_id
      (record { schedule = schedule; target = target; priority = priority; enabled = true })

pub record Execution : Type 0 where
  pub workflow_id : String
  pub inputs : Fields
  pub status : String
  pub created_at : String

-- `WorkflowAgent.execute`
unfoldable pub execute :
    String → String → Option Fields → Bool → List Execution → Result Execution × List Execution
execute now workflow_id inputs approved executions =
    let e : Execution = record {
      workflow_id = workflow_id;
      inputs = or_empty inputs;
      status = "queued";
      created_at = now;
    } in
    if approved
    then (ok e, last_of 100 (executions ++ e ∷ []))
    else (err permission_error, executions)
