-- ===== src/Executive/Tests.antt =====
-- Runs of the executive agent.
use ai_system.Common.{
  ◌≤◌, ◌≡◌, refl, String, true, false, none, List, [], ◌∷◌, arith, All, map, length,
}
use ai_system.Common.Value.{end}
use ai_system.Executive.{Order, Decision, new, enqueue, err, type_error}
use ai_system.Executive.Dispatch.{
  Call, deciding, approving, dispatching, perform_all, perform_all-queue, IsReleased,
}
use ai_system.Executive.History.{perform_all-history, dispatch_tie}

abbrev order : String → Order
order action = record {
  objective = "ship";
  target_agents = [];
  priority = 50;
  action = action;
  approval_required = none;
  context = none;
  now = "t";
}

abbrev calls : List Call
calls =
    deciding (order "deployment")
    ∷ dispatching 1
    ∷ approving "t" 1
    ∷ dispatching 1
    ∷ deciding (order "plan")
    ∷ dispatching 2
    ∷ []

abbrev policy : List String
policy = "deployment" ∷ []

perform_all-queue_example :
    All
      (IsReleased (perform_all calls (new 100 policy)).objects)
      (perform_all calls (new 100 policy)).queue
perform_all-queue_example = perform_all-queue calls 100 policy

perform_all-history_example : length (perform_all calls (new 1 policy)).decisions ≤ 1
perform_all-history_example = perform_all-history calls (new 1 policy) (omega arith) (omega arith)

abbrev plan : Decision
plan = record {
  objective = "ship";
  target_agents = [];
  priority = 50;
  action = "plan";
  approval_required = false;
  approved = true;
  approved_at = none;
  created_at = "t";
  context = end;
}

dispatch_tie_example :
    ((enqueue 2 plan (enqueue 1 plan (new 100 policy)).1).0 ≡ err type_error)
    × (map (λ e. e.decision) (enqueue 2 plan (enqueue 1 plan (new 100 policy)).1).1.queue
        ≡ 1 ∷ 2 ∷ [])
dispatch_tie_example =
    dispatch_tie 1 2 plan plan (new 100 policy) (λ e. ground (arith, e)) refl refl refl refl
