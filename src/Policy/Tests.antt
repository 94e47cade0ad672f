-- ===== src/Policy/Tests.antt =====
-- The policies on concrete inputs.
use ai_system.Common.{◌≡◌, false}
use ai_system.Policy.{execute_with_approval, execute_automatically, allows, policy_engine}
use ai_system.Policy.Levels.{needs_approval, policy_engine-allows}

policy_engine-allows_example :
    (allows policy_engine "trade.execute" execute_automatically ≡ false)
    × (allows policy_engine "trade.execute" execute_with_approval ≡ needs_approval "trade.execute")
policy_engine-allows_example = policy_engine-allows "trade.execute"
