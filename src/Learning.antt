-- ===== src/Learning.antt =====
-- The registry of learned policies (learning/policy/registry.py) and their rollout
-- (learning/policy/rollout.py), over the tables of learning/data_schema.py. Metrics and limits are
-- values of any type with a test `less`, as the code only compares them.
pub mod Latest
pub mod Rollout
pub mod Promoted
mod Tests
use Prim.Native.String as Native
use ai_system.Common.{
  ℕ, zero, suc, ◌+◌, ◌≡◌, String, Bool, true, false, not, ◌&&◌, ◌||◌, Option, none, some, List, [],
  ◌∷◌, ltb, eqb, max, map, ◌==◌, if◌then◌else◌, Dict, lookup, insert,
}
use ai_system.Common.Table.{Table, get}

pub record Policy : Type 0 where
  pub created_ts : ℕ
  pub version : ℕ
  pub stage : String
  pub payload_json : String
  pub payload_hash : String
  pub description : String

pub record PolicyMetric (V : Type 0) : Type 0 where
  pub policy_id : ℕ
  pub metric_name : String
  pub metric_value : V

-- `max(versions)`, or 0 for none
abbrev pub highest : List (ℕ × Policy) → ℕ
highest [] = 0
highest ((k, p) ∷ rest) = max p.version (highest rest)

-- `_next_version`
abbrev pub next_version : List (ℕ × Policy) → ℕ
next_version [] = 1
next_version (e ∷ rest) = suc (highest (e ∷ rest))

-- The order of the sort key `(version, created_ts)`
abbrev pub is_before : Policy → Policy → Bool
is_before p q =
    if eqb p.version q.version then ltb p.created_ts q.created_ts else ltb p.version q.version

-- The last entry of the sorted list: of equal entries, the last one.
abbrev pub later_of : ℕ × Policy → Option (ℕ × Policy) → Option (ℕ × Policy)
later_of e none = some e
later_of e (some f) = if is_before f.1 e.1 then some e else some f

abbrev pub last_sorted : List (ℕ × Policy) → Option (ℕ × Policy)
last_sorted [] = none
last_sorted (e ∷ rest) = later_of e (last_sorted rest)

-- `if stage:` and the comprehension
abbrev pub of_stage : Option String → List (ℕ × Policy) → List (ℕ × Policy)
of_stage none rows = rows
of_stage (some stage) [] = []
of_stage (some stage) (e ∷ rest) =
    let others = of_stage (some stage) rest in
    if stage == "" || e.1.stage == stage then e ∷ others else others

-- `str.startswith`, `str.endswith`
unfoldable pub starts_with : String → String → Bool
starts_with Native.[] s = true
starts_with (Native.◌∷◌ c p) Native.[] = false
starts_with (Native.◌∷◌ c p) (Native.◌∷◌ d s) =
    Native.◌∷◌ c Native.[] == Native.◌∷◌ d Native.[] && starts_with p s

unfoldable pub ends_with : String → String → Bool
ends_with suffix Native.[] = suffix == ""
ends_with suffix (Native.◌∷◌ c s) = suffix == Native.◌∷◌ c s || ends_with suffix s

-- The two kinds of limits that `can_promote` knows by the name of a threshold
abbrev pub is_lower_limit : String → Bool
is_lower_limit key = ends_with "_min" key || starts_with "min_" key

abbrev pub is_upper_limit : String → Bool
is_upper_limit key = ends_with "_max" key || starts_with "max_" key || ends_with "_pct" key

pub record PromotionResult : Type 0 where
  pub ok : Bool
  pub reason : String
  pub new_stage : Option String

abbrev pub refused : String → PromotionResult
refused reason = record { ok = false; reason = reason; new_stage = none }

module _ {V : Type 0} where
  -- The loop of `_collect_metrics`
  abbrev pub collected : ℕ → List (ℕ × PolicyMetric V) → Dict V → Dict V
  collected id [] d = d
  collected id ((k, row) ∷ rest) d =
      collected id rest
        (if eqb row.policy_id id then insert row.metric_name row.metric_value d else d)

module _ {V : Type 0} (less : V → V → Bool) where
  -- Whether a value breaks a threshold: the four tests of the loop have the same answer.
  abbrev pub breaks : String → V → V → Bool
  breaks key value limit =
      (is_lower_limit key && less value limit) || (is_upper_limit key && less limit value)

  abbrev pub checked : String → V → Option V → PromotionResult → PromotionResult
  checked key limit none rest = refused (Native.◌++◌ "missing:" key)
  checked key limit (some value) rest =
      if breaks key value limit then refused (Native.◌++◌ "threshold:" key) else rest

  -- `can_promote`
  unfoldable pub can_promote : Dict V → Dict V → PromotionResult
  can_promote metrics [] = record { ok = true; reason = "ok"; new_stage = none }
  can_promote metrics ((key, limit) ∷ rest) =
      checked key limit (lookup key metrics) (can_promote metrics rest)

  module _ (P : Table Policy) (M : Table (PolicyMetric V)) where
    pub record Store : Type 0 where
      pub policies : P.State
      pub metrics : M.State

    abbrev pub new_policy : ℕ → String → String → String → String → P.State → Policy
    new_policy now payload_json payload_hash stage description s = record {
      created_ts = now;
      version = next_version (P.rows s);
      stage = stage;
      payload_json = payload_json;
      payload_hash = payload_hash;
      description = description;
    }

    abbrev pub add_metrics : ℕ → Dict V → M.State → M.State
    add_metrics id [] s = s
    add_metrics id ((name, value) ∷ rest) s =
        add_metrics id rest
          (M.add (record { policy_id = id; metric_name = name; metric_value = value }) s).1

    -- `create_policy`, with the text and the hash of the payload
    unfoldable pub create_policy :
        ℕ → String → String → String → String → Dict V → Store → (ℕ × Policy) × Store
    create_policy now payload_json payload_hash stage description metrics s =
        let p = new_policy now payload_json payload_hash stage description s.policies in
        let (id, policies) = P.add p s.policies in
        ((id, p), record { policies = policies; metrics = add_metrics id metrics s.metrics })

    -- `latest_policy`
    abbrev pub latest_policy : Option String → Store → Option (ℕ × Policy)
    latest_policy stage s = last_sorted (of_stage stage (P.rows s.policies))

    abbrev pub updated : ℕ → String → Option Policy → Store → Bool × Store
    updated id stage none s = (false, s)
    updated id stage (some p) s =
        (true, record s { policies = P.update id (record p { stage = stage }) s.policies })

    -- `update_stage`: whether there is such a policy
    unfoldable pub update_stage : ℕ → String → Store → Bool × Store
    update_stage id stage s = updated id stage (get P id s.policies) s

    -- `_collect_metrics`
    abbrev pub collect_metrics : ℕ → Store → Dict V
    collect_metrics id s = collected id (M.rows s.metrics) []

    abbrev pub promoted : String → Bool × Store → PromotionResult × Store
    promoted to_stage (true, s) =
        (record { ok = true; reason = "promoted"; new_stage = some to_stage }, s)
    promoted to_stage (false, s) = (refused "update_failed", s)

    abbrev pub promote_checked : ℕ → String → PromotionResult → Store → PromotionResult × Store
    promote_checked id to_stage check s =
        if check.ok then promoted to_stage (update_stage id to_stage s) else (check, s)

    abbrev pub promote_latest :
        ℕ → String → Dict V → Option (ℕ × Policy) → Store → PromotionResult × Store
    promote_latest id to_stage thresholds none s = (refused "policy_not_latest", s)
    promote_latest id to_stage thresholds (some p) s =
        if eqb p.0 id
        then promote_checked id to_stage (can_promote (collect_metrics id s) thresholds) s
        else (refused "policy_not_latest", s)

    -- `promote`
    unfoldable pub promote : ℕ → String → Dict V → Store → PromotionResult × Store
    unfolding can_promote update_stage
    promote id to_stage thresholds s =
        promote_latest id to_stage thresholds (latest_policy none s) s

    abbrev pub rolled_back : String → Option (ℕ × Policy) → Store → Option ℕ × Store
    rolled_back target_stage none s = (none, s)
    rolled_back target_stage (some p) s = (some p.0, (update_stage p.0 target_stage s).1)

    -- `rollback`
    unfoldable pub rollback : String → Store → Option ℕ × Store
    rollback target_stage s = rolled_back target_stage (latest_policy none s) s
