-- ===== src/Policy.antt =====
-- The capability policies (policy/engine.py).
pub mod Levels
mod Tests
use ai_system.Common.{
  ℕ, ◌≤◌, String, Bool, true, false, Option, none, some, List, [], ◌∷◌, not, leb, ◌==◌,
  if◌then◌else◌, Dict, lookup, insert,
}

-- `CapabilityLevel`, in the order of the enumeration
pub data CapabilityLevel : Type 0 where
  observe analyze recommend draft execute_with_approval execute_automatically : CapabilityLevel

-- `list(CapabilityLevel).index`
abbrev pub index : CapabilityLevel → ℕ
index observe = 0
index analyze = 1
index recommend = 2
index draft = 3
index execute_with_approval = 4
index execute_automatically = 5

pub record CapabilityPolicy : Type 0 where
  pub capability : String
  pub level : CapabilityLevel
  pub enabled : Bool

abbrev policy : String → CapabilityLevel → CapabilityPolicy
policy capability level = record { capability = capability; level = level; enabled = true }

-- `DEFAULT_POLICIES`
abbrev pub default_policies : List CapabilityPolicy
default_policies =
    policy "account.read" observe
    ∷ policy "market.read" observe
    ∷ policy "balances.read" observe
    ∷ policy "content.draft" draft
    ∷ policy "content.publish" execute_with_approval
    ∷ policy "message.send" execute_with_approval
    ∷ policy "trade.execute" execute_with_approval
    ∷ []

abbrev pub PolicyEngine : Type 0
PolicyEngine = Dict CapabilityPolicy

insert_all : List CapabilityPolicy → PolicyEngine → PolicyEngine
insert_all [] d = d
insert_all (p ∷ ps) d = insert_all ps (insert p.capability p d)

-- `PolicyEngine.__init__`
unfoldable pub build : List CapabilityPolicy → PolicyEngine
unfolding insert_all insert
build policies = insert_all policies []

-- `PolicyEngine.get`
abbrev pub get : PolicyEngine → String → Option CapabilityPolicy
get e capability = lookup capability e

abbrev allowed : CapabilityLevel → Option CapabilityPolicy → Bool
allowed requested none = false
allowed requested (some p) = if p.enabled then leb (index requested) (index p.level) else false

-- `PolicyEngine.allows`
unfoldable pub allows : PolicyEngine → String → CapabilityLevel → Bool
allows e capability requested = allowed requested (get e capability)

-- `policy_engine`
abbrev pub policy_engine : PolicyEngine
policy_engine = build default_policies
