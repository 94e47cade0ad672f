-- ===== src/Runtime/Tests.antt =====
-- Runs of the event bus, the retries and the registry.
use ai_system.Common.{
  Bool, true, false, Option, All, none, ℕ, zero, suc, ◌+◌, ◌*◌, ◌^◌, ◌≡◌, refl, String, some, List,
  [], ◌∷◌, arith,
}
use ai_system.Common.Value.{end}
use ai_system.Runtime.Bus.{
  Event, InMemoryEventBus, queues_of, subscribe, Call, subscribing, publishing, perform_all,
  published, place, subscribe-receives,
}
use ai_system.Runtime.Registry.{AgentSpec, hydrate_agents, IsHydrated, hydrate_agents-IsHydrated}
use ai_system.Runtime.Retry.{Outcome, returned, caught, done, with_retry, total, with_retry_returns}

abbrev event : String → Event
event topic = record { topic = topic; payload = end; source = "system"; created_at = "t" }

abbrev bus : InMemoryEventBus
bus = record { queues = [] }

abbrev calls : List Call
calls =
    publishing (event "a") ∷ subscribing "a" ∷ publishing (event "b") ∷ publishing (event "a") ∷ []

subscribe-receives_example :
    place (subscribe "a" bus).0 (queues_of "a" (perform_all calls (subscribe "a" bus).1))
    ≡ some (published "a" calls)
subscribe-receives_example = subscribe-receives "a" calls bus

abbrev flaky : ℕ → Outcome {0} String
flaky zero = caught "timeout"
flaky (suc zero) = caught "timeout"
flaky (suc (suc n)) = returned "ok"

with_retry_returns_example :
    ((with_retry 5 flaky 3).0 ≡ done "ok")
    × (total 5 flaky (with_retry 5 flaky 3).1 + 5 ≡ 5 * 2 ^ 2)
with_retry_returns_example =
    with_retry_returns 5 flaky 2 3 "ok" (omega arith) (("timeout", refl), (("timeout", refl), tt))
      refl

abbrev spec : String → Bool → AgentSpec
spec key enabled = record {
  key = key;
  module_name = "agents";
  class_name = "Agent";
  enabled = enabled;
  config = end;
}

abbrev make : AgentSpec → Option String
make s = some s.key

hydrate_agents-IsHydrated_example :
    All (IsHydrated make (("gold", "gold") ∷ [])) (spec "gold" true ∷ spec "linkedin" false ∷ [])
unfolding ai_system.Runtime.Registry.load_registry ai_system.Runtime.Registry.hydrate_from
    ai_system.Common.insert
hydrate_agents-IsHydrated_example =
    hydrate_agents-IsHydrated make (some (spec "gold" true ∷ spec "linkedin" false ∷ []))
      (spec "gold" true ∷ spec "linkedin" false ∷ []) (("gold", "gold") ∷ []) refl refl
