-- ===== src/Learning/Tests.antt =====
-- A promotion of a policy with one metric.
use ai_system.Common.{ℕ, ◌≡◌, refl, String, Bool, true, ltb, none, [], ◌∷◌}
use ai_system.Common.Table.Listed.{listed, nothing}
use ai_system.Learning.{Store, create_policy, promote}
use ai_system.Learning.Promoted.{IsPromotion, promote-IsPromotion}

abbrev empty_store : Store ltb listed listed
empty_store = record { policies = nothing; metrics = nothing }

abbrev store : Store ltb listed listed
store =
    (create_policy ltb listed listed 10 "{}" "h" "shadow" "" (("win_rate_min", 7) ∷ [])
      empty_store).1

promote-IsPromotion_example :
    IsPromotion ltb listed listed 1 "canary"
      (("win_rate_min", 5) ∷ [])
      store
      (promote ltb listed listed 1 "canary" (("win_rate_min", 5) ∷ []) store).0.ok
      (promote ltb listed listed 1 "canary" (("win_rate_min", 5) ∷ []) store).1
promote-IsPromotion_example =
    promote-IsPromotion ltb listed listed 1 "canary" (("win_rate_min", 5) ∷ []) store

promotes : (promote ltb listed listed 1 "canary" (("win_rate_min", 5) ∷ []) store).0.ok ≡ true
unfolding promote create_policy ai_system.Learning.can_promote ai_system.Learning.ends_with
    ai_system.Learning.starts_with ai_system.Learning.update_stage ai_system.Common.lookup
    ai_system.Common.insert ai_system.Common.Table.find
promotes = refl
