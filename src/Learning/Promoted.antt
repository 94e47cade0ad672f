-- ===== src/Learning/Promoted.antt =====
-- When a promotion succeeds, and what it does.
use ai_system.Common.{
  ℕ, ◌≡◌, refl, sym, subst, ap, ◌∙◌, String, Bool, true, false, Option, none, some, eqb, arith,
  if◌then◌else◌, Dict, Bool-cases, inl, inr,
}
use ai_system.Common.Table.{Table, get, get-update}
use ai_system.Learning.{
  Policy, PolicyMetric, PromotionResult, can_promote, Store, latest_policy, update_stage, updated,
  collect_metrics, promoted, promote_checked, promote_latest, promote, last_sorted,
}
use ai_system.Learning.Latest.{IsLatest, IsLatest-last_sorted, last_sorted-IsLatest, IsLatest-find}
use ai_system.Learning.Rollout.{AreMet, can_promote-AreMet, AreMet-can_promote}

module _ {V : Type 0} (less : V → V → Bool) (P : Table Policy) (M : Table (PolicyMetric V)) (id : ℕ)
    (to_stage : String) (thresholds : Dict V) (s : Store less P M) where
  -- The policy is the latest and has a metric that meets each threshold.
  abbrev pub IsReady : Type 0
  IsReady =
      ((p : Policy) × IsLatest (id, p) (P.rows s.policies))
      × AreMet less id (M.rows s.metrics) thresholds

  -- Only the stage of the policy changes.
  abbrev pub IsMoved : Store less P M → Type 0
  IsMoved s' =
      (p : Policy) × (get P id s.policies ≡ some p)
      × ((j : ℕ)
          → get P j s'.policies
            ≡ (if eqb id j then some (record p { stage = to_stage }) else get P j s.policies))
      × (s'.metrics ≡ s.metrics)

  -- What a promotion says by its `ok` of the policy and of the store that it leaves
  abbrev pub IsPromotion : Bool → Store less P M → Type 0
  IsPromotion true s' = IsReady × IsMoved s'
  IsPromotion false s' = ¬ IsReady × (s' ≡ s)

  abbrev Ends : PromotionResult × Store less P M → Type 0
  Ends (r, s') = IsPromotion r.ok s'

  updated-Ends :
      (o : Option Policy)
      → get P id s.policies ≡ o
      → IsReady
      → Ends (promoted less P M to_stage (updated less P M id to_stage o s))
  updated-Ends none there ready =
      absurd (ground (arith, there, IsLatest-find (id, ready.0.0) (P.rows s.policies) ready.0.1))
  updated-Ends (some p) there ready = (
    ready,
    (
      p,
      there,
      λ j. get-update P id (record p { stage = to_stage }) s.policies j (ground (arith, there)),
      refl,
    ),
  )

  checked-Ends :
      (r : PromotionResult) (p : Policy)
      → can_promote less (collect_metrics less P M id s) thresholds ≡ r
      → IsLatest (id, p) (P.rows s.policies)
      → Ends (promote_checked less P M id to_stage r s)
  unfolding update_stage
  checked-Ends r p e latest = go r.ok refl
    where
      go :
          (b : Bool)
          → r.ok ≡ b
          → Ends (
              if b
              then promoted less P M to_stage (update_stage less P M id to_stage s)
              else (r, s))
      go true good = updated-Ends (get P id s.policies) refl (
        (p, latest),
        can_promote-AreMet less id (M.rows s.metrics) thresholds (ap (λ x. x.ok) e ∙ good),
      )
      go false bad =
          subst (λ b. IsPromotion b s) (sym bad)
            (
              λ ready. absurd (
                  ground (
                    arith,
                    bad,
                    ap (λ x. x.ok) e,
                    AreMet-can_promote less id (M.rows s.metrics) thresholds ready.1,
                  )),
              refl,
            )

  -- A promotion succeeds exactly when the policy is the latest (the last of the rows in the order of
  -- the version, then of the time of making) and for every threshold the last metric of that policy
  -- with its name is not below it, if the name says that it is a minimum, and not above it, if the
  -- name says that it is a maximum or a percentage. Then the policy has the new stage, and no other
  -- row and no metric has changed. A promotion that does not succeed changes nothing.
  pub promote-IsPromotion :
      IsPromotion
        (promote less P M id to_stage thresholds s).0.ok
        (promote less P M id to_stage thresholds s).1
  unfolding promote update_stage
  promote-IsPromotion = latest (latest_policy less P M none s) refl
    where
      mismatch :
          (o : Option (ℕ × Policy))
          → last_sorted (P.rows s.policies) ≡ o
          → ((p : Policy) → ¬ (o ≡ some (id, p)))
          → ¬ IsReady
      mismatch o e n ready =
          n ready.0.0 (sym e ∙ IsLatest-last_sorted (id, ready.0.0) (P.rows s.policies) ready.0.1)

      latest :
          (o : Option (ℕ × Policy))
          → latest_policy less P M none s ≡ o
          → Ends (promote_latest less P M id to_stage thresholds o s)
      latest none e = (mismatch none e (λ p h. ground (arith, h)), refl)
      latest (some (k, p)) e = elim (Bool-cases (eqb k id)) [
        | inr other ↦ rw other (mismatch (some (k, p)) e (λ q h. ground (arith, h, other)), refl)
        | inl same ↦ rw same (
            let eq : k ≡ id = ground (arith, same) in
            checked-Ends (can_promote less (collect_metrics less P M id s) thresholds) p refl
              (last_sorted-IsLatest (id, p) (P.rows s.policies) (e ∙ ap (λ x. some (x, p)) eq)))
      ]
