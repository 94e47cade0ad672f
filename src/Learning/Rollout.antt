-- ===== src/Learning/Rollout.antt =====
-- What a promotion rests on.
use Prim.Native.String as Native
use ai_system.Common.{
  ℕ, ◌≡◌, refl, sym, subst, ap, ◌∙◌, String, Bool, true, false, Option, none, some, List, [], ◌∷◌,
  eqb, arith, ◌==◌, ◌&&◌, ◌||◌, if◌then◌else◌, Dict, lookup, insert, lookup-insert, Bool-cases, inl,
  inr,
}
use ai_system.Learning.{
  PolicyMetric, PromotionResult, refused, breaks, checked, can_promote, starts_with, ends_with,
  collected,
}

module _ {V : Type 0} where
  abbrev pub or_prior : Option V → Option V → Option V
  or_prior none later = later
  or_prior (some v) later = some v

  -- The value of a name in the last metric of a policy that has it
  abbrev pub metric_of : ℕ → String → List (ℕ × PolicyMetric V) → Option V
  metric_of id key [] = none
  metric_of id key ((k, row) ∷ rest) =
      or_prior (metric_of id key rest)
        (if eqb row.policy_id id && row.metric_name == key then some row.metric_value else none)

  or_prior_assoc : (a b c : Option V) → or_prior a (or_prior b c) ≡ or_prior (or_prior a b) c
  or_prior_assoc none b c = refl
  or_prior_assoc (some v) b c = refl

module _ {V : Type 0} (less : V → V → Bool) where
  entered :
      (id : ℕ) (key : String) (row : PolicyMetric V) (d : Dict V)
      → lookup key (if eqb row.policy_id id then insert row.metric_name row.metric_value d else d)
        ≡ or_prior
            (if eqb row.policy_id id && row.metric_name == key then some row.metric_value else none)
            (lookup key d)
  entered id key row d = elim (Bool-cases (eqb row.policy_id id)) [
    | inr other ↦ rw other refl
    | inl own ↦
        rw (own, lookup-insert row.metric_name key row.metric_value d)
          (elim (Bool-cases (row.metric_name == key)) [
            | inl same ↦ rw same refl
            | inr diff ↦ rw diff refl
          ])
  ]

  lookup-collected :
      (id : ℕ) (key : String) (rows : List (ℕ × PolicyMetric V)) (d : Dict V)
      → lookup key (collected id rows d) ≡ or_prior (metric_of id key rows) (lookup key d)
  lookup-collected id key [] d = refl
  lookup-collected id key ((k, row) ∷ rest) d =
      lookup-collected id key rest _
      ∙ ap (or_prior (metric_of id key rest)) (entered id key row d)
      ∙ or_prior_assoc (metric_of id key rest) _ (lookup key d)

  or_prior-none : (o : Option V) → or_prior o none ≡ o
  or_prior-none none = refl
  or_prior-none (some v) = refl

  -- A metric is there and keeps the limit: as a lower one, an upper one, or both by its name.
  abbrev pub IsMet : String → V → Option V → Type 0
  IsMet key limit none = ⊥
  IsMet key limit (some value) =
      ((ends_with "_min" key || starts_with "min_" key) ≡ true → less value limit ≡ false)
      × ((ends_with "_max" key || starts_with "max_" key || ends_with "_pct" key) ≡ true
          → less limit value ≡ false)

  -- Every threshold is met by the last metric of the policy that has its name.
  abbrev pub AreMet : ℕ → List (ℕ × PolicyMetric V) → Dict V → Type 0
  AreMet id rows [] = Unit
  AreMet id rows ((key, limit) ∷ rest) =
      IsMet key limit (metric_of id key rows) × AreMet id rows rest

  kept :
      (lower upper a b : Bool)
      → (lower && a || upper && b) ≡ false
      → (lower ≡ true → a ≡ false) × (upper ≡ true → b ≡ false)
  kept lower upper a b h = (λ e. ground (arith, e, h), λ e. ground (arith, e, h))

  unbroken :
      (lower upper a b : Bool)
      → (lower ≡ true → a ≡ false)
      → (upper ≡ true → b ≡ false)
      → (lower && a || upper && b) ≡ false
  unbroken true true a b h k = rw (h refl, k refl) refl
  unbroken true false a b h k = rw (h refl) refl
  unbroken false true a b h k = rw (k refl) refl
  unbroken false false a b h k = refl

  checked-IsMet :
      (key : String) (limit : V) (o : Option V) (rest : PromotionResult)
      → (checked less key limit o rest).ok ≡ true
      → IsMet key limit o × (rest.ok ≡ true)
  checked-IsMet key limit none rest h = ground (arith, h)
  checked-IsMet key limit (some value) rest h = elim (Bool-cases (breaks less key value limit)) [
    | inl e ↦ absurd (ground (arith, rw e at h))
    | inr e ↦ (kept _ _ (less value limit) (less limit value) e, rw e at h)
  ]

  IsMet-checked :
      (key : String) (limit : V) (o : Option V) (rest : PromotionResult)
      → IsMet key limit o
      → rest.ok ≡ true
      → (checked less key limit o rest).ok ≡ true
  IsMet-checked key limit none rest h r = absurd h
  IsMet-checked key limit (some value) rest (h, k) r =
      ap (λ b. (if b then refused (Native.◌++◌ "threshold:" key) else rest).ok)
        (unbroken _ _ (less value limit) (less limit value) h k)
      ∙ r

  lookup-metric_of :
      (id : ℕ) (key : String) (rows : List (ℕ × PolicyMetric V))
      → lookup key (collected id rows []) ≡ metric_of id key rows
  unfolding lookup
  lookup-metric_of id key rows =
      lookup-collected id key rows [] ∙ or_prior-none (metric_of id key rows)

  pub can_promote-AreMet :
      (id : ℕ) (rows : List (ℕ × PolicyMetric V)) (thresholds : Dict V)
      → (can_promote less (collected id rows []) thresholds).ok ≡ true
      → AreMet id rows thresholds
  unfolding can_promote
  can_promote-AreMet id rows [] h = tt
  can_promote-AreMet id rows ((key, limit) ∷ rest) h =
      let r =
        checked-IsMet key limit (lookup key (collected id rows []))
          (can_promote less (collected id rows []) rest) h in
      (
        subst (IsMet key limit) (lookup-metric_of id key rows) r.0,
        can_promote-AreMet id rows rest r.1,
      )

  pub AreMet-can_promote :
      (id : ℕ) (rows : List (ℕ × PolicyMetric V)) (thresholds : Dict V)
      → AreMet id rows thresholds
      → (can_promote less (collected id rows []) thresholds).ok ≡ true
  unfolding can_promote
  AreMet-can_promote id rows [] h = refl
  AreMet-can_promote id rows ((key, limit) ∷ rest) h =
      IsMet-checked key limit _ _ (subst (IsMet key limit) (sym (lookup-metric_of id key rows)) h.0)
        (AreMet-can_promote id rows rest h.1)
