-- ===== src/Policy/Levels.antt =====
-- What the policies allow.
use ai_system.Common.{
  ◌≤◌, ◌≡◌, refl, String, Bool, true, false, none, some, arith, ◌==◌, eq_iff, lookup, if◌then◌else◌,
  Option-cases, Bool-cases, subst, inl, inr,
}
use ai_system.Policy.{
  CapabilityLevel, index, execute_with_approval, execute_automatically, CapabilityPolicy,
  PolicyEngine, build, get, allows, policy_engine,
}

-- A capability that is allowed at a level is allowed at every level below it, and has a policy that
-- is enabled and at least as high.
pub allows_down :
    (e : PolicyEngine) (capability : String) (low high : CapabilityLevel)
    → index low ≤ index high
    → allows e capability high ≡ true
    → (allows e capability low ≡ true)
      × (p : CapabilityPolicy) × (get e capability ≡ some p)
      × (p.enabled ≡ true)
      × (index high ≤ index p.level)
unfolding allows
allows_down e capability low high le h = elim (Option-cases (get e capability)) [
  | inl missing ↦ absurd (ground arith)
  | inr (p, found) ↦ (ground arith, p, found, ground arith, ground arith)
]

-- The capabilities that the default policies leave to an approval.
abbrev pub needs_approval : String → Bool
needs_approval c =
    if "content.publish" == c
    then true
    else if "message.send" == c
    then true
    else "trade.execute" == c

-- A claim about every capability follows from the seven that have a policy and from the rest.
pub policy_engine_cases {ℓ} :
    (P : String → Type ℓ)
    → P "account.read"
    → P "market.read"
    → P "balances.read"
    → P "content.draft"
    → P "content.publish"
    → P "message.send"
    → P "trade.execute"
    → ((c : String) → get policy_engine c ≡ none → needs_approval c ≡ false → P c)
    → (c : String) → P c
unfolding build lookup
policy_engine_cases P p0 p1 p2 p3 p4 p5 p6 other c = elim (Bool-cases ("account.read" == c)) [
  | inl e ↦ subst P ((eq_iff "account.read" c).0 e) p0
  | inr n0 ↦ elim (Bool-cases ("market.read" == c)) [
    | inl e ↦ subst P ((eq_iff "market.read" c).0 e) p1
    | inr n1 ↦ elim (Bool-cases ("balances.read" == c)) [
      | inl e ↦ subst P ((eq_iff "balances.read" c).0 e) p2
      | inr n2 ↦ elim (Bool-cases ("content.draft" == c)) [
        | inl e ↦ subst P ((eq_iff "content.draft" c).0 e) p3
        | inr n3 ↦ elim (Bool-cases ("content.publish" == c)) [
          | inl e ↦ subst P ((eq_iff "content.publish" c).0 e) p4
          | inr n4 ↦ elim (Bool-cases ("message.send" == c)) [
            | inl e ↦ subst P ((eq_iff "message.send" c).0 e) p5
            | inr n5 ↦ elim (Bool-cases ("trade.execute" == c)) [
              | inl e ↦ subst P ((eq_iff "trade.execute" c).0 e) p6
              | inr n6 ↦ other c (rw (n0, n1, n2, n3, n4, n5, n6)) (rw (n4, n5, n6))
            ]
          ]
        ]
      ]
    ]
  ]
]

abbrev DefaultAllows : String → Type 0
DefaultAllows capability =
    (allows policy_engine capability execute_automatically ≡ false)
    × (allows policy_engine capability execute_with_approval ≡ needs_approval capability)

-- Under the default policies no capability at all may be executed automatically, and those that
-- may be executed with an approval are publishing content, sending a message and executing a trade.
pub policy_engine-allows :
    (capability : String)
    → (allows policy_engine capability execute_automatically ≡ false)
      × (allows policy_engine capability execute_with_approval ≡ needs_approval capability)
unfolding allows build lookup
policy_engine-allows =
    policy_engine_cases DefaultAllows (refl, refl) (refl, refl) (refl, refl) (refl, refl)
      (refl, refl) (refl, refl) (refl, refl) (λ c missing free. rw (missing, free) (refl, refl))
