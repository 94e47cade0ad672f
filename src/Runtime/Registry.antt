-- ===== src/Runtime/Registry.antt =====
-- The registry of agents and their creation (ai/registry.py). What `registry.json` holds, and the
-- class that a specification names, are parameters.
use ai_system.Common.{
  ℕ, suc, ◌≡◌, refl, sym, ap, subst, ◌∙◌, String, Bool, true, false, Option, none, some, List, [],
  ◌∷◌, map, ltb, ◌==◌, eq_iff, eq_refl, arith, if◌then◌else◌, Dict, lookup, insert, lookup-insert,
  ◌||◌, ◌↔◌, contains, keep_if, All, Bool-cases, inl, inr,
}
use ai_system.Common.Value.{Fields}

pub record AgentSpec : Type 0 where
  pub key : String
  pub module_name : String
  pub class_name : String
  pub enabled : Bool
  pub config : Fields

pub data Loaded : Type 0 where
  loaded : List AgentSpec → Loaded
  invalid : Loaded
  duplicate_keys : List String → Loaded

-- `keys.count(key)`
abbrev pub count : String → List String → ℕ
count k [] = 0
count k (j ∷ js) = if k == j then suc (count k js) else count k js

-- The keys that stand more than once; the source has each once, and sorted, in the message.
abbrev pub repeated : List String → List String
repeated keys = keep_if (λ k. ltb 1 (count k keys)) keys

abbrev pub without_repeated : List String → List AgentSpec → Loaded
without_repeated [] specs = loaded specs
without_repeated (k ∷ ks) specs = duplicate_keys (k ∷ ks)

-- `load_registry`, of what the file holds: none if it cannot be read or is not a registry
unfoldable pub load_registry : Option (List AgentSpec) → Loaded
load_registry none = invalid
load_registry (some specs) = without_repeated (repeated (map (λ s. s.key) specs)) specs

module _ {A : Type 0} (make : AgentSpec → Option A) where
  abbrev pub put_made : String → Option A → (Dict A → Option (Dict A)) → Dict A → Option (Dict A)
  put_made key none rest d = none
  put_made key (some a) rest d = rest (insert key a d)

  -- The loop of `hydrate_agents`; none stands for an exception.
  unfoldable pub hydrate_from : List AgentSpec → Dict A → Option (Dict A)
  hydrate_from [] d = some d
  hydrate_from (s ∷ rest) d =
      if s.enabled then put_made s.key (make s) (hydrate_from rest) d else hydrate_from rest d

  -- `hydrate_agents`
  abbrev pub hydrate_agents : List AgentSpec → Option (Dict A)
  hydrate_agents specs = hydrate_from specs []

  abbrev keys_of : List AgentSpec → List String
  keys_of specs = map (λ s. s.key) specs

  abbrev HasDistinctKeys : List AgentSpec → Type 0
  HasDistinctKeys [] = Unit
  HasDistinctKeys (s ∷ rest) = (contains s.key (keys_of rest) ≡ false) × HasDistinctKeys rest

  put_made-some :
      (key : String) (o : Option A) (f : Dict A → Option (Dict A)) (d e : Dict A)
      → put_made key o f d ≡ some e
      → (a : A) × (o ≡ some a) × (f (insert key a d) ≡ some e)
  put_made-some key none f d e h = absurd (ground (arith, h))
  put_made-some key (some a) f d e h = (a, refl, h)

  -- A key that no further specification has keeps its agent.
  hydrate_from_other :
      (k : String) (specs : List AgentSpec) (d e : Dict A)
      → contains k (keys_of specs) ≡ false
      → hydrate_from specs d ≡ some e
      → lookup k e ≡ lookup k d
  unfolding hydrate_from
  hydrate_from_other k [] d e n h = ap (lookup k) (some-inj (sym h))
    where
      some-inj : {x y : Dict A} → some x ≡ some y → x ≡ y
      some-inj f = cc f
  hydrate_from_other k (s ∷ rest) d e n h =
      entered s.enabled h (λ d' h'. hydrate_from_other k rest d' e (apart.1) h')
    where
      apart : ((s.key == k) ≡ false) × (contains k (keys_of rest) ≡ false)
      apart = split (k == s.key) (contains k (keys_of rest)) n (eq_iff k s.key) (eq_iff s.key k)
        where
          split :
              (b c : Bool)
              → (b || c) ≡ false
              → ((b ≡ true) ↔ (k ≡ s.key))
              → (((s.key == k) ≡ true) ↔ (s.key ≡ k))
              → ((s.key == k) ≡ false) × (c ≡ false)
          split b c f g i = ground (arith, f, g, i)

      entered :
          (b : Bool)
          → (if b then put_made s.key (make s) (hydrate_from rest) d else hydrate_from rest d)
            ≡ some e
          → ((d' : Dict A) → hydrate_from rest d' ≡ some e → lookup k e ≡ lookup k d')
          → lookup k e ≡ lookup k d
      entered false g later = later d g
      entered true g later =
          let m = put_made-some s.key (make s) (hydrate_from rest) d e g in
          later (insert s.key m.0 d) m.2 ∙ lookup-insert s.key k m.0 d ∙ rw apart.0 refl

  IsAbsent : Dict A → AgentSpec → Type 0
  IsAbsent d s = lookup s.key d ≡ none

  -- What a specification comes to: an agent if it is enabled, and none otherwise.
  abbrev pub IsHydrated : Dict A → AgentSpec → Type 0
  IsHydrated d s = lookup s.key d ≡ (if s.enabled then make s else none)

  insert-IsAbsent :
      (key : String) (a : A) (d : Dict A) (specs : List AgentSpec)
      → contains key (keys_of specs) ≡ false
      → All (IsAbsent d) specs
      → All (IsAbsent (insert key a d)) specs
  unfolding IsAbsent
  insert-IsAbsent key a d [] n h = tt
  insert-IsAbsent key a d (s ∷ rest) n h = (
    ground (arith, n, h.0, lookup-insert key s.key a d),
    insert-IsAbsent key a d rest (ground (arith, n)) h.1,
  )

  hydrate_from-IsHydrated :
      (specs : List AgentSpec) (d e : Dict A)
      → HasDistinctKeys specs
      → All (IsAbsent d) specs
      → hydrate_from specs d ≡ some e
      → All (IsHydrated e) specs
  unfolding hydrate_from IsAbsent
  hydrate_from-IsHydrated [] d e u h f = tt
  hydrate_from-IsHydrated (s ∷ rest) d e u h f =
      entered s.enabled refl f (λ d' h' f'. hydrate_from-IsHydrated rest d' e u.1 h' f')
    where
      entered :
          (b : Bool)
          → s.enabled ≡ b
          → (if b then put_made s.key (make s) (hydrate_from rest) d else hydrate_from rest d)
            ≡ some e
          → ((d' : Dict A)
              → All (IsAbsent d') rest
              → hydrate_from rest d' ≡ some e
              → All (IsHydrated e) rest)
          → IsHydrated e s × All (IsHydrated e) rest
      entered false eb g later =
          (hydrate_from_other s.key rest d e u.0 g ∙ h.0 ∙ sym (chosen eb), later d h.1 g)
        where
          chosen : s.enabled ≡ false → (if s.enabled then make s else none) ≡ none
          chosen x = ap (λ c. if c then make s else none) x
      entered true eb g later =
          let m = put_made-some s.key (make s) (hydrate_from rest) d e g in
          (
            hydrate_from_other s.key rest (insert s.key m.0 d) e u.0 m.2
                ∙ lookup-insert s.key s.key m.0 d
                ∙ ap (λ c. if c then some m.0 else lookup s.key d) (eq_refl s.key)
                ∙ sym m.1
                ∙ sym (ap (λ c. if c then make s else none) eb),
            later (insert s.key m.0 d) (insert-IsAbsent s.key m.0 d rest u.0 h.1) m.2,
          )

  empty-IsAbsent : (specs : List AgentSpec) → All (IsAbsent []) specs
  unfolding IsAbsent lookup
  empty-IsAbsent [] = tt
  empty-IsAbsent (s ∷ rest) = (refl, empty-IsAbsent rest)

  count-contains :
      (k : String) (ks : List String) → contains k ks ≡ true → ltb 0 (count k ks) ≡ true
  count-contains k [] h = ground (arith, h)
  count-contains k (j ∷ ks) h = ground (arith, h, count-contains k ks)

  -- No key stands twice in a list whose members are all counted once.
  few-HasDistinctKeys :
      (specs : List AgentSpec)
      → ((k : String) → ltb 1 (count k (keys_of specs)) ≡ false)
      → HasDistinctKeys specs
  few-HasDistinctKeys [] f = tt
  few-HasDistinctKeys (s ∷ rest) f = (
    ground (arith, f s.key, eq_refl s.key, count-contains s.key (keys_of rest)),
    few-HasDistinctKeys rest (λ k. ground (arith, f k)),
  )

  none_kept :
      (p : String → Bool) (j : String) (ks : List String)
      → keep_if p ks ≡ []
      → contains j ks ≡ true
      → p j ≡ false
  none_kept p j [] e h = ground (arith, h)
  none_kept p j (k ∷ ks) e h = elim (Bool-cases (p k)) [
    | inl keeps ↦ absurd (filled keeps (rw keeps at e))
    | inr drops ↦ elim (Bool-cases (j == k)) [
      | inl same ↦ ap p ((eq_iff j k).0 same) ∙ drops
      | inr other ↦ none_kept p j ks (rw drops at e) (rw other at h)
    ]
  ]
    where
      filled : p k ≡ true → k ∷ keep_if p ks ≡ [] → ⊥
      filled keeps f = ground (arith, f)

  no_more : (k : String) (ks : List String) → contains k ks ≡ false → count k ks ≡ 0
  no_more k [] h = refl
  no_more k (j ∷ ks) h = ground (arith, h, no_more k ks)

  few : (ks : List String) → repeated ks ≡ [] → (k : String) → ltb 1 (count k ks) ≡ false
  few ks e k = elim (Bool-cases (contains k ks)) [
    | inl there ↦ none_kept (λ j. ltb 1 (count j ks)) k ks e there
    | inr gone ↦ rw (no_more k ks gone) refl
  ]

  loaded-eq :
      (r : List String) (specs found : List AgentSpec)
      → without_repeated r found ≡ loaded specs
      → (r ≡ []) × (found ≡ specs)
  loaded-eq [] specs found h = (refl, ground (arith, h))
  loaded-eq (k ∷ ks) specs found h = ground (arith, h)

  -- If the registry loads and every class that it names can be created, then each enabled
  -- specification has the agent created from it under its key, and no disabled one has an agent.
  pub hydrate_agents-IsHydrated :
      (file : Option (List AgentSpec)) (specs : List AgentSpec) (agents : Dict A)
      → load_registry file ≡ loaded specs
      → hydrate_agents specs ≡ some agents
      → All (IsHydrated agents) specs
  unfolding load_registry
  hydrate_agents-IsHydrated none specs agents l h = ground (arith, l)
  hydrate_agents-IsHydrated (some found) specs agents l h =
      let r = loaded-eq (repeated (keys_of found)) specs found l in
      hydrate_from-IsHydrated specs [] agents
        (few-HasDistinctKeys specs
          (few (keys_of specs) (subst (λ x. repeated (keys_of x) ≡ []) r.1 r.0)))
        (empty-IsAbsent specs) h
