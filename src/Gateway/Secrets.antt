-- ===== src/Gateway/Secrets.antt =====
-- What the listing of agents (routers/agents.py) shows of their configuration.
use Prim.Native.Char.{code}
use Prim.Native.String as Text
use ai_system.Common.{
  ◌⊎◌, arith, ℕ, ◌+◌, ◌&&◌, eqb, leb, inl, inr, Bool-cases, All, ap, sym, ◌∙◌, ◌≡◌, refl, String,
  Bool, true, false, Option, none, some, List, [], ◌∷◌, ◌==◌, eq_iff, if◌then◌else◌, Dict,
}
use ai_system.Common.Effects.{Ended}
use ai_system.Common.Value.{Fields, Value, end, entry}
use ai_system.Supervisor.{Agent}
use ai_system.Runtime.Registry.{AgentSpec}
use ai_system.Gateway.Listing.{
  is_secret, is_one_of, lowers, lowers_to, secret_config_keys, safe_config, RegistryEntry, shown_of,
  find_spec, registry_entry, agent_items,
}

-- The first value of a key
abbrev pub config_value : String → Fields → Option Value
config_value k end = none
config_value k (entry j v rest) = if k == j then some v else config_value k rest

abbrev nothing : Option Value
nothing = none

hidden : (b : Bool) → (if b then nothing else nothing) ≡ nothing
hidden true = refl
hidden false = refl

config_value-safe_config :
    (k : String) (d : Fields)
    → config_value k (safe_config d) ≡ (if is_secret k then none else config_value k d)
unfolding safe_config
config_value-safe_config k end = sym (hidden (is_secret k))
config_value-safe_config k (entry j v rest) =
    go (is_secret j) refl (k == j) refl (config_value-safe_config k rest)
  where
    go :
        (b : Bool)
        → is_secret j ≡ b
        → (c : Bool) → (k == j) ≡ c
        → config_value k (safe_config rest) ≡ (if is_secret k then none else config_value k rest)
        → config_value k (if b then safe_config rest else entry j v (safe_config rest))
          ≡ (if is_secret k then none else if c then some v else config_value k rest)
    go true e true f h =
        h
        ∙ ap (λ b. if b then none else config_value k rest) known
        ∙ sym (ap (λ b. if b then none else some v) known)
      where
        known : is_secret k ≡ true
        known = ap is_secret ((eq_iff k j).0 f) ∙ e
    go true e false f h = h
    go false e true f h =
        ap (λ b. if b then some v else config_value k (safe_config rest)) f
        ∙ sym (ap (λ b. if b then none else some v) known)
      where
        known : is_secret k ≡ false
        known = ap is_secret ((eq_iff k j).0 f) ∙ e
    go false e false f h = ap (λ b. if b then some v else config_value k (safe_config rest)) f ∙ h

-- What an entry shows under a key, of the specifications of its registry
abbrev pub shown_value : String → Option RegistryEntry → Option Value
shown_value k none = none
shown_value k (some e) = config_value k e.config

abbrev pub spec_value : String → Option AgentSpec → Option Value
spec_value k none = none
spec_value k (some s) = config_value k s.config

abbrev pub specs_of : Option (List AgentSpec) → List AgentSpec
specs_of none = []
specs_of (some specs) = specs

shown_value-shown_of :
    (k : String) (o : Option AgentSpec)
    → shown_value k (shown_of o) ≡ (if is_secret k then none else spec_value k o)
shown_value-shown_of k none = sym (hidden (is_secret k))
shown_value-shown_of k (some s) = config_value-safe_config k s.config

shown_value-registry_entry :
    (registry : Option (List AgentSpec)) (key k : String)
    → shown_value k (registry_entry registry key)
      ≡ (if is_secret k then none else spec_value k (find_spec key (specs_of registry)))
unfolding registry_entry
shown_value-registry_entry none key k = sym (hidden (is_secret k))
shown_value-registry_entry (some specs) key k = shown_value-shown_of k (find_spec key specs)

-- The codes of a text, as it is and in small letters
abbrev pub codes : String → List ℕ
codes Text.[] = []
codes (Text.◌∷◌ c s) = code c ∷ codes s

abbrev pub small : ℕ → ℕ
small a = if eqb a 8490 then 107 else if leb 65 a && leb a 90 then a + 32 else a

abbrev pub small_codes : String → List ℕ
small_codes Text.[] = []
small_codes (Text.◌∷◌ c s) = small (code c) ∷ small_codes s

-- In small letters, the text is one of the names.
abbrev pub IsAmong : String → List String → Type 0
IsAmong k [] = ⊥
IsAmong k (s ∷ rest) = (small_codes k ≡ codes s) ⊎ IsAmong k rest

abbrev pub IsHidden : String → Type 0
IsHidden k =
    IsAmong k (
      "api_key" ∷ "api_secret" ∷ "secret" ∷ "token" ∷ "password" ∷ "fernet_key" ∷ "webhook_url"
      ∷ [])

lowers-small : (a b : ℕ) → lowers a b ≡ eqb (small a) b
lowers-small a b = ground arith

lowers_to-codes : (k s : String) → lowers_to k s ≡ true → small_codes k ≡ codes s
unfolding lowers_to
lowers_to-codes Text.[] Text.[] h = refl
lowers_to-codes Text.[] (Text.◌∷◌ d t) h = absurd (ground (arith, h))
lowers_to-codes (Text.◌∷◌ c s) Text.[] h = absurd (ground (arith, h))
lowers_to-codes (Text.◌∷◌ c s) (Text.◌∷◌ d t) h =
    let first : small (code c) ≡ code d = ground (arith, h, lowers-small (code c) (code d)) in
    let others : lowers_to s t ≡ true = ground (arith, h) in
    rw (first, lowers_to-codes s t others) refl

codes-lowers_to : (k s : String) → small_codes k ≡ codes s → lowers_to k s ≡ true
unfolding lowers_to
codes-lowers_to Text.[] Text.[] e = refl
codes-lowers_to Text.[] (Text.◌∷◌ d t) e = ground (arith, e)
codes-lowers_to (Text.◌∷◌ c s) Text.[] e = ground (arith, e)
codes-lowers_to (Text.◌∷◌ c s) (Text.◌∷◌ d t) e =
    let first : lowers (code c) (code d) ≡ true =
      ground (arith, e, lowers-small (code c) (code d)) in
    let others : small_codes s ≡ codes t = ground (arith, e) in
    rw (first, codes-lowers_to s t others) refl

is_one_of-IsAmong : (k : String) (l : List String) → is_one_of k l ≡ true → IsAmong k l
is_one_of-IsAmong k [] h = absurd (ground (arith, h))
is_one_of-IsAmong k (s ∷ rest) h = elim (Bool-cases (lowers_to k s)) [
  | inl e ↦ inl (lowers_to-codes k s e)
  | inr e ↦ inr (is_one_of-IsAmong k rest (rw e at h))
]

IsAmong-is_one_of : (k : String) (l : List String) → IsAmong k l → is_one_of k l ≡ true
IsAmong-is_one_of k [] h = absurd h
IsAmong-is_one_of k (s ∷ rest) (inl e) = rw (codes-lowers_to k s e) refl
IsAmong-is_one_of k (s ∷ rest) (inr h) = ground (arith, IsAmong-is_one_of k rest h)

is_secret-IsHidden : (k : String) → is_secret k ≡ true → IsHidden k
unfolding is_secret
is_secret-IsHidden k h = is_one_of-IsAmong k secret_config_keys h

IsHidden-is_secret : (k : String) → IsHidden k → is_secret k ≡ true
unfolding is_secret
IsHidden-is_secret k h = IsAmong-is_one_of k secret_config_keys h

-- What is shown of the configuration under a key
abbrev pub IsShown : String → Option Value → Option Value → Type 0
IsShown k seen value = (IsHidden k → seen ≡ none) × (¬ IsHidden k → seen ≡ value)

seen-IsShown :
    (k : String) (seen value : Option Value)
    → seen ≡ (if is_secret k then none else value)
    → IsShown k seen value
seen-IsShown k seen value e = (
  λ h. e ∙ ap (λ b. if b then none else value) (IsHidden-is_secret k h),
  λ n. elim (Bool-cases (is_secret k)) [
    | inl h ↦ absurd (n (is_secret-IsHidden k h))
    | inr h ↦ e ∙ ap (λ b. if b then none else value) h
  ],
)

-- Every item of the listing of agents shows nothing under a key that in small letters is "api_key",
-- "api_secret", "secret", "token", "password", "fernet_key" or "webhook_url", and under every other
-- key the value that the configuration of the agent in the registry has there.
pub agent_items_show :
    {P : Type 0} (ask : String → Agent → Ended P) (registry : Option (List AgentSpec))
    (agents : Dict Agent)
    → All
        (λ item.
          (k : String)
          → IsShown k (shown_value k item.2) (spec_value k (find_spec item.0 (specs_of registry))))
        (agent_items ask registry agents)
unfolding agent_items
agent_items_show ask registry [] = tt
agent_items_show ask registry ((key, a) ∷ rest) = (
  λ k. seen-IsShown k _ _ (shown_value-registry_entry registry key k),
  agent_items_show ask registry rest,
)
