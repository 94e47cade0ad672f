-- ===== src/Common/Dicts.antt =====
-- Python's `dict` with text keys, in insertion order.
use Prim.Native.String.{String}
use mathlib.Core.Path.{◌≡◌, refl}
use mathlib.Core.Bool.{Bool, false, ◌||◌}
use mathlib.Core.Option.{Option, none, some}
use mathlib.Core.List.{List, [], ◌∷◌, map}
use native.Mathlib.Omega.{arith}
use text.Mathlib.Text.{◌==◌}
use text.Mathlib.TextEquality.{eq_iff}
use ai_system.Common.Tests.{if◌then◌else◌, is_some}

abbrev pub Dict {ℓ} : Type ℓ → Type ℓ
Dict V = List (String × V)

-- `x in xs`, for a list of texts.
abbrev pub contains : String → List String → Bool
contains x [] = false
contains x (y ∷ ys) = x == y || contains x ys

module _ {ℓ} {V : Type ℓ} where
  -- `d.get(k)`
  unfoldable pub lookup : String → Dict V → Option V
  lookup k [] = none
  lookup k ((j, v) ∷ d) = if j == k then some v else lookup k d

  -- `k in d`
  abbrev pub has_key : String → Dict V → Bool
  has_key k d = is_some (lookup k d)

  -- `d[k] = v`: a known key keeps its place.
  unfoldable pub insert : String → V → Dict V → Dict V
  insert k v [] = (k, v) ∷ []
  insert k v ((j, w) ∷ d) = if j == k then (k, v) ∷ d else (j, w) ∷ insert k v d

  -- `d.pop(k, None)`
  unfoldable pub remove : String → Dict V → Dict V
  remove k [] = []
  remove k ((j, w) ∷ d) = let rest = remove k d in if j == k then rest else (j, w) ∷ rest

  -- `d.keys()`
  abbrev pub keys : Dict V → List String
  keys d = map (λ e. e.0) d

  pub lookup-insert :
      (k j : String) (v : V) (d : Dict V)
      → lookup j (insert k v d) ≡ (if k == j then some v else lookup j d)
  unfolding lookup insert
  lookup-insert k j v [] = refl
  lookup-insert k j v ((i, w) ∷ d) =
      ground (arith, eq_iff k j, eq_iff i k, eq_iff i j, lookup-insert k j v d)

  pub lookup-remove :
      (k j : String) (d : Dict V) → lookup j (remove k d) ≡ (if k == j then none else lookup j d)
  unfolding lookup remove
  lookup-remove k j [] = ground arith
  lookup-remove k j ((i, w) ∷ d) =
      ground (arith, eq_iff k j, eq_iff i k, eq_iff i j, lookup-remove k j d)

  -- The keys of a `dict` are different from one another.
  abbrev pub HasUniqueKeys : Dict V → Type 0
  HasUniqueKeys [] = Unit
  HasUniqueKeys ((k, v) ∷ d) = (has_key k d ≡ false) × HasUniqueKeys d

  pub insert-HasUniqueKeys :
      (k : String) (v : V) (d : Dict V) → HasUniqueKeys d → HasUniqueKeys (insert k v d)
  unfolding lookup insert
  insert-HasUniqueKeys k v [] h = (refl, tt)
  insert-HasUniqueKeys k v ((j, w) ∷ d) h =
      ground (arith, eq_iff j k, eq_iff k j, lookup-insert k j v d, insert-HasUniqueKeys k v d h.1)

  pub remove-HasUniqueKeys :
      (k : String) (d : Dict V) → HasUniqueKeys d → HasUniqueKeys (remove k d)
  unfolding remove
  remove-HasUniqueKeys k [] h = tt
  remove-HasUniqueKeys k ((j, w) ∷ d) h =
      ground (arith, eq_iff j k, eq_iff k j, lookup-remove k j d, remove-HasUniqueKeys k d h.1)

  -- `for key in expired: d.pop(key, None)`
  unfoldable pub remove_all : List String → Dict V → Dict V
  remove_all [] d = d
  remove_all (k ∷ ks) d = remove_all ks (remove k d)

  pub lookup-remove_all :
      (ks : List String) (j : String) (d : Dict V)
      → lookup j (remove_all ks d) ≡ (if contains j ks then none else lookup j d)
  unfolding remove_all
  lookup-remove_all [] j d = refl
  lookup-remove_all (k ∷ ks) j d =
      ground
        (arith, lookup-remove_all ks j (remove k d), lookup-remove k j d, eq_iff j k, eq_iff k j)

  pub remove_all-HasUniqueKeys :
      (ks : List String) (d : Dict V) → HasUniqueKeys d → HasUniqueKeys (remove_all ks d)
  unfolding remove_all
  remove_all-HasUniqueKeys [] d h = h
  remove_all-HasUniqueKeys (k ∷ ks) d h =
      remove_all-HasUniqueKeys ks (remove k d) (remove-HasUniqueKeys k d h)

  -- `[key for key, v in d.items() if p(v)]`
  unfoldable pub keys_where : (V → Bool) → Dict V → List String
  keys_where p [] = []
  keys_where p ((k, v) ∷ d) = if p v then k ∷ keys_where p d else keys_where p d

  abbrev pub holds : (V → Bool) → Option V → Bool
  holds p none = false
  holds p (some v) = p v

  pub contains-keys_where :
      (p : V → Bool) (j : String) (d : Dict V)
      → HasUniqueKeys d
      → contains j (keys_where p d) ≡ holds p (lookup j d)
  unfolding keys_where lookup
  contains-keys_where p j [] h = refl
  contains-keys_where p j ((k, v) ∷ d) h =
      ground (arith, contains-keys_where p j d h.1, eq_iff j k, eq_iff k j)

pub ruleset dict_laws = (lookup-insert, lookup-remove)
