-- ===== src/Common/Table.antt =====
-- A database table with a primary key, as `sqlmodel` sessions give it: the interface that the
-- stores of the program use. The database is not part of the repository, so it is a parameter.
pub mod Listed
use Prim.Native.Nat.{ℕ, ◌≤◌, ◌<◌}
use mathlib.Core.Path.{◌≡◌, refl}
use mathlib.Core.Logic.{◌≢◌}
use mathlib.Core.Bool.{Bool, true, false, not}
use mathlib.Core.Option.{Option, none, some}
use mathlib.Core.List.{List, [], ◌∷◌, ◌++◌}
use native.Mathlib.Omega.{arith}
use ai_system.Common.Tests.{eqb, is_some, if◌then◌else◌}
use ai_system.Common.Lists.{length, keep_if, All}

module _ {Row : Type 0} where
  -- The row of a key.
  unfoldable pub find : ℕ → List (ℕ × Row) → Option Row
  find k [] = none
  find k ((j, r) ∷ rest) = if eqb j k then some r else find k rest

  -- Writes the row of a key that is there.
  unfoldable pub replace : ℕ → Row → List (ℕ × Row) → List (ℕ × Row)
  replace k r [] = []
  replace k r ((j, q) ∷ rest) = if eqb j k then (j, r) ∷ rest else (j, q) ∷ replace k r rest

  -- No key stands twice.
  abbrev pub HasUniqueIds : List (ℕ × Row) → Type 0
  HasUniqueIds [] = Unit
  HasUniqueIds ((k, r) ∷ rest) = (find k rest ≡ none) × HasUniqueIds rest

  -- Every row of a part is found in the whole.
  abbrev pub IsPart : List (ℕ × Row) → List (ℕ × Row) → Type 0
  IsPart part whole = All (λ e. find e.0 whole ≡ some e.1) part

  IsPart-cons :
      (k : ℕ) (r : Row) (part whole : List (ℕ × Row))
      → find k whole ≡ none
      → IsPart part whole
      → IsPart part ((k, r) ∷ whole)
  unfolding find
  IsPart-cons k r [] whole h a = tt
  IsPart-cons k r ((j, q) ∷ part) whole h a = (ground arith, IsPart-cons k r part whole h a.1)

  pub IsPart-refl : (rows : List (ℕ × Row)) → HasUniqueIds rows → IsPart rows rows
  unfolding find
  IsPart-refl [] h = tt
  IsPart-refl ((k, r) ∷ rows) h =
      (ground arith, IsPart-cons k r rows rows h.0 (IsPart-refl rows h.1))

  pub find-append_one :
      (k j : ℕ) (r : Row) (rows : List (ℕ × Row))
      → find k rows ≡ none
      → find j (rows ++ (k, r) ∷ []) ≡ (if eqb k j then some r else find j rows)
  unfolding find
  find-append_one k j r [] h = refl
  find-append_one k j r ((i, q) ∷ rest) h = ground (arith, find-append_one k j r rest)

  pub find-replace :
      (k j : ℕ) (r : Row) (rows : List (ℕ × Row))
      → is_some (find k rows) ≡ true
      → find j (replace k r rows) ≡ (if eqb k j then some r else find j rows)
  unfolding find replace
  find-replace k j r [] h = ground arith
  find-replace k j r ((i, q) ∷ rest) h = ground (arith, find-replace k j r rest)

pub record Table (Row : Type 0) : Type 1 where
  pub State : Type 0
  -- What the table holds, by its keys.
  pub rows : State → List (ℕ × Row)
  -- `session.add` of a new object, with the key that `refresh` reads back.
  pub add : Row → State → ℕ × State
  -- `session.add` of an object that was read, at its key.
  pub update : ℕ → Row → State → State
  -- `delete(...).where(...)`
  pub delete : (ℕ × Row → Bool) → State → State
  -- `select(...).where(...).order_by(... .desc()).limit(...)`
  pub query : (ℕ × Row → Bool) → (Row → ℕ) → ℕ → State → List (ℕ × Row)
  -- `SELECT ... WHERE ... ORDER BY ... ASC`
  pub query_all : (ℕ × Row → Bool) → (Row → ℕ) → State → List (ℕ × Row)
  pub rows-add : (r : Row) (s : State) → rows (add r s).1 ≡ rows s ++ ((add r s).0, r) ∷ []
  pub add_fresh : (r : Row) (s : State) → find (add r s).0 (rows s) ≡ none
  pub rows-update : (k : ℕ) (r : Row) (s : State) → rows (update k r s) ≡ replace k r (rows s)
  pub rows-delete :
      (p : ℕ × Row → Bool) (s : State) → rows (delete p s) ≡ keep_if (λ e. not (p e)) (rows s)
  pub ids_unique : (s : State) → HasUniqueIds (rows s)
  pub query_sound :
      (p : ℕ × Row → Bool) (order : Row → ℕ) (limit : ℕ) (s : State)
      → All (λ e. (p e ≡ true) × (find e.0 (rows s) ≡ some e.1)) (query p order limit s)
  pub query_all_sound :
      (p : ℕ × Row → Bool) (order : Row → ℕ) (s : State)
      → All (λ e. (p e ≡ true) × (find e.0 (rows s) ≡ some e.1)) (query_all p order s)
  pub query_all_complete :
      (p : ℕ × Row → Bool) (order : Row → ℕ) (s : State) (k : ℕ) (r : Row)
      → find k (rows s) ≡ some r
      → p (k, r) ≡ true
      → is_some (find k (query_all p order s)) ≡ true
  pub query_limit :
      (p : ℕ × Row → Bool) (order : Row → ℕ) (limit : ℕ) (s : State)
      → length (query p order limit s) ≤ limit

module _ {Row : Type 0} (T : Table Row) where
  open T use {State, rows, add, update, rows-add, add_fresh, rows-update}

  -- `session.get(Model, key)`
  abbrev pub get : ℕ → State → Option Row
  get k s = find k (rows s)

  pub get-add :
      (r : Row) (s : State) (j : ℕ)
      → get j (add r s).1 ≡ (if eqb (add r s).0 j then some r else get j s)
  get-add r s j = rw (rows-add r s) (find-append_one (add r s).0 j r (rows s) (add_fresh r s))

  pub get-update :
      (k : ℕ) (r : Row) (s : State) (j : ℕ)
      → is_some (get k s) ≡ true
      → get j (update k r s) ≡ (if eqb k j then some r else get j s)
  get-update k r s j h = rw (rows-update k r s) (find-replace k j r (rows s) h)
