-- ===== src/Common/Table/Listed.antt =====
-- A table that is a list: it meets the interface, and the tests run on it.
use Prim.Native.Nat.{ℕ, zero, suc, ◌≤◌, ◌<◌}
use mathlib.Core.Path.{◌≡◌, refl}
use mathlib.Core.Bool.{Bool, true, not}
use mathlib.Core.Option.{none, some}
use mathlib.Core.List.{List, [], ◌∷◌, ◌++◌}
use native.Mathlib.Omega.{arith}
use ai_system.Common.Tests.{Bool-cases, is_some, eqb}
use mathlib.Core.Logic.{inl, inr}
use ai_system.Common.Lists.{length, keep_if, take, All}
use ai_system.Common.Table.{
  Table, HasUniqueIds, IsPart, IsPart-refl, find, replace, find-append_one,
}

module _ {Row : Type 0} where
  -- The keys differ from one another and are below the next one.
  abbrev pub IsKeyed : ℕ → List (ℕ × Row) → Type 0
  IsKeyed next [] = Unit
  IsKeyed next ((k, r) ∷ rows) = (k < next) × (find k rows ≡ none) × IsKeyed next rows

  pub find_fresh : (next : ℕ) (rows : List (ℕ × Row)) → IsKeyed next rows → find next rows ≡ none
  unfolding find
  find_fresh next [] h = refl
  find_fresh next ((k, r) ∷ rows) h = ground (arith, find_fresh next rows h.2)

  pub add-IsKeyed :
      (next : ℕ) (r : Row) (rows : List (ℕ × Row))
      → IsKeyed next rows
      → IsKeyed (suc next) (rows ++ (next, r) ∷ [])
  unfolding find
  add-IsKeyed next r [] h = (omega arith, refl, tt)
  add-IsKeyed next r ((k, q) ∷ rows) h = (
    omega (arith, h.0),
    ground (arith, find-append_one next k r rows, find_fresh next rows h.2),
    add-IsKeyed next r rows h.2,
  )

  pub IsKeyed-HasUniqueIds :
      (next : ℕ) (rows : List (ℕ × Row)) → IsKeyed next rows → HasUniqueIds rows
  IsKeyed-HasUniqueIds next [] h = tt
  IsKeyed-HasUniqueIds next ((k, r) ∷ rows) h = (h.1, IsKeyed-HasUniqueIds next rows h.2)

  find-replace-none :
      (k j : ℕ) (r : Row) (rows : List (ℕ × Row))
      → find k rows ≡ none
      → find k (replace j r rows) ≡ none
  unfolding find replace
  find-replace-none k j r [] h = refl
  find-replace-none k j r ((i, q) ∷ rows) h = ground (arith, find-replace-none k j r rows)

  pub replace-IsKeyed :
      (next k : ℕ) (r : Row) (rows : List (ℕ × Row))
      → IsKeyed next rows
      → IsKeyed next (replace k r rows)
  unfolding replace
  replace-IsKeyed next k r [] h = tt
  replace-IsKeyed next k r ((j, q) ∷ rows) h =
      ground (arith, find-replace-none j k r rows, replace-IsKeyed next k r rows h.2)

  find_keep_none :
      (p : ℕ × Row → Bool) (k : ℕ) (rows : List (ℕ × Row))
      → find k rows ≡ none
      → find k (keep_if p rows) ≡ none
  unfolding find
  find_keep_none p k [] h = refl
  find_keep_none p k ((j, q) ∷ rows) h = ground (arith, find_keep_none p k rows)

  pub keep-IsKeyed :
      (p : ℕ × Row → Bool) (next : ℕ) (rows : List (ℕ × Row))
      → IsKeyed next rows
      → IsKeyed next (keep_if p rows)
  keep-IsKeyed p next [] h = tt
  keep-IsKeyed p next ((j, q) ∷ rows) h =
      ground (arith, find_keep_none p j rows, keep-IsKeyed p next rows h.2)

  pub take_keep_sound :
      (p : ℕ × Row → Bool) (whole part : List (ℕ × Row)) (limit : ℕ)
      → IsPart part whole
      → All (λ e. (p e ≡ true) × (find e.0 whole ≡ some e.1)) (take limit (keep_if p part))
  take_keep_sound p whole [] zero a = tt
  take_keep_sound p whole [] (suc n) a = tt
  take_keep_sound p whole (e ∷ part) zero a = tt
  take_keep_sound p whole (e ∷ part) (suc n) a = elim (Bool-cases (p e)) [
    | inl keeps ↦ rw keeps ((keeps, a.0), take_keep_sound p whole part n a.1)
    | inr drops ↦ rw drops (take_keep_sound p whole part (suc n) a.1)
  ]

  pub keep_sound :
      (p : ℕ × Row → Bool) (whole part : List (ℕ × Row))
      → IsPart part whole
      → All (λ e. (p e ≡ true) × (find e.0 whole ≡ some e.1)) (keep_if p part)
  keep_sound p whole [] a = tt
  keep_sound p whole (e ∷ part) a = elim (Bool-cases (p e)) [
    | inl keeps ↦ rw keeps ((keeps, a.0), keep_sound p whole part a.1)
    | inr drops ↦ rw drops (keep_sound p whole part a.1)
  ]

  pub keep_complete :
      (p : ℕ × Row → Bool) (k : ℕ) (r : Row) (rows : List (ℕ × Row))
      → find k rows ≡ some r
      → p (k, r) ≡ true
      → is_some (find k (keep_if p rows)) ≡ true
  unfolding find
  keep_complete p k r [] h t = ground (arith, h)
  keep_complete p k r ((j, q) ∷ rows) h t = elim (Bool-cases (eqb j k)) [
    | inl same ↦ rw (here (eqb→eq j k same) (ground (arith, h, same)), same) refl
    | inr other ↦ elim (Bool-cases (p (j, q))) [
      | inl keeps ↦ rw (keeps, other) (keep_complete p k r rows (ground (arith, h, other)) t)
      | inr drops ↦ rw drops (keep_complete p k r rows (ground (arith, h, other)) t)
    ]
  ]
    where
      eqb→eq : (i n : ℕ) → eqb i n ≡ true → i ≡ n
      eqb→eq i n e = ground arith

      here : j ≡ k → some q ≡ some r → p (j, q) ≡ true
      here e f = cc (e, f, t)

  pub length-take_le : (n : ℕ) (rows : List (ℕ × Row)) → length (take n rows) ≤ n
  length-take_le zero rows = omega arith
  length-take_le (suc n) [] = omega arith
  length-take_le (suc n) (e ∷ rows) = omega (arith, length-take_le n rows)

pub record Listed (Row : Type 0) : Type 0 where
  pub items : List (ℕ × Row)
  pub next : ℕ
  pub keyed : IsKeyed next items

module _ {Row : Type 0} where
  abbrev pub nothing : Listed Row
  nothing = record { items = []; next = 1; keyed = tt }

  -- The queries of this table take the rows in the order of their keys.
  abbrev pub listed : Table Row
  listed = record {
    State = Listed Row;
    rows = λ s. s.items;
    add = λ r s. (
      s.next,
      record {
        items = s.items ++ (s.next, r) ∷ [];
        next = suc s.next;
        keyed = add-IsKeyed s.next r s.items s.keyed;
      },
    );
    update = λ k r s. record {
      items = replace k r s.items;
      next = s.next;
      keyed = replace-IsKeyed s.next k r s.items s.keyed;
    };
    delete = λ p s. record {
      items = keep_if (λ e. not (p e)) s.items;
      next = s.next;
      keyed = keep-IsKeyed (λ e. not (p e)) s.next s.items s.keyed;
    };
    query = λ p order limit s. take limit (keep_if p s.items);
    query_all = λ p order s. keep_if p s.items;
    rows-add = λ r s. refl;
    add_fresh = λ r s. find_fresh s.next s.items s.keyed;
    rows-update = λ k r s. refl;
    rows-delete = λ p s. refl;
    ids_unique = λ s. IsKeyed-HasUniqueIds s.next s.items s.keyed;
    query_sound = λ p order limit s.
        take_keep_sound p s.items s.items limit
          (IsPart-refl s.items (IsKeyed-HasUniqueIds s.next s.items s.keyed));
    query_all_sound = λ p order s.
        keep_sound p s.items s.items
          (IsPart-refl s.items (IsKeyed-HasUniqueIds s.next s.items s.keyed));
    query_all_complete = λ p order s k r h t. keep_complete p k r s.items h t;
    query_limit = λ p order limit s. length-take_le limit (keep_if p s.items);
  }
