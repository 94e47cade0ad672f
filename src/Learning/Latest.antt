-- ===== src/Learning/Latest.antt =====
-- The latest policy of the registry (learning/policy/registry.py).
use ai_system.Common.{
  ℕ, ◌≤◌, ◌<◌, ◌≡◌, ◌⊎◌, refl, ap, ◌∙◌, true, false, Option, none, some, List, [], ◌∷◌, ◌++◌, All,
  is_some, eqb, arith, Bool-cases, inl, inr,
}
use ai_system.Common.Table.{find}
use ai_system.Learning.{Policy, is_before, later_of, last_sorted}

-- The first policy has a lower version, or the same version and was made earlier.
abbrev pub IsBefore : Policy → Policy → Type 0
IsBefore q p = (q.version < p.version) ⊎ ((q.version ≡ p.version) × (q.created_ts < p.created_ts))

-- As before, or both were made at the same time.
abbrev pub IsNotAfter : Policy → Policy → Type 0
IsNotAfter q p = (q.version < p.version) ⊎ ((q.version ≡ p.version) × (q.created_ts ≤ p.created_ts))

-- A policy of the rows is the latest: no row above is after it, and all below are before it.
abbrev pub IsLatest : ℕ × Policy → List (ℕ × Policy) → Type 0
IsLatest e rows =
    (above : List (ℕ × Policy)) × (below : List (ℕ × Policy)) × (rows ≡ above ++ e ∷ below)
    × All (λ q. IsNotAfter q.1 e.1) above
    × All (λ q. IsBefore q.1 e.1) below

abbrev IsLast : Option (ℕ × Policy) → List (ℕ × Policy) → Type 0
IsLast none rows = rows ≡ []
IsLast (some e) rows = IsLatest e rows

is_before-IsBefore : (q p : Policy) → is_before q p ≡ true → IsBefore q p
is_before-IsBefore q p h = elim (Bool-cases (eqb q.version p.version)) [
  | inl e ↦ inr (ground (arith, e), ground (arith, h, e))
  | inr n ↦ inl (ground (arith, h, n))
]

IsBefore-is_before : (q p : Policy) → IsBefore q p → is_before q p ≡ true
IsBefore-is_before q p (inl h) = ground (arith, h)
IsBefore-is_before q p (inr (e, h)) = ground (arith, e, h)

is_before-IsNotAfter : (q p : Policy) → is_before p q ≡ false → IsNotAfter q p
is_before-IsNotAfter q p h = elim (Bool-cases (eqb p.version q.version)) [
  | inl e ↦ inr (ground (arith, e), ground (arith, h, e))
  | inr n ↦ inl (ground (arith, h, n))
]

IsNotAfter-is_before : (q p : Policy) → IsNotAfter q p → is_before p q ≡ false
IsNotAfter-is_before q p (inl h) = ground (arith, h)
IsNotAfter-is_before q p (inr (e, h)) = ground (arith, e, h)

IsBefore-trans : (q p r : Policy) → IsBefore q p → IsBefore p r → IsBefore q r
IsBefore-trans q p r (inl h) (inl k) = inl (omega (arith, h, k))
IsBefore-trans q p r (inl h) (inr (e, k)) = inl (omega (arith, h, e))
IsBefore-trans q p r (inr (e, h)) (inl k) = inl (omega (arith, k, e))
IsBefore-trans q p r (inr (e, h)) (inr (f, k)) = inr (omega (arith, e, f), omega (arith, h, k))

IsNotAfter-IsBefore : (q p r : Policy) → IsNotAfter q p → IsBefore p r → IsBefore q r
IsNotAfter-IsBefore q p r (inl h) (inl k) = inl (omega (arith, h, k))
IsNotAfter-IsBefore q p r (inl h) (inr (e, k)) = inl (omega (arith, h, e))
IsNotAfter-IsBefore q p r (inr (e, h)) (inl k) = inl (omega (arith, k, e))
IsNotAfter-IsBefore q p r (inr (e, h)) (inr (f, k)) = inr (omega (arith, e, f), omega (arith, h, k))

below-All :
    (f e : ℕ × Policy) (below : List (ℕ × Policy))
    → IsBefore f.1 e.1
    → All (λ q. IsBefore q.1 f.1) below
    → All (λ q. IsBefore q.1 e.1) below
below-All f e [] h b = tt
below-All f e (q ∷ below) h b = (IsBefore-trans q.1 f.1 e.1 b.0 h, below-All f e below h b.1)

All-IsBefore :
    (f e : ℕ × Policy) (above below : List (ℕ × Policy))
    → IsBefore f.1 e.1
    → All (λ q. IsNotAfter q.1 f.1) above
    → All (λ q. IsBefore q.1 f.1) below
    → All (λ q. IsBefore q.1 e.1) (above ++ f ∷ below)
All-IsBefore f e [] below h a b = (h, below-All f e below h b)
All-IsBefore f e (q ∷ above) below h a b =
    (IsNotAfter-IsBefore q.1 f.1 e.1 a.0 h, All-IsBefore f e above below h a.1 b)

later_of-IsLast :
    (e : ℕ × Policy) (o : Option (ℕ × Policy)) (rest : List (ℕ × Policy))
    → IsLast o rest
    → IsLast (later_of e o) (e ∷ rest)
later_of-IsLast e none rest h = ([], [], ap (λ l. e ∷ l) h, tt, tt)
later_of-IsLast e (some f) rest (above, below, r, a, b) = elim (Bool-cases (is_before f.1 e.1)) [
  | inl h ↦ rw h (
    [],
    above ++ f ∷ below,
    ap (λ l. e ∷ l) r,
    tt,
    All-IsBefore f e above below (is_before-IsBefore f.1 e.1 h) a b,
  )
  | inr h ↦ rw h (e ∷ above, below, ap (λ l. e ∷ l) r, (is_before-IsNotAfter e.1 f.1 h, a), b)
]

last_sorted-IsLast : (rows : List (ℕ × Policy)) → IsLast (last_sorted rows) rows
last_sorted-IsLast [] = refl
last_sorted-IsLast (e ∷ rest) = later_of-IsLast e (last_sorted rest) rest (last_sorted-IsLast rest)

AreBefore : Policy → Option (ℕ × Policy) → Type 0
AreBefore p none = Unit
AreBefore p (some q) = IsBefore q.1 p

later_of-AreBefore :
    (p : Policy) (e : ℕ × Policy) (o : Option (ℕ × Policy))
    → IsBefore e.1 p
    → AreBefore p o
    → AreBefore p (later_of e o)
unfolding AreBefore
later_of-AreBefore p e none h k = h
later_of-AreBefore p e (some f) h k = elim (Bool-cases (is_before f.1 e.1)) [
  | inl t ↦ rw t h
  | inr t ↦ rw t k
]

last_sorted-AreBefore :
    (p : Policy) (rows : List (ℕ × Policy))
    → All (λ q. IsBefore q.1 p) rows
    → AreBefore p (last_sorted rows)
unfolding AreBefore
last_sorted-AreBefore p [] h = tt
last_sorted-AreBefore p (e ∷ rest) h =
    later_of-AreBefore p e (last_sorted rest) h.0 (last_sorted-AreBefore p rest h.1)

later_of-first :
    (e : ℕ × Policy) (o : Option (ℕ × Policy)) → AreBefore e.1 o → later_of e o ≡ some e
unfolding AreBefore
later_of-first e none h = refl
later_of-first e (some f) h = rw (IsBefore-is_before f.1 e.1 h) refl

later_of-second : (e f : ℕ × Policy) → IsNotAfter e.1 f.1 → later_of e (some f) ≡ some f
later_of-second e f h = rw (IsNotAfter-is_before e.1 f.1 h) refl

last_sorted-append :
    (e : ℕ × Policy) (above below : List (ℕ × Policy))
    → All (λ q. IsNotAfter q.1 e.1) above
    → All (λ q. IsBefore q.1 e.1) below
    → last_sorted (above ++ e ∷ below) ≡ some e
last_sorted-append e [] below a b =
    later_of-first e (last_sorted below) (last_sorted-AreBefore e.1 below b)
last_sorted-append e (q ∷ above) below a b =
    ap (later_of q) (last_sorted-append e above below a.1 b) ∙ later_of-second q e a.0

-- The latest policy is the one that the sorting finds.
pub IsLatest-last_sorted :
    (e : ℕ × Policy) (rows : List (ℕ × Policy)) → IsLatest e rows → last_sorted rows ≡ some e
IsLatest-last_sorted e rows (above, below, r, a, b) =
    ap last_sorted r ∙ last_sorted-append e above below a b

pub last_sorted-IsLatest :
    (e : ℕ × Policy) (rows : List (ℕ × Policy)) → last_sorted rows ≡ some e → IsLatest e rows
last_sorted-IsLatest e rows h = rw h at (last_sorted-IsLast rows)

find_there :
    (e : ℕ × Policy) (above below : List (ℕ × Policy))
    → is_some (find e.0 (above ++ e ∷ below)) ≡ true
unfolding find
find_there e [] below = ground arith
find_there e (q ∷ above) below = ground (arith, find_there e above below)

-- The latest policy is in the table.
pub IsLatest-find :
    (e : ℕ × Policy) (rows : List (ℕ × Policy)) → IsLatest e rows → is_some (find e.0 rows) ≡ true
IsLatest-find e rows (above, below, r, a, b) =
    ap (λ l. is_some (find e.0 l)) r ∙ find_there e above below
