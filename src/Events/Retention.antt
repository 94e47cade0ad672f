-- ===== src/Events/Retention.antt =====
-- What the compaction of the event log keeps.
use ai_system.Common.{
  ℕ, ◌+◌, ◌*◌, ◌≡◌, refl, Bool, false, Option, none, some, List, [], ◌∷◌, not, ltb, min, max,
  length, map, keep_if, All, arith, Bool-cases, suc, subst, inl, inr, ap, sym, ◌∙◌,
}
use ai_system.Common.Table.{Table, find, HasUniqueIds, IsPart, IsPart-refl}
use native.Mathlib.Decide.{ℕ_discrete}
use ai_system.Events.{AgentEvent, has_id, clamped_days, is_old, old_ids, compact, compact_events}

keep_if-congr {ℓ} :
    {A : Type ℓ} (p q : A → Bool) (xs : List A)
    → All (λ x. p x ≡ q x) xs
    → keep_if p xs ≡ keep_if q xs
keep_if-congr p q [] h = refl
keep_if-congr p q (x ∷ xs) h = ground (arith, keep_if-congr p q xs h.1)

keep_if-complement {ℓ} :
    {A : Type ℓ} (p : A → Bool) (xs : List A)
    → length (keep_if p xs) + length (keep_if (λ x. not (p x)) xs) ≡ length xs
keep_if-complement p [] = omega arith
keep_if-complement p (x ∷ xs) = elim (Bool-cases (p x)) [
  | inl e ↦ rw e (omega (arith, keep_if-complement p xs))
  | inr e ↦ rw e (omega (arith, keep_if-complement p xs))
]

length-map {ℓ κ} :
    {A : Type ℓ} {B : Type κ} (f : A → B) (xs : List A) → length (map f xs) ≡ length xs
length-map f [] = refl
length-map f (x ∷ xs) = ap suc (length-map f xs)

module _ {Row : Type 0} (p : ℕ × Row → Bool) where
  abbrev found_old : ℕ → Option Row → Bool
  found_old k none = false
  found_old k (some r) = p (k, r)

  has_id-kept :
      (k : ℕ) (rows : List (ℕ × Row))
      → HasUniqueIds rows
      → has_id k (map (λ e. e.0) (keep_if p rows)) ≡ found_old k (find k rows)
  unfolding find
  has_id-kept k [] h = refl
  has_id-kept k ((j, r) ∷ rows) h = elim (ℕ_discrete j k) [
    | yes same ↦
        subst
          (λ i.
            has_id i (map (λ e. e.0) (keep_if p ((j, r) ∷ rows)))
            ≡ found_old i (find i ((j, r) ∷ rows)))
          same (here (has_id-kept j rows h.1))
    | no other ↦ elim (Bool-cases (p (j, r))) [
      | inl e ↦ rw e (ground (arith, has_id-kept k rows h.1))
      | inr e ↦ rw e (ground (arith, has_id-kept k rows h.1))
    ]
  ]
    where
      here :
          has_id j (map (λ e. e.0) (keep_if p rows)) ≡ found_old j (find j rows)
          → has_id j (map (λ e. e.0) (keep_if p ((j, r) ∷ rows)))
            ≡ found_old j (find j ((j, r) ∷ rows))
      here ih = elim (Bool-cases (p (j, r))) [
        | inl e ↦ rw e (ground (arith, e))
        | inr e ↦ rw e (ground (arith, e, ih, h.0))
      ]

  has_id-kept-All :
      (part rows : List (ℕ × Row))
      → HasUniqueIds rows
      → IsPart part rows
      → All (λ e. not (has_id e.0 (map (λ x. x.0) (keep_if p rows))) ≡ not (p e)) part
  has_id-kept-All [] rows u h = tt
  has_id-kept-All (e ∷ part) rows u h =
      (ground (arith, has_id-kept e.0 rows u, h.0), has_id-kept-All part rows u h.1)

  -- Deleting by the keys of the rows that satisfy `p` is deleting those rows.
  delete_by_id :
      (rows : List (ℕ × Row))
      → HasUniqueIds rows
      → keep_if (λ e. not (has_id e.0 (map (λ x. x.0) (keep_if p rows)))) rows
        ≡ keep_if (λ e. not (p e)) rows
  delete_by_id rows u = keep_if-congr _ _ rows (has_id-kept-All rows rows u (IsPart-refl rows u))

keep_if-none {ℓ} :
    {A : Type ℓ} (p : A → Bool) (xs : List A) → keep_if p xs ≡ [] → keep_if (λ x. not (p x)) xs ≡ xs
keep_if-none p [] h = refl
keep_if-none p (x ∷ xs) h = elim (Bool-cases (p x)) [
  | inl e ↦ absurd (ground (arith, e))
  | inr e ↦ rw e (ap (λ ys. x ∷ ys) (keep_if-none p xs (rw e at h)))
]

map-nil {ℓ κ} : {A : Type ℓ} {B : Type κ} (f : A → B) (xs : List A) → map f xs ≡ [] → xs ≡ []
map-nil f [] h = refl
map-nil f (x ∷ xs) h = absurd (ground arith)

module _ {P : Type 0} (E : Table (AgentEvent P)) where
  compact_rows :
      (days now : ℕ) (s : E.State) (ids : List ℕ)
      → old_ids E days now s ≡ ids
      → (E.rows (compact E ids s).1 ≡ keep_if (λ e. not (is_old E days now e)) (E.rows s))
        × ((compact E ids s).0 ≡ length (keep_if (is_old E days now) (E.rows s)))
  compact_rows days now s [] h =
      let none_old = map-nil (λ e. e.0) (keep_if (is_old E days now) (E.rows s)) h in
      (sym (keep_if-none (is_old E days now) (E.rows s) none_old), rw none_old)
  compact_rows days now s (k ∷ ks) h = (
    E.rows-delete (λ e. has_id e.0 (k ∷ ks)) s
        ∙ subst
            (λ ids.
              keep_if (λ e. not (has_id e.0 ids)) (E.rows s)
              ≡ keep_if (λ e. not (is_old E days now e)) (E.rows s))
            h (delete_by_id (is_old E days now) (E.rows s) (E.ids_unique s)),
    ap length (sym h) ∙ length-map (λ e. e.0) (keep_if (is_old E days now) (E.rows s)),
  )

  -- The compaction keeps exactly the events that are at most `keep_days` days old, where the number
  -- of days is brought into the range from 1 to 3650 first, and reports how many it removed.
  pub compact_events_keeps :
      (keep_days now : ℕ) (s : E.State)
      → let (removed, s') = compact_events E keep_days now s in
        (E.rows s'
          ≡ keep_if (λ e. not (ltb (e.1.ts + max 1 (min keep_days 3650) * 86400) now)) (E.rows s))
        × (removed + length (E.rows s') ≡ length (E.rows s))
  unfolding compact_events
  compact_events_keeps keep_days now s =
      let days = clamped_days E keep_days in
      let (kept, counted) = compact_rows days now s (old_ids E days now s) refl in
      (kept, rw (counted, kept) (keep_if-complement (is_old E days now) (E.rows s)))
