-- ===== src/Trading/Router/Counts.antt =====
-- How often a venue is named in a list of venues or of sent orders (adapters/exchange/router.py).
use ai_system.Common.{
  eq_iff, ap, subst, sym, Bool-cases, inl, inr, ◌++◌, ◌==◌, arith, ℕ, ◌+◌, ◌≡◌, refl, String, true,
  false, List, [], ◌∷◌, if◌then◌else◌,
}
use ai_system.Trading.Router.Execution.{remove_first}
use ai_system.Trading.Router.Quoted.{is_in}

-- How often a name is in a list
abbrev pub one : String → String → ℕ
one v name = if name == v then 1 else 0

abbrev pub times : String → List String → ℕ
times v [] = 0
times v (name ∷ rest) = one v name + times v rest

abbrev pub AreDistinct : List String → Type 0
AreDistinct [] = Unit
AreDistinct (name ∷ rest) = (is_in name rest ≡ false) × AreDistinct rest

-- How many of the orders went to a venue
abbrev pub sent_to {ℓ} : {O : Type ℓ} → String → List (String × O) → ℕ
sent_to v [] = 0
sent_to v ((name, o) ∷ rest) = one v name + sent_to v rest

pub sent_to-append :
    {O : Type 0} (v name : String) (o : O) (l : List (String × O))
    → sent_to v (l ++ (name, o) ∷ []) ≡ one v name + sent_to v l
sent_to-append v name o [] = refl
sent_to-append v name o ((n, p) ∷ rest) = omega (arith, sent_to-append v name o rest)

pub times-remove_first :
    (v x : String) (xs : List String)
    → is_in x xs ≡ true
    → one v x + times v (remove_first x xs) ≡ times v xs
times-remove_first v x [] h = absurd (ground (arith, h))
times-remove_first v x (y ∷ ys) h = elim (Bool-cases (x == y)) [
  | inl e ↦ rw e (ap (λ z. one v z + times v ys) ((eq_iff x y).0 e))
  | inr n ↦
      (let rest : is_in x ys ≡ true = rw n at h in
        rw n (omega (arith, times-remove_first v x ys rest)))
]

times-absent : (v : String) (xs : List String) → is_in v xs ≡ false → times v xs ≡ 0
times-absent v [] h = refl
times-absent v (y ∷ ys) h = ground (arith, times-absent v ys, eq_iff v y, eq_iff y v)

pub times-AreDistinct :
    (v : String) (xs : List String) → AreDistinct xs → times v xs ≡ (if is_in v xs then 1 else 0)
times-AreDistinct v [] d = refl
times-AreDistinct v (y ∷ ys) d = elim (Bool-cases (v == y)) [
  | inl e ↦
      (let same = (eq_iff v y).0 e in
        rw e (
          ground (
            arith,
            times-absent v ys (subst (λ z. is_in z ys ≡ false) (sym same) d.0),
            eq_iff y v,
            sym same,
          )))
  | inr n ↦ rw n (ground (arith, times-AreDistinct v ys d.1, eq_iff y v, eq_iff v y))
]
