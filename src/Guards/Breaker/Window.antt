-- ===== src/Guards/Breaker/Window.antt =====
-- The error window of the breaker: on times in order, popping from the left is filtering.
use ai_system.Common.{ℕ, ◌+◌, ◌≤◌, ◌≡◌, refl, Bool, List, [], ◌∷◌, ◌++◌, arith, leb, All, keep_if}
use ai_system.Guards.Breaker.{pop_old}

-- Times in order, each at least `lo`.
abbrev pub IsOrdered : ℕ → List ℕ → Type 0
IsOrdered lo [] = Unit
IsOrdered lo (t ∷ ts) = (lo ≤ t) × IsOrdered t ts

-- Every time of a list is at most `hi`.
abbrev pub IsBelow : ℕ → List ℕ → Type 0
IsBelow hi = All (λ t. t ≤ hi)

-- `now - t <= window`
abbrev pub is_recent : ℕ → ℕ → ℕ → Bool
is_recent window now t = leb now (t + window)

pub keep_if-all :
    (window now lo : ℕ) (ts : List ℕ)
    → IsOrdered lo ts
    → now ≤ lo + window
    → keep_if (is_recent window now) ts ≡ ts
keep_if-all window now lo [] o h = refl
keep_if-all window now lo (t ∷ ts) o h = ground (arith, keep_if-all window now t ts o.1)

pub pop_old-eq-keep_if :
    (window now lo : ℕ) (ts : List ℕ)
    → IsOrdered lo ts
    → pop_old window now ts ≡ keep_if (is_recent window now) ts
unfolding pop_old
pop_old-eq-keep_if window now lo [] o = refl
pop_old-eq-keep_if window now lo (t ∷ ts) o =
    ground (arith, pop_old-eq-keep_if window now t ts o.1, keep_if-all window now t ts o.1)

IsOrdered-mono : (lo lo' : ℕ) (ts : List ℕ) → lo ≤ lo' → IsOrdered lo' ts → IsOrdered lo ts
IsOrdered-mono lo lo' [] h o = tt
IsOrdered-mono lo lo' (t ∷ ts) h o = (omega arith, o.1)

pub IsOrdered-pop_old :
    (window now lo : ℕ) (ts : List ℕ) → IsOrdered lo ts → IsOrdered lo (pop_old window now ts)
unfolding pop_old
IsOrdered-pop_old window now lo [] o = tt
IsOrdered-pop_old window now lo (t ∷ ts) o =
    ground
      (arith, IsOrdered-mono lo t (pop_old window now ts), IsOrdered-pop_old window now t ts o.1)

pub IsBelow-pop_old :
    (window now hi : ℕ) (ts : List ℕ) → IsBelow hi ts → IsBelow hi (pop_old window now ts)
unfolding pop_old
IsBelow-pop_old window now hi [] o = tt
IsBelow-pop_old window now hi (t ∷ ts) o = ground (arith, IsBelow-pop_old window now hi ts o.1)

pub IsBelow-mono : (lo hi : ℕ) (ts : List ℕ) → lo ≤ hi → IsBelow lo ts → IsBelow hi ts
IsBelow-mono lo hi [] h o = tt
IsBelow-mono lo hi (t ∷ ts) h o = (omega arith, IsBelow-mono lo hi ts h o.1)

pub IsOrdered-append :
    (lo now : ℕ) (ts : List ℕ)
    → IsOrdered lo ts
    → IsBelow now ts
    → lo ≤ now
    → IsOrdered lo (ts ++ now ∷ [])
IsOrdered-append lo now [] o b h = (h, tt)
IsOrdered-append lo now (t ∷ ts) o b h = (o.0, IsOrdered-append t now ts o.1 b.1 b.0)
