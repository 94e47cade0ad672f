-- ===== src/Guards/Breaker/Burst.antt =====
-- How many errors open a new breaker.
use ai_system.Common.{
  ℕ, ◌+◌, ◌≤◌, ◌<◌, ◌≡◌, refl, String, true, false, Option, none, some, List, [], ◌∷◌, ◌++◌, arith,
  leb, is_some, ◌∙◌, ap, length, length-append, Bool-cases, inl, inr,
}
use mathlib.Core.List.{append_assoc}
use ai_system.Guards.Breaker.{CircuitBreaker, new, record_error}
use ai_system.Guards.Breaker.Window.{IsOrdered, IsBelow, pop_old-eq-keep_if, keep_if-all}

-- `record_error` for each time of a list.
abbrev pub fail_at : String → List ℕ → CircuitBreaker → CircuitBreaker
fail_at reason [] b = b
fail_at reason (t ∷ ts) b = fail_at reason ts (record_error reason t b)

fail_at_open :
    (reason : String) (ts : List ℕ) (b : CircuitBreaker)
    → is_some b.opened_at ≡ true
    → is_some (fail_at reason ts b).opened_at ≡ true
fail_at_open reason [] b h = h
fail_at_open reason (t ∷ ts) b h =
    fail_at_open reason ts (record_error reason t b) (unfold record_error in ground arith)

IsOrdered-left : (lo : ℕ) (xs ys : List ℕ) → IsOrdered lo (xs ++ ys) → IsOrdered lo xs
IsOrdered-left lo [] ys h = tt
IsOrdered-left lo (x ∷ xs) ys h = (h.0, IsOrdered-left x xs ys h.1)

burst_step :
    (reason : String) (lo t : ℕ) (b : CircuitBreaker)
    → b.opened_at ≡ none
    → IsOrdered lo b.errors
    → t ≤ lo + b.window_seconds
    → let b' = record_error reason t b in
      (is_some b'.opened_at ≡ leb b.threshold (length b.errors + 1))
      × (b'.errors ≡ b.errors ++ t ∷ [])
      × (b'.threshold ≡ b.threshold)
      × (b'.window_seconds ≡ b.window_seconds)
unfolding record_error
burst_step reason lo t b closed o near = ground (
  arith,
  pop_old-eq-keep_if b.window_seconds t lo b.errors o,
  keep_if-all b.window_seconds t lo b.errors o near,
  length-append b.errors (t ∷ []),
)

none_of-is_some {ℓ} : {A : Type ℓ} (o : Option A) → is_some o ≡ false → o ≡ none
none_of-is_some none h = refl
none_of-is_some (some a) h = cc

burst :
    (reason : String) (lo threshold window : ℕ) (ts es : List ℕ) (b : CircuitBreaker)
    → b.threshold ≡ threshold
    → b.window_seconds ≡ window
    → b.errors ≡ es
    → b.opened_at ≡ none
    → IsOrdered lo (es ++ ts)
    → IsBelow (lo + window) ts
    → length es < threshold
    → is_some (fail_at reason ts b).opened_at ≡ leb threshold (length es + length ts)
burst reason lo threshold window [] es b et ew ee closed o near room = ground arith
burst reason lo threshold window (t ∷ ts) es b et ew ee closed o near room =
    let (opens, errs, th, wi) =
      burst_step reason lo t b closed (rw ee (IsOrdered-left lo es (t ∷ ts) o)) (rw ew near.0) in
    let grown : length (es ++ t ∷ []) ≡ length es + 1 = length-append es (t ∷ []) in
    elim (Bool-cases (leb threshold (length es + 1))) [
      | inl trips ↦
          rw (fail_at_open reason ts (record_error reason t b) (ground arith))
            (ground (arith, trips))
      | inr stays ↦
          burst reason lo threshold window ts (es ++ t ∷ []) (record_error reason t b) (th ∙ et)
            (wi ∙ ew) (errs ∙ ap (λ xs. xs ++ t ∷ []) ee)
            (none_of-is_some _ (ground (arith, stays))) (rw append_assoc o) near.1 (ground arith)
          ∙ ap (leb threshold) (omega (arith, grown))
    ]

-- Errors in the order of time, all within `window` of a time `lo` that none precedes, open a new
-- breaker with a positive threshold exactly when there are at least `threshold` of them.
pub fail_at-opens :
    (reason : String) (lo threshold window cooldown : ℕ) (ts : List ℕ)
    → 0 < threshold
    → IsOrdered lo ts
    → IsBelow (lo + window) ts
    → is_some (fail_at reason ts (new threshold window cooldown)).opened_at
      ≡ leb threshold (length ts)
fail_at-opens reason lo threshold window cooldown ts pos o near =
    burst reason lo threshold window ts [] (new threshold window cooldown) refl refl refl refl o
      near pos
    ∙ ap (leb threshold) (omega arith)
