-- ===== src/Runtime/Retry.antt =====
-- `with_retry` (ai/utils/retry.py). The outcomes of the calls of `fn` are a function of their
-- number; a delay is a multiple of a fixed unit of time.
use ai_system.Common.{
  ℕ, zero, suc, ◌+◌, ◌*◌, ◌^◌, ◌<◌, ◌≡◌, refl, sym, ap, subst, String, Bool, true, false, List, [],
  ◌∷◌, arith,
}

-- A call returns, raises one of `exceptions`, or raises something else.
pub data Outcome {ℓ} (A : Type ℓ) : Type ℓ where
  returned : A → Outcome A
  caught : String → Outcome A
  uncaught : String → Outcome A

pub data Retried {ℓ} (A : Type ℓ) : Type ℓ where
  done : A → Retried A
  raised : String → Retried A
  exited : Retried A

module _ {A : Type 0} (base_delay : ℕ) (fn : ℕ → Outcome A) where
  abbrev delayed : ℕ → Retried A × List ℕ → Retried A × List ℕ
  delayed d (r, ds) = (r, d ∷ ds)

  abbrev tried : Outcome A → Bool → ℕ → Retried A × List ℕ → Retried A × List ℕ
  tried (returned a) last attempt rest = (done a, [])
  tried (uncaught e) last attempt rest = (raised e, [])
  tried (caught e) true attempt rest = (raised e, [])
  tried (caught e) false attempt rest = delayed (base_delay * 2 ^ attempt) rest

  abbrev is_zero : ℕ → Bool
  is_zero zero = true
  is_zero (suc n) = false

  -- The loop from `attempt` on, with that many attempts left; the delays are those of the sleeps.
  unfoldable pub attempts_from : ℕ → ℕ → Retried A × List ℕ
  attempts_from zero attempt = (exited, [])
  attempts_from (suc left) attempt =
      tried (fn attempt) (is_zero left) attempt (attempts_from left (suc attempt))

  -- `with_retry`
  abbrev pub with_retry : ℕ → Retried A × List ℕ
  with_retry attempts = attempts_from attempts 0

  abbrev pub total : List ℕ → ℕ
  total [] = 0
  total (d ∷ ds) = d + total ds

  -- The calls before the k-th raise an exception that is retried.
  abbrev pub AreCaught : ℕ → ℕ → Type 0
  AreCaught attempt zero = Unit
  AreCaught attempt (suc k) = ((e : String) × (fn attempt ≡ caught e)) × AreCaught (suc attempt) k

  doubled : (n : ℕ) → base_delay * 2 ^ suc n ≡ base_delay * 2 ^ n + base_delay * 2 ^ n
  doubled n = grind arith

  retries_from :
      (k left attempt : ℕ) (a : A)
      → k < left
      → AreCaught attempt k
      → fn (attempt + k) ≡ returned a
      → ((attempts_from left attempt).0 ≡ done a)
        × (total (attempts_from left attempt).1 + base_delay * 2 ^ attempt
            ≡ base_delay * 2 ^ (attempt + k))
  unfolding attempts_from
  retries_from k zero attempt a h c r = absurd (omega (arith, h))
  retries_from zero (suc left) attempt a h c r =
      rw (subst (λ n. fn n ≡ returned a) zero_right r)
        (refl, omega (arith, ap (λ n. base_delay * 2 ^ n) zero_right))
    where
      zero_right : attempt + 0 ≡ attempt
      zero_right = omega arith
  retries_from (suc k) (suc zero) attempt a h c r = absurd (omega (arith, h))
  retries_from (suc k) (suc (suc left)) attempt a h c r = again (
      retries_from k (suc left) (suc attempt) a (omega (arith, h)) c.1
        (subst (λ n. fn n ≡ returned a) shift r))
    where
      shift : attempt + suc k ≡ suc attempt + k
      shift = omega arith

      again :
          ((attempts_from (suc left) (suc attempt)).0 ≡ done a)
            × (total (attempts_from (suc left) (suc attempt)).1 + base_delay * 2 ^ suc attempt
                ≡ base_delay * 2 ^ (suc attempt + k))
          → ((attempts_from (suc (suc left)) attempt).0 ≡ done a)
            × (total (attempts_from (suc (suc left)) attempt).1 + base_delay * 2 ^ attempt
                ≡ base_delay * 2 ^ (attempt + suc k))
      again ih =
          rw c.0.1 (ih.0, omega (arith, ih.1, doubled attempt, ap (λ n. base_delay * 2 ^ n) shift))

  -- If the calls before the k-th raise retried exceptions, and the k-th, within the attempts, returns
  -- a value, then that value is returned, after sleeps that add up to `2 ^ k - 1` base delays.
  pub with_retry_returns :
      (k attempts : ℕ) (a : A)
      → k < attempts
      → AreCaught 0 k
      → fn k ≡ returned a
      → ((with_retry attempts).0 ≡ done a)
        × (total (with_retry attempts).1 + base_delay ≡ base_delay * 2 ^ k)
  with_retry_returns k attempts a h c r =
      from_zero (retries_from k attempts 0 a h c (subst (λ n. fn n ≡ returned a) (sym zero_left) r))
    where
      zero_left : 0 + k ≡ k
      zero_left = omega arith

      from_zero :
          ((with_retry attempts).0 ≡ done a)
            × (total (with_retry attempts).1 + base_delay * 2 ^ 0 ≡ base_delay * 2 ^ (0 + k))
          → ((with_retry attempts).0 ≡ done a)
            × (total (with_retry attempts).1 + base_delay ≡ base_delay * 2 ^ k)
      from_zero ih = (ih.0, omega (arith, ih.1, ap (λ n. base_delay * 2 ^ n) zero_left))
