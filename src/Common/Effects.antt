-- ===== src/Common/Effects.antt =====
-- Calls that read and write a state and may raise, as `do` blocks, and the rules that carry an
-- invariant of the state through them, whether they return or raise.
use Prim.Native.Nat.{ℕ, zero, suc}
use Prim.Native.String.{String}
use mathlib.Core.Path.{◌≡◌, refl}
use mathlib.Core.Bool.{Bool, true, false}
use mathlib.Core.List.{List, [], ◌∷◌}
use ai_system.Common.Tests.{if◌then◌else◌}

-- How a call ends; the text is the message of the exception.
pub data Ended (A : Type 0) : Type 0 where
  returned : A → Ended A
  raised : String → Ended A

abbrev pub Call : Type 0 → Type 0 → Type 0
Call S A = S → Ended A × S

module _ {S : Type 0} where
  unfoldable pub pure : {A : Type 0} → A → Call S A
  pure a s = (returned a, s)

  unfoldable pub raise : {A : Type 0} → String → Call S A
  raise e s = (raised e, s)

  abbrev pub continue : {A B : Type 0} → (A → Call S B) → Ended A × S → Ended B × S
  continue f (returned a, s) = f a s
  continue f (raised e, s) = (raised e, s)

  infixl 5 ◌>>=◌ ◌>>◌
  unfoldable pub ◌>>=◌ : {A B : Type 0} → Call S A → (A → Call S B) → Call S B
  ◌>>=◌ m f s = continue f (m s)

  unfoldable pub ◌>>◌ : {A B : Type 0} → Call S A → Call S B → Call S B
  unfolding ◌>>=◌
  m >> k = m >>= λ _. k

  abbrev pub handled : {A : Type 0} → (String → Call S A) → Ended A × S → Ended A × S
  handled h (returned a, s) = (returned a, s)
  handled h (raised e, s) = h e s

  -- `try: m except Exception as e: h(e)`
  unfoldable pub catch : {A : Type 0} → Call S A → (String → Call S A) → Call S A
  catch m h s = handled h (m s)

  abbrev pub reified : {A : Type 0} → Ended A × S → Ended (Ended A) × S
  reified (r, s) = (returned r, s)

  -- How a call ends, as a value
  unfoldable pub attempt : {A : Type 0} → Call S A → Call S (Ended A)
  attempt m s = reified (m s)

  -- `with_retry` of a call, with so many attempts; its sleeps change nothing.
  unfoldable pub retry : {A : Type 0} → ℕ → Call S A → Call S A
  retry zero m = raise "Retry loop exited unexpectedly"
  retry (suc zero) m = m
  retry (suc (suc n)) m = catch m (λ _. retry (suc n) m)

  unfoldable pub get : Call S S
  get s = (returned s, s)

  unfoldable pub modify : (S → S) → Call S (Unit {0})
  modify f s = (returned tt, f s)

  unfoldable pub when : Bool → Call S (Unit {0}) → Call S (Unit {0})
  when true m = m
  when false m = pure tt

  -- `for x in xs: body(x)`
  unfoldable pub for_each : {A : Type 0} → (A → Call S (Unit {0})) → List A → Call S (Unit {0})
  for_each body [] = pure tt
  for_each body (x ∷ xs) = body x >> for_each body xs

  -- However the call ends, the state has `P` if it had it before.
  pub record Keeps (P : S → Type 0) {A : Type 0} (m : Call S A) : Type 0 where
    pub keeps : (s : S) → P s → P (m s).1

  module _ {P : S → Type 0} where
    pub Keeps-pure : {A : Type 0} (a : A) → Keeps P (pure a)
    unfolding pure
    Keeps-pure a = record { keeps = λ s p. p }

    pub Keeps-raise : {A : Type 0} (e : String) → Keeps P (raise {A = A} e)
    unfolding raise
    Keeps-raise e = record { keeps = λ s p. p }

    pub Keeps-modify : (f : S → S) → ((s : S) → P s → P (f s)) → Keeps P (modify f)
    unfolding modify
    Keeps-modify f k = record { keeps = k }

    continue-keeps :
        {A B : Type 0} (f : A → Call S B)
        → ((a : A) → Keeps P (f a))
        → (r : Ended A × S) → P r.1
        → P (continue f r).1
    continue-keeps f k (returned a, s) p = (k a).keeps s p
    continue-keeps f k (raised e, s) p = p

    pub Keeps-bind :
        {A B : Type 0} (m : Call S A) (f : A → Call S B)
        → Keeps P m
        → ((a : A) → Keeps P (f a))
        → Keeps P (m >>= f)
    unfolding ◌>>=◌
    Keeps-bind m f h k = record { keeps = λ s p. continue-keeps f k (m s) (h.keeps s p) }

    handled-keeps :
        {A : Type 0} (h : String → Call S A)
        → ((e : String) → Keeps P (h e))
        → (r : Ended A × S) → P r.1
        → P (handled h r).1
    handled-keeps h k (returned a, s) p = p
    handled-keeps h k (raised e, s) p = (k e).keeps s p

    pub Keeps-then :
        {A B : Type 0} (m : Call S A) (k : Call S B) → Keeps P m → Keeps P k → Keeps P (m >> k)
    unfolding ◌>>◌
    Keeps-then m k h hk = Keeps-bind m (λ _. k) h (λ _. hk)

    -- What follows an exception is not called.
    pub Keeps-raised :
        (A : Type 0) {B : Type 0} (e : String) (k : Call S B) → Keeps P (raise {A = A} e >> k)
    unfolding ◌>>◌ ◌>>=◌ raise
    Keeps-raised A e k = record { keeps = λ s p. p }

    pub Keeps-catch :
        {A : Type 0} (m : Call S A) (h : String → Call S A)
        → Keeps P m
        → ((e : String) → Keeps P (h e))
        → Keeps P (catch m h)
    unfolding catch
    Keeps-catch m h km kh = record { keeps = λ s p. handled-keeps h kh (m s) (km.keeps s p) }

    pub Keeps-attempt : {A : Type 0} (m : Call S A) → Keeps P m → Keeps P (attempt m)
    unfolding attempt
    Keeps-attempt m h = record { keeps = λ s p. h.keeps s p }

    pub Keeps-retry : {A : Type 0} (n : ℕ) (m : Call S A) → Keeps P m → Keeps P (retry n m)
    unfolding retry
    Keeps-retry zero m h = Keeps-raise "Retry loop exited unexpectedly"
    Keeps-retry (suc zero) m h = h
    Keeps-retry (suc (suc n)) m h =
        Keeps-catch m (λ _. retry (suc n) m) h (λ _. Keeps-retry (suc n) m h)

    pub Keeps-get : Keeps P get
    unfolding get
    Keeps-get = record { keeps = λ s p. p }

    -- A call that reads the state, as a value, knows what the state has.
    pub Keeps-read :
        {A : Type 0} (k : S → Call S A) → ((s : S) → P s → Keeps P (k s)) → Keeps P (get >>= k)
    unfolding ◌>>=◌ get
    Keeps-read k h = record { keeps = λ s p. (h s p).keeps s p }

    pub Keeps-if :
        {A : Type 0} (b : Bool) (m k : Call S A)
        → (b ≡ true → Keeps P m)
        → (b ≡ false → Keeps P k)
        → Keeps P (if b then m else k)
    Keeps-if true m k hm hk = hm refl
    Keeps-if false m k hm hk = hk refl

    pub Keeps-when :
        (b : Bool) (m : Call S (Unit {0})) → (b ≡ true → Keeps P m) → Keeps P (when b m)
    unfolding when
    Keeps-when true m h = h refl
    Keeps-when false m h = Keeps-pure tt

    pub Keeps-for_each :
        {A : Type 0} (body : A → Call S (Unit {0})) (xs : List A)
        → ((a : A) → Keeps P (body a))
        → Keeps P (for_each body xs)
    unfolding for_each
    Keeps-for_each body [] h = Keeps-pure tt
    Keeps-for_each body (x ∷ xs) h =
        Keeps-then (body x) (for_each body xs) (h x) (Keeps-for_each body xs h)
