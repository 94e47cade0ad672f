-- ===== src/Common/Real.antt =====
-- Floating-point numbers: what the program does with a `float`, as a record that the definitions
-- take. No law of arithmetic is assumed of it.
use Prim.Native.Nat.{ℕ, ◌+◌, ◌-◌, ◌*◌, ◌/◌, ◌^◌}
use mathlib.Core.Bool.{Bool, true}
use mathlib.Core.Option.{Option, none, some}
use ai_system.Common.Tests.{ltb, leb, eqb, if◌then◌else◌}

pub record Real (F : Type 0) : Type 0 where
  -- `lit n k` is the literal n / 10 ^ k.
  pub lit : ℕ → ℕ → F
  pub add : F → F → F
  pub sub : F → F → F
  pub mul : F → F → F
  -- none stands for `ZeroDivisionError`.
  pub div : F → F → Option F
  pub lt : F → F → Bool
  pub le : F → F → Bool
  pub is_zero : F → Bool
  pub abs : F → F
  -- neither NaN nor an infinity
  pub is_finite : F → Bool
  pub floor : F → F
  -- `round(x, n)`
  pub round : ℕ → F → F

module _ {F : Type 0} (R : Real F) where
  -- `min(a, b)` and `max(a, b)`, which keep `a` unless `b` is strictly better
  abbrev pub fmin : F → F → F
  fmin a b = if R.lt b a then b else a

  abbrev pub fmax : F → F → F
  fmax a b = if R.lt a b then b else a

  abbrev pub zero_f : F
  zero_f = R.lit 0 0

  -- `a / b` where the code has made sure that `b` is not zero
  abbrev pub quotient : F → F → F
  quotient a b = elim (R.div a b) [ none ↦ zero_f | some q ↦ q ]

-- Decimal numbers with four places, for the tests; a difference stops at 0.
abbrev pub decimal : Real ℕ
decimal = record {
  lit = λ n k. n * 10_000 / 10 ^ k;
  add = λ a b. a + b;
  sub = λ a b. a - b;
  mul = λ a b. a * b / 10_000;
  div = λ a b. if eqb b 0 then none else some (a * 10_000 / b);
  lt = ltb;
  le = leb;
  is_zero = λ a. eqb a 0;
  abs = λ a. a;
  is_finite = λ a. true;
  floor = λ a. a / 10_000 * 10_000;
  round = λ n a. a;
}
