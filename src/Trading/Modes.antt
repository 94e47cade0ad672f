-- ===== src/Trading/Modes.antt =====
-- Shadow, canary and live mode (agents/modes/shadow.py) and the circuit breaker of an agent
-- (agents/utils/circuit.py).
use ai_system.Common.{
  ℕ, ◌+◌, String, Bool, true, false, Option, none, some, List, [], ◌∷◌, ◌++◌, leb, length, keep_if,
  if◌then◌else◌, Dict, lookup, insert,
}
use ai_system.Common.Real.{Real, fmin, fmax, zero_f, quotient}
use ai_system.Trading.Market.{Side}

-- The texts of a mode that the code tells apart, and any other text
pub data Mode : Type 0 where
  shadow canary live : Mode
  other : String → Mode

pub record ShadowStats (F : Type 0) : Type 0 where
  pub drawdown_limit : F
  pub error_window_secs : ℕ
  pub max_errors : ℕ

pub record ShadowTrade (F : Type 0) : Type 0 where
  pub ts : F
  pub symbol : String
  pub side : Side
  pub qty : F
  pub price : F

pub record ModeState (F : Type 0) : Type 0 where
  pub mode : Mode
  pub canary_fraction : F
  pub stats : ShadowStats F
  pub shadow_trades : List (ShadowTrade F)
  pub errors : List F
  pub canary_drawdown : F

pub record CircuitBreaker (F : Type 0) : Type 0 where
  pub max_failures : ℕ
  pub window_secs : ℕ
  pub events : Dict (List F)
  pub tripped : Bool

abbrev or_none {ℓ} : {A : Type ℓ} → Option (List A) → List A
or_none none = []
or_none (some xs) = xs

abbrev pub total_events {ℓ} : {A : Type ℓ} → Dict (List A) → ℕ
total_events [] = 0
total_events ((k, ts) ∷ rest) = length ts + total_events rest

module _ {F : Type 0} (R : Real F) where
  open R use {lit, sub, mul, div, lt, le}

  -- `record_shadow`
  abbrev pub record_shadow : ShadowTrade F → ModeState F → ModeState F
  record_shadow t m = record m { shadow_trades = m.shadow_trades ++ t ∷ [] }

  -- `split`: the live part and the shadow part
  unfoldable pub split : F → ModeState F → F × F
  split qty m = elim m.mode [
    | shadow ↦ (zero_f R, qty)
    | canary ↦
        (let part = mul qty (fmax R (zero_f R) (fmin R (lit 1 0) m.canary_fraction)) in
          (part, sub qty part))
    | live ↦ (qty, zero_f R)
    | other t ↦ (qty, zero_f R)
  ]

  -- `record_error`, at the time `now`
  unfoldable pub record_error : F → ModeState F → ModeState F
  record_error now m = record m {
    errors = keep_if (λ t. le (sub now t) (lit m.stats.error_window_secs 0)) (m.errors ++ now ∷ []);
  }

  -- `should_halt`
  unfoldable pub should_halt : ModeState F → Bool
  should_halt m = elim m.mode [
    | canary ↦
        (if leb m.stats.max_errors (length m.errors)
          then true
          else le m.stats.drawdown_limit m.canary_drawdown)
    | shadow ↦ false
    | live ↦ false
    | other t ↦ false
  ]

  -- `update_drawdown`
  unfoldable pub update_drawdown : F → F → ModeState F → ModeState F
  update_drawdown start_equity current_equity m =
      let drawdown = sub (lit 1 0) (quotient R current_equity start_equity) in
      if le start_equity (zero_f R)
      then m
      else if lt m.canary_drawdown drawdown
      then record m { canary_drawdown = drawdown }
      else m

  -- `exports`: the counts of shadow trades and of errors, and the drawdown
  abbrev pub exports : ModeState F → ℕ × ℕ × F
  exports m = (length m.shadow_trades, length m.errors, m.canary_drawdown)

  -- `CircuitBreaker.record`, at the time `now`: only the times of its own key are aged.
  unfoldable pub record_failure : String → F → CircuitBreaker F → CircuitBreaker F
  record_failure key now b =
      let recent =
        keep_if (λ t. le (sub now t) (lit b.window_secs 0))
          (or_none (lookup key b.events) ++ now ∷ []) in
      let events = insert key recent b.events in
      record b {
        events = events;
        tripped = if leb b.max_failures (total_events events) then true else b.tripped;
      }

  -- `CircuitBreaker.reset`
  abbrev pub reset : CircuitBreaker F → CircuitBreaker F
  reset b = record b { events = []; tripped = false }
