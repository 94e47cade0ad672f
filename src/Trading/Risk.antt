-- ===== src/Trading/Risk.antt =====
-- Risk limits (risk/rules.py, risk/cooldowns.py, risk/portfolio_limits.py).
use ai_system.Common.{
  ℕ, String, Bool, true, false, not, ◌||◌, Option, none, some, List, [], ◌∷◌, length, if◌then◌else◌,
  Dict, lookup, insert, remove,
}
use ai_system.Common.Real.{Real, fmin, fmax, zero_f, quotient}
use ai_system.Trading.Market.{Side, buy, sell}

pub record RiskCaps (F : Type 0) : Type 0 where
  pub max_notional_per_trade : F
  pub max_positions_per_symbol : ℕ
  pub max_total_exposure_usdt : F
  pub max_drawdown_pct_session : F
  pub per_symbol_exposure_usdt : F

-- `_last`: the time of the last order of a symbol, for each side
pub record CooldownState (F : Type 0) : Type 0 where
  pub last_buys : Dict F
  pub last_sells : Dict F

pub record TrailingStopTracker (F : Type 0) : Type 0 where
  pub percent : F
  pub highs : Dict F

-- What `get` gives of a missing key
abbrev pub or_default {ℓ} : {A : Type ℓ} → A → Option A → A
or_default d none = d
or_default d (some a) = a

module _ {F : Type 0} (R : Real F) where
  open R use {lit, add, sub, mul, lt, le, is_zero}

  -- `check_pre_trade`: whether the trade may go on, and the reason
  unfoldable pub check_pre_trade : String → F → F → RiskCaps F → Dict F → F → Bool × String
  check_pre_trade symbol price qty caps exposures total_exposure =
      let notional = mul price qty in
      if le notional (zero_f R)
      then (false, "notional<=0")
      else if lt caps.max_notional_per_trade notional
      then (false, "cap:notional")
      else if lt caps.max_total_exposure_usdt (add total_exposure notional)
      then (false, "cap:total_exposure")
      else if lt caps.per_symbol_exposure_usdt
          (add (or_default (zero_f R) (lookup symbol exposures)) notional)
      then (false, "cap:per_symbol_exposure")
      else (true, "ok")

  -- `now - last < cd.duplicate_secs`
  abbrev pub is_soon : F → ℕ → Option F → Bool
  is_soon now duplicate_secs last = lt (sub now (or_default (zero_f R) last)) (lit duplicate_secs 0)

  -- `too_soon`, at the time `now`
  unfoldable pub too_soon : String → Side → ℕ → F → CooldownState F → Bool × CooldownState F
  too_soon symbol buy duplicate_secs now s =
      if is_soon now duplicate_secs (lookup symbol s.last_buys)
      then (true, s)
      else (false, record s { last_buys = insert symbol now s.last_buys })
  too_soon symbol sell duplicate_secs now s =
      if is_soon now duplicate_secs (lookup symbol s.last_sells)
      then (true, s)
      else (false, record s { last_sells = insert symbol now s.last_sells })

  -- `_kelly_multiplier`
  unfoldable pub kelly_multiplier : F → F
  kelly_multiplier volatility =
      if le volatility (lit 1 9)
      then lit 1 0
      else fmax R (lit 1 1)
          (fmin R (lit 1 0) (quotient R (lit 1 0) (add (lit 1 0) (mul volatility (lit 5 0)))))

  -- `dynamic_notional_cap`
  unfoldable pub dynamic_notional_cap : F → RiskCaps F → F → F
  unfolding kelly_multiplier
  dynamic_notional_cap volatility caps per_symbol_target =
      mul (fmin R per_symbol_target caps.max_notional_per_trade) (kelly_multiplier volatility)

  -- The loop of `risk_parity_targets` over the symbols
  abbrev pub weights : Dict F → List String → Dict F → Dict F
  weights volatilities [] d = d
  weights volatilities (symbol ∷ rest) d =
      let vol = fmax R (or_default (lit 1 1) (lookup symbol volatilities)) (lit 1 2) in
      weights volatilities rest (insert symbol (quotient R (lit 1 0) vol) d)

  abbrev pub sum_from : F → Dict F → F
  sum_from acc [] = acc
  sum_from acc ((k, v) ∷ rest) = sum_from (add acc v) rest

  abbrev pub scaled : F → F → Dict F → Dict F
  scaled cap total [] = []
  scaled cap total ((k, v) ∷ rest) = (k, mul cap (quotient R v total)) ∷ scaled cap total rest

  -- `risk_parity_targets`
  unfoldable pub risk_parity_targets : List String → Dict F → RiskCaps F → Dict F
  risk_parity_targets symbols volatilities caps =
      let ws = weights volatilities symbols [] in
      let sum = sum_from (zero_f R) ws in
      let total_cap =
        fmin R caps.max_total_exposure_usdt
          (mul caps.max_notional_per_trade (lit (length symbols) 0)) in
      scaled total_cap (if is_zero sum then lit 1 0 else sum) ws

  abbrev pub with_high : String → F → F → TrailingStopTracker F → Bool × TrailingStopTracker F
  with_high symbol price high t =
      let moved = record t { highs = insert symbol price t.highs } in
      if lt high price
      then (false, moved)
      else if le price (mul high (sub (lit 1 0) t.percent))
      then (true, moved)
      else (false, t)

  -- `TrailingStopTracker.update`
  unfoldable pub trail : String → F → Bool → TrailingStopTracker F → Bool × TrailingStopTracker F
  trail symbol price has_position t =
      if not has_position || le t.percent (zero_f R)
      then (false, record t { highs = remove symbol t.highs })
      else with_high symbol price (or_default price (lookup symbol t.highs)) t
