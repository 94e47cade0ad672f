-- ===== src/Trading/Agent/Account.antt =====
-- What the agent of agents/crypto_agent.py reads of its state: positions, cash, exposures, equity and
-- status; and its readings of the clock.
use ai_system.Common.{
  suc, String, Bool, true, false, not, ◌&&◌, Option, none, some, List, [], ◌∷◌, if◌then◌else◌, Dict,
  lookup, insert,
}
use ai_system.Common.Real.{Real, zero_f, quotient}
use ai_system.Common.Effects.{returned, ◌>>=◌, modify}
use ai_system.Trading.Market.{base}
use ai_system.Trading.Risk.{or_default}
use ai_system.Trading.Portfolio.{Portfolio, Position}
use ai_system.Trading.Modes.{record_failure}
use ai_system.Trading.Router.{Balance}
use ai_system.Trading.Agent.{Config, Host, CryptoAgent, Act}

module _ {F : Type 0} (R : Real F) (config : Config F) where
  open R use {add, sub, mul, lt, le, is_zero}

  -- `self.paper_mode and self.portfolio`
  abbrev pub paper_portfolio : CryptoAgent F → Option (Portfolio F)
  paper_portfolio s = if config.paper_mode then s.portfolio else none

  abbrev pub totals : Option (Balance F) → Option (Dict F)
  totals none = none
  totals (some b) = b.total

  abbrev pub frees : Option (Balance F) → Option (Dict F)
  frees none = none
  frees (some b) = b.free

  abbrev pub amount : String → Option (Dict F) → F
  amount key none = zero_f R
  amount key (some d) = or_default (zero_f R) (lookup key d)

  abbrev pub qty_of : Option (Position F) → F
  qty_of none = zero_f R
  qty_of (some p) = p.qty

  abbrev pub position_in : Option (Portfolio F) → String → CryptoAgent F → F
  position_in none symbol s = amount (base symbol) (totals s.last_balance)
  position_in (some p) symbol s = qty_of (lookup symbol p.positions)

  -- `_position_qty`
  unfoldable pub position_qty : String → CryptoAgent F → F
  position_qty symbol s = position_in (paper_portfolio s) symbol s

  abbrev pub cash_in : Option (Portfolio F) → CryptoAgent F → F
  cash_in none s = amount "USDT" (frees s.last_balance)
  cash_in (some p) s = p.cash_usdt

  -- `_current_cash`
  unfoldable pub current_cash : CryptoAgent F → F
  current_cash s = cash_in (paper_portfolio s) s

  -- `_available_cash`
  unfoldable pub available_cash : CryptoAgent F → F
  unfolding current_cash
  available_cash s = mul (current_cash s) config.safety_cash_pct

  abbrev pub qtys : Dict (Position F) → Dict F
  qtys [] = []
  qtys ((k, p) ∷ rest) = (k, p.qty) ∷ qtys rest

  abbrev pub amounts : List String → Dict F → Dict F → Dict F
  amounts [] total d = d
  amounts (symbol ∷ rest) total d =
      amounts rest total (insert symbol (or_default (zero_f R) (lookup (base symbol) total)) d)

  abbrev pub amounts_of : Option (Dict F) → Dict F
  amounts_of none = []
  amounts_of (some total) = amounts config.allowed_pairs total []

  abbrev pub qty_map_in : Option (Portfolio F) → CryptoAgent F → Dict F
  qty_map_in none s = amounts_of (totals s.last_balance)
  qty_map_in (some p) s = qtys p.positions

  -- `_positions_qty_map`
  unfoldable pub positions_qty_map : CryptoAgent F → Dict F
  positions_qty_map s = qty_map_in (paper_portfolio s) s

  abbrev pub with_exposure : String → F → Option F → Dict F × F → Dict F × F
  with_exposure symbol qty none (exposures, total) = (exposures, total)
  with_exposure symbol qty (some price) (exposures, total) =
      (insert symbol (mul price qty) exposures, add total (mul price qty))

  -- The loop of `_exposures_from_cache`
  abbrev pub exposures_of : Dict F → Dict F → Dict F × F → Dict F × F
  exposures_of prices [] acc = acc
  exposures_of prices ((symbol, qty) ∷ rest) acc =
      exposures_of prices rest (with_exposure symbol qty (lookup symbol prices) acc)

  -- `_exposures_from_cache`
  unfoldable pub exposures_from_cache : CryptoAgent F → Dict F × F
  unfolding positions_qty_map
  exposures_from_cache s = exposures_of s.price_cache (positions_qty_map s) ([], zero_f R)

  abbrev pub is_empty : {V : Type 0} → Dict V → Bool
  is_empty [] = true
  is_empty (e ∷ rest) = false

  abbrev pub portfolio_cash : Option (Portfolio F) → Option F
  portfolio_cash none = none
  portfolio_cash (some p) = some p.cash_usdt

  -- `_compute_equity`
  unfoldable pub compute_equity : CryptoAgent F → Option F
  unfolding exposures_from_cache positions_qty_map current_cash
  compute_equity s =
      let (exposures, total) = exposures_from_cache s in
      if is_empty exposures && not (is_empty (positions_qty_map s)) && config.paper_mode
      then portfolio_cash s.portfolio
      else some (add (current_cash s) total)

  abbrev pub drawdown_from : Option F → Option F → Option F
  drawdown_from none equity = none
  drawdown_from (some high) none = none
  drawdown_from (some high) (some equity) =
      if is_zero high then none else some (sub (R.lit 1 0) (quotient R equity high))

  -- `_current_drawdown`
  abbrev pub current_drawdown : CryptoAgent F → Option F
  current_drawdown s = drawdown_from s.session_high_equity (compute_equity s)

  -- A reading of `time.time()`
  abbrev pub read_wall : Host F → Act F F
  read_wall host s = (returned (host.wall s.readings), record s { readings = suc s.readings })

  -- `self.circuit_breaker.record(key)`
  unfoldable pub record_circuit : Host F → String → Act F (Unit {0})
  record_circuit host key = do
    now ← read_wall host
    modify (λ s. record s { circuit_breaker = record_failure R key now s.circuit_breaker })

  -- The fields of `status` that the agent computes
  pub record Status : Type 0 where
    pub running : Bool
    pub cash : F
    pub drawdown : Option F
    pub total_exposure : F
    pub kill_switch : Bool
    pub circuit : Bool

  -- `status`
  abbrev pub status : CryptoAgent F → Status
  status s = record {
    running = s.running;
    cash = current_cash s;
    drawdown = current_drawdown s;
    total_exposure = (exposures_from_cache s).1;
    kill_switch = s.kill_switch_triggered;
    circuit = s.circuit_breaker.tripped;
  }
