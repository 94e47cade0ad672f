-- ===== src/Trading/Market.antt =====
-- Orders (oms/orders.py), the rules of a market (agents/utils/market_rules.py), slippage
-- (oms/algos.py) and trading sessions (utils/schedule.py).
use Prim.Native.Nat.{Ordering}
use Prim.Native.Char.{code}
use Prim.Native.String as Text
use Prim.Native.String.{compare}
use ai_system.Common.{
  ℕ, String, Bool, true, false, Option, none, some, List, [], ◌∷◌, ◌&&◌, eqb, if◌then◌else◌, Dict,
  lookup,
}
use ai_system.Common.Real.{Real, fmax, zero_f, quotient}

pub data Side : Type 0 where
  buy sell : Side

abbrev pub is_buy : Side → Bool
is_buy buy = true
is_buy sell = false

pub record OrderIntent (F : Type 0) : Type 0 where
  pub symbol : String
  pub side : Side
  pub qty : F

-- What the code reads of the metadata of a market: "stepSize", the "amount" of "precision" and the
-- "min" of the "cost" of "limits"; none where one of these is absent.
pub record MarketInfo (F : Type 0) : Type 0 where
  pub step_size : Option F
  pub precision_amount : Option ℕ
  pub cost_min : Option F

module _ {F : Type 0} (R : Real F) where
  open R use {lit, add, sub, mul, div, lt, le, floor, round}

  -- `round_step`
  unfoldable pub round_step : F → F → F
  round_step qty step =
      if le step (zero_f R)
      then fmax R (zero_f R) qty
      else mul (floor (quotient R (fmax R (zero_f R) qty) step)) step

  abbrev pub rounded : Option ℕ → F → F
  rounded none q = q
  rounded (some n) q = round n q

  -- `info.get("stepSize", 0.000001)`
  abbrev pub step_of : Option F → F
  step_of none = lit 1 6
  step_of (some step) = step

  abbrev pub conform_info : Option (MarketInfo F) → F → F
  conform_info none qty = round_step qty (lit 1 6)
  conform_info (some info) qty =
      rounded info.precision_amount (round_step qty (step_of info.step_size))

  -- `conform_qty`
  unfoldable pub conform_qty : String → F → Dict (MarketInfo F) → F
  conform_qty symbol qty markets = conform_info (lookup symbol markets) qty

  abbrev pub cost_of : Option (MarketInfo F) → F
  cost_of none = zero_f R
  cost_of (some info) = elim info.cost_min [ none ↦ zero_f R | some cost ↦ cost ]

  -- `min_notional`
  unfoldable pub min_notional : String → Dict (MarketInfo F) → F
  min_notional symbol markets = cost_of (lookup symbol markets)

  -- `apply_slippage`
  unfoldable pub apply_slippage : F → Side → ℕ → F
  apply_slippage price side slippage_bps =
      let slip = mul price (quotient R (lit slippage_bps 0) (lit 10_000 0)) in
      if eqb slippage_bps 0 then price else if is_buy side then add price slip else sub price slip

-- `symbol.split("/")[0]`
unfoldable pub base : String → String
base Text.[] = Text.[]
base (Text.◌∷◌ c s) = if eqb (code c) 47 then Text.[] else Text.◌∷◌ c (base s)

-- `a <= b` of two texts
abbrev pub text_le : String → String → Bool
text_le a b = elim (compare a b) [ Ordering.gt ↦ false | _ ↦ true ]

-- `in_trading_session`, for the time written as "%H:%M"
unfoldable pub in_trading_session : String → List (String × String) → Bool
in_trading_session current [] = false
in_trading_session current ((start, end) ∷ rest) =
    if text_le start current && text_le current end then true else in_trading_session current rest
