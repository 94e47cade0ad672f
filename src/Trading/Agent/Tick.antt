-- ===== src/Trading/Agent/Tick.antt =====
-- `on_tick` of the agent, with `_check_drawdown`, `_trigger_kill_switch` and `_persist_snapshot`.
use ai_system.Common.{
  suc, ◌%◌, String, Bool, true, false, not, ◌&&◌, ◌||◌, Option, none, some, List, [], ◌∷◌, ◌++◌,
  eqb, max, if◌then◌else◌, Dict, lookup, insert,
}
use ai_system.Common.Real.{Real}
use ai_system.Common.Effects.{
  Ended, returned, raised, pure, raise, ◌>>=◌, ◌>>◌, attempt, retry, modify, get, when, for_each,
}
use ai_system.Trading.Market.{buy, in_trading_session}
use ai_system.Trading.Risk.{risk_parity_targets, trail, or_default}
use ai_system.Trading.Modes.{should_halt, update_drawdown}
use ai_system.Trading.Quality.{Candle, validate_ohlcv, validate_ticker, update_history}
use ai_system.Trading.Router.{Ticker, fetch_ohlcv, fetch_balance, or_truthy}
use ai_system.Trading.Router.Quotes.{best_quote}
use ai_system.Trading.Agent.{
  Config, Host, CryptoAgent, Act, Advice, Signal, buy_signal, sell_signal, hold, Snapshot, note,
  audit, with_router, is_some_of,
}
use ai_system.Trading.Agent.Account.{
  position_qty, exposures_from_cache, compute_equity, read_wall, record_circuit, paper_portfolio,
}
use ai_system.Trading.Agent.Orders.{handle_buy, handle_sell, notify}

module _ {F : Type 0} (R : Real F) (config : Config F) (host : Host F) where
  open R use {lit, sub, mul, lt, le, is_zero}

  abbrev pub failed : String → String → Act F (Unit {0})
  failed key e = do modify (λ s. record s { last_error = some e }); record_circuit R config host key

  -- The order that the strategy advises
  abbrev pub advised : String → F → Option F → Dict F → F → F → F → Signal → Act F (Unit {0})
  advised symbol price volatility exposures total target held_qty buy_signal =
      if le held_qty (lit 1 9)
      then handle_buy R config host symbol price volatility exposures total target
      else pure tt
  advised symbol price volatility exposures total target held_qty sell_signal =
      if lt (lit 1 9) held_qty
      then handle_sell R config host symbol price held_qty exposures total
      else pure tt
  advised symbol price volatility exposures total target held_qty hold = pure tt

  -- The trailing stop, or what the strategy advises
  abbrev pub act_on : String → F → Advice F → Dict F → F → F → F → Bool → Act F (Unit {0})
  act_on symbol price advice exposures total target held_qty true =
      handle_sell R config host symbol price held_qty exposures total
  act_on symbol price advice exposures total target held_qty false =
      advised symbol price advice.volatility exposures total target held_qty advice.signal

  -- `self.trailing_stop.update`
  abbrev pub is_stopped : String → F → Bool → Act F Bool
  is_stopped symbol price has_position = do
    s ← get
    let answer = trail R symbol price has_position s.trailing_stop
    modify (λ s. record s { trailing_stop = answer.1 })
    pure answer.0

  abbrev pub after_advice : String → F → Dict F → F → F → Ended (Advice F) → Act F (Unit {0})
  after_advice symbol price exposures total target (raised e) = failed "strategy" e
  after_advice symbol price exposures total target (returned advice) = do
    modify (λ s. record s {
      last_scores = insert symbol advice.score s.last_scores;
      vol_cache = insert symbol (or_default (lit 2 1) advice.volatility) s.vol_cache;
    })
    s ← get
    let held_qty = position_qty R config symbol s
    stopped ← is_stopped symbol price (lt (lit 1 9) held_qty)
    act_on symbol price advice exposures total target held_qty stopped

  abbrev pub history_of : String → CryptoAgent F → List F
  history_of symbol s = or_default [] (lookup symbol s.price_history)

  abbrev pub after_price :
      String → F → List (Candle F) → Dict F → F → F → Option String → Act F (Unit {0})
  after_price symbol price ohlcv exposures total target (some reason) =
      record_circuit R config host "qc"
  after_price symbol price ohlcv exposures total target none = do
    modify (λ s. record s { price_cache = insert symbol price s.price_cache })
    after_advice symbol price exposures total target (host.advise ohlcv)

  abbrev pub with_price : String → List (Candle F) → Dict F → F → F → Option F → Act F (Unit {0})
  with_price symbol ohlcv exposures total target none =
      raise "float() argument must be a string or a real number"
  with_price symbol ohlcv exposures total target (some price) = do
    modify (λ s. record s {
      price_history = insert symbol (update_history R (history_of symbol s) price) s.price_history;
    })
    s ← get
    after_price symbol price ohlcv exposures total target
        (validate_ticker R price (history_of symbol s) config.deviation_sigma)

  abbrev pub after_candles :
      String
      → List (Candle F)
      → Ticker F
      → Dict F
      → F
      → F
      → Ended (Option String)
      → Act F (Unit {0})
  after_candles symbol ohlcv ticker exposures total target (raised e) = raise e
  after_candles symbol ohlcv ticker exposures total target (returned (some reason)) =
      record_circuit R config host "qc"
  after_candles symbol ohlcv ticker exposures total target (returned none) =
      with_price symbol ohlcv exposures total target (or_truthy R ticker.last ticker.close)

  abbrev pub after_data :
      String → Dict F → F → F → Ended (List (Candle F) × Ticker F) → Act F (Unit {0})
  after_data symbol exposures total target (raised e) = failed "market" e
  after_data symbol exposures total target (returned (ohlcv, ticker)) =
      after_candles symbol ohlcv ticker exposures total target
        (validate_ohlcv R config.max_gap_pct ohlcv)

  abbrev pub fetch_data : String → Act F (List (Candle F) × Ticker F)
  fetch_data symbol = do
    ohlcv ← with_router (retry 3 (fetch_ohlcv R host.exchange symbol))
    quote ← with_router (retry 3 (best_quote R host.exchange symbol buy))
    pure (ohlcv, quote.1)

  -- The body of the loop of `on_tick`; the exposures are those at the start of the tick.
  unfoldable pub tick_symbol : Dict F → F → Dict F → String → Act F (Unit {0})
  tick_symbol exposures total targets symbol = do
    answer ← attempt (fetch_data symbol)
    after_data symbol exposures total
        (or_default config.risk_caps.max_notional_per_trade (lookup symbol targets)) answer

  -- `_trigger_kill_switch`
  unfoldable pub trigger_kill_switch : Act F (Unit {0})
  trigger_kill_switch = do
    s ← get
    if s.kill_switch_triggered then pure tt else (do
      modify (λ s. record s { kill_switch_triggered = true; running = false })
      audit (note "error" "kill_switch")
      notify R config host "kill_switch")

  abbrev pub is_lower : F → Option F → Bool
  is_lower e none = true
  is_lower e (some x) = lt e x

  abbrev pub is_higher : F → Option F → Bool
  is_higher e none = true
  is_higher e (some x) = lt x e

  -- `x or e`, for a number that may be absent
  abbrev pub number_or : Option F → F → F
  number_or none e = e
  number_or (some x) e = if is_zero x then e else x

  abbrev pub is_drawn_down : F → Option F → Bool
  is_drawn_down e none = false
  is_drawn_down e (some high) =
      not (is_zero high)
      && lt e (mul high (sub (lit 1 0) config.risk_caps.max_drawdown_pct_session))

  abbrev pub with_equity : F → CryptoAgent F → CryptoAgent F
  with_equity e s = record s {
    session_high_equity =
        if is_higher e s.session_high_equity then some e else s.session_high_equity;
    session_low_equity = if is_lower e s.session_low_equity then some e else s.session_low_equity;
    mode_state = update_drawdown R (number_or s.session_start_equity e) e s.mode_state;
  }

  abbrev pub check_equity : Option F → Act F (Unit {0})
  check_equity none = pure tt
  check_equity (some e) = do
    modify (with_equity e)
    s ← get
    when (is_drawn_down e s.session_high_equity) trigger_kill_switch

  -- `_check_drawdown`
  unfoldable pub check_drawdown : Act F (Unit {0})
  unfolding trigger_kill_switch
  check_drawdown = do s ← get; check_equity (compute_equity R config s)

  abbrev pub snapshot_at : F → CryptoAgent F → Snapshot F
  snapshot_at now s = record {
    ts = now;
    last_scores = s.last_scores;
    price_cache = s.price_cache;
    price_history = s.price_history;
    vol_cache = s.vol_cache;
    last_tick_ts = s.last_tick_ts;
    portfolio = paper_portfolio R config s;
  }

  -- `_persist_snapshot`
  unfoldable pub persist_snapshot : Act F (Unit {0})
  persist_snapshot = do
    s ← get
    if s.has_db
        then (do
          now ← read_wall R config host
          written ← read_wall R config host
          modify (λ s. record s { snapshots = s.snapshots ++ (written, snapshot_at now s) ∷ [] }))
        else pure tt

  -- `_refresh_balances`
  unfoldable pub refresh_balances : Act F (Unit {0})
  refresh_balances = if config.paper_mode then pure tt else (do
    balance ← with_router (retry 3 (fetch_balance R host.exchange))
    modify (λ s. record s { last_balance = some balance }))

  -- The end of a tick. `snapshot_every` is at least 1.
  abbrev pub end_tick : Act F (Unit {0})
  end_tick = do
    check_drawdown
    modify (λ s. record s { tick_counter = suc s.tick_counter })
    s ← get
    when (eqb (s.tick_counter % max 1 config.snapshot_every) 0) persist_snapshot

  abbrev pub after_balances : Ended (Unit {0}) → Act F (Unit {0})
  after_balances (raised e) = failed "balance" e
  after_balances (returned u) = do
    s ← get
    let (exposures, total) = exposures_from_cache R config s
    let targets = risk_parity_targets R config.allowed_pairs s.vol_cache config.risk_caps
    for_each (tick_symbol exposures total targets) config.allowed_pairs
    end_tick

  -- What `on_tick` asks before it starts
  abbrev pub is_ready : CryptoAgent F → Bool
  is_ready s = s.running && s.has_strategy && is_some_of s.executor && is_some_of s.router

  abbrev pub is_stopped_by : CryptoAgent F → Bool
  is_stopped_by s = s.kill_switch_triggered || s.circuit_breaker.tripped

  -- `_session_active`
  abbrev pub session_active : Act F Bool
  session_active s = (
    returned (in_trading_session (host.wall_text s.readings) config.session_windows),
    record s { readings = suc s.readings },
  )

  abbrev pub in_session : Bool → Act F (Unit {0})
  in_session false = pure tt
  in_session true = do
    s ← get
    if should_halt R s.mode_state && not config.bypass_canary then pure tt else (do
      now ← read_wall R config host
      modify (λ s. record s { last_tick_ts = some now })
      answer ← attempt refresh_balances
      after_balances answer)

  -- `on_tick`
  unfoldable pub on_tick : Act F (Unit {0})
  on_tick = do
    s ← get
    if not (is_ready s)
        then pure tt
        else if is_stopped_by s
        then pure tt
        else (do active ← session_active; in_session active)
