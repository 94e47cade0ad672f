-- ===== src/Trading/Agent/Watch/Ticks.antt =====
-- The invariants of orders through `on_tick` (agents/crypto_agent.py).
use ai_system.Common.{String, Bool, true, false, not, ◌&&◌, Option, none, some, List, Dict, lookup}
use ai_system.Common.Real.{Real}
use ai_system.Common.Effects.{
  Ended, returned, raised, Keeps, Keeps-pure, Keeps-raise, Keeps-modify, Keeps-bind, Keeps-then,
  Keeps-attempt, Keeps-retry, Keeps-read, Keeps-if, Keeps-when, Keeps-for_each,
}
use ai_system.Trading.Market.{buy}
use ai_system.Trading.Risk.{or_default, risk_parity_targets}
use ai_system.Trading.Modes.{should_halt}
use ai_system.Trading.Quality.{Candle, validate_ohlcv, validate_ticker}
use ai_system.Trading.Router.{Executor, Ticker, or_truthy}
use ai_system.Trading.Router.Paper.{best_quote-Keeps, fetch_ohlcv-Keeps, fetch_balance-Keeps}
use ai_system.Trading.Agent.{
  Config, Host, CryptoAgent, Advice, Signal, buy_signal, sell_signal, hold,
}
use ai_system.Trading.Agent.Account.{compute_equity, exposures_from_cache, position_qty}
use ai_system.Trading.Agent.Tick.{
  failed, advised, act_on, is_stopped, after_advice, history_of, after_price, with_price,
  after_candles, after_data, fetch_data, tick_symbol, trigger_kill_switch, check_equity,
  check_drawdown, persist_snapshot, refresh_balances, end_tick, after_balances, is_ready,
  is_stopped_by, session_active, in_session, on_tick,
}
use ai_system.Trading.Agent.Watch.{
  View, Rules, Trades, Watched, with_router-Keeps, read_wall-Keeps, notify-Keeps, note-Keeps,
}
use ai_system.Trading.Agent.Watch.Settles.{record_circuit-Keeps}
use ai_system.Trading.Agent.Watch.Handlers.{handle_buy-Keeps, handle_sell-Keeps}

module _ {F : Type 0} (R : Real F) (config : Config F) (host : Host F) (Q : View F)
    (rules : Rules config Q) (Fit : Executor F → Type 0) (trades : Trades R config Fit Q) where
  abbrev Invariant : CryptoAgent F → Type 0
  Invariant = Watched R config host Q

  failed-Keeps : (key e : String) → Keeps Invariant (failed R config host key e)
  unfolding Watched
  failed-Keeps key e =
      Keeps-then _ _ (Keeps-modify _ (λ s p. p))
        (record_circuit-Keeps R config host Q rules Fit trades key)

  advised-Keeps :
      (symbol : String) (price : F) (volatility : Option F) (exposures : Dict F)
      (total target held_qty : F) (signal : Signal)
      → Keeps Invariant
          (advised R config host symbol price volatility exposures total target held_qty signal)
  advised-Keeps symbol price volatility exposures total target held_qty buy_signal =
      Keeps-if (R.le held_qty (R.lit 1 9)) _ _
        (λ h.
          handle_buy-Keeps R config host Q rules Fit trades symbol price volatility exposures total
            target)
        (λ h. Keeps-pure tt)
  advised-Keeps symbol price volatility exposures total target held_qty sell_signal =
      Keeps-if (R.lt (R.lit 1 9) held_qty) _ _
        (λ h.
          handle_sell-Keeps R config host Q rules Fit trades symbol price held_qty exposures total)
        (λ h. Keeps-pure tt)
  advised-Keeps symbol price volatility exposures total target held_qty hold = Keeps-pure tt

  act_on-Keeps :
      (symbol : String) (price : F) (advice : Advice F) (exposures : Dict F)
      (total target held_qty : F) (stopped : Bool)
      → Keeps Invariant
          (act_on R config host symbol price advice exposures total target held_qty stopped)
  act_on-Keeps symbol price advice exposures total target held_qty true =
      handle_sell-Keeps R config host Q rules Fit trades symbol price held_qty exposures total
  act_on-Keeps symbol price advice exposures total target held_qty false =
      advised-Keeps symbol price advice.volatility exposures total target held_qty advice.signal

  is_stopped-Keeps :
      (symbol : String) (price : F) (b : Bool)
      → Keeps Invariant (is_stopped R config host symbol price b)
  unfolding Watched
  is_stopped-Keeps symbol price b =
      Keeps-read _ (λ s p. Keeps-then _ _ (Keeps-modify _ (λ s p. p)) (Keeps-pure _))

  after_advice-Keeps :
      (symbol : String) (price : F) (exposures : Dict F) (total target : F)
      (answer : Ended (Advice F))
      → Keeps Invariant (after_advice R config host symbol price exposures total target answer)
  unfolding Watched
  after_advice-Keeps symbol price exposures total target (raised e) = failed-Keeps "strategy" e
  after_advice-Keeps symbol price exposures total target (returned advice) =
      Keeps-then _ _ (Keeps-modify _ (λ s p. p)) (
        Keeps-read _ (λ s p. Keeps-bind _ _ (is_stopped-Keeps symbol price _) (λ b.
          act_on-Keeps symbol price advice exposures total target (position_qty R config symbol s)
            b)))

  after_price-Keeps :
      (symbol : String) (price : F) (ohlcv : List (Candle F)) (exposures : Dict F)
      (total target : F) (o : Option String)
      → Keeps Invariant (after_price R config host symbol price ohlcv exposures total target o)
  unfolding Watched
  after_price-Keeps symbol price ohlcv exposures total target (some reason) =
      record_circuit-Keeps R config host Q rules Fit trades "qc"
  after_price-Keeps symbol price ohlcv exposures total target none =
      Keeps-then _ _ (Keeps-modify _ (λ s p. p))
        (after_advice-Keeps symbol price exposures total target (host.advise ohlcv))

  with_price-Keeps :
      (symbol : String) (ohlcv : List (Candle F)) (exposures : Dict F) (total target : F)
      (price : Option F)
      → Keeps Invariant (with_price R config host symbol ohlcv exposures total target price)
  unfolding Watched
  with_price-Keeps symbol ohlcv exposures total target none = Keeps-raise _
  with_price-Keeps symbol ohlcv exposures total target (some price) =
      Keeps-then _ _ (Keeps-modify _ (λ s p. p)) (
        Keeps-read _ (λ s p.
          after_price-Keeps symbol price ohlcv exposures total target
            (validate_ticker R price (history_of R config host symbol s) config.deviation_sigma)))

  after_candles-Keeps :
      (symbol : String) (ohlcv : List (Candle F)) (ticker : Ticker F) (exposures : Dict F)
      (total target : F) (checked : Ended (Option String))
      → Keeps Invariant
          (after_candles R config host symbol ohlcv ticker exposures total target checked)
  after_candles-Keeps symbol ohlcv ticker exposures total target (raised e) = Keeps-raise e
  after_candles-Keeps symbol ohlcv ticker exposures total target (returned (some reason)) =
      record_circuit-Keeps R config host Q rules Fit trades "qc"
  after_candles-Keeps symbol ohlcv ticker exposures total target (returned none) =
      with_price-Keeps symbol ohlcv exposures total target (or_truthy R ticker.last ticker.close)

  after_data-Keeps :
      (symbol : String) (exposures : Dict F) (total target : F)
      (answer : Ended (List (Candle F) × Ticker F))
      → Keeps Invariant (after_data R config host symbol exposures total target answer)
  after_data-Keeps symbol exposures total target (raised e) = failed-Keeps "market" e
  after_data-Keeps symbol exposures total target (returned (ohlcv, ticker)) =
      after_candles-Keeps symbol ohlcv ticker exposures total target
        (validate_ohlcv R config.max_gap_pct ohlcv)

  fetch_data-Keeps : (symbol : String) → Keeps Invariant (fetch_data R config host symbol)
  fetch_data-Keeps symbol =
      Keeps-bind _ _
        (with_router-Keeps R config host Q _
          (λ b c x audits. Keeps-retry 3 _ (fetch_ohlcv-Keeps R host.exchange _ symbol)))
        (λ ohlcv.
          Keeps-bind _ _
            (with_router-Keeps R config host Q _
              (λ b c x audits. Keeps-retry 3 _ (best_quote-Keeps R host.exchange _ symbol buy)))
            (λ quote. Keeps-pure _))

  tick_symbol-Keeps :
      (exposures : Dict F) (total : F) (targets : Dict F) (symbol : String)
      → Keeps Invariant (tick_symbol R config host exposures total targets symbol)
  unfolding tick_symbol
  tick_symbol-Keeps exposures total targets symbol =
      Keeps-bind _ _ (Keeps-attempt _ (fetch_data-Keeps symbol)) (
        after_data-Keeps symbol exposures total
          (or_default config.risk_caps.max_notional_per_trade (lookup symbol targets)))

  trigger_kill_switch-Keeps : Keeps Invariant (trigger_kill_switch R config host)
  unfolding trigger_kill_switch Watched
  trigger_kill_switch-Keeps = Keeps-read _ (λ s p.
      Keeps-if s.kill_switch_triggered _ _ (λ h. Keeps-pure tt)
        (λ h.
          Keeps-then _ _ (Keeps-modify _ (λ s p. rules.on_halt _ _ _ _ _ p)) (
            Keeps-then _ _ (note-Keeps R config host Q rules _ _)
              (notify-Keeps R config host Q _))))

  check_equity-Keeps : (e : Option F) → Keeps Invariant (check_equity R config host e)
  unfolding Watched
  check_equity-Keeps none = Keeps-pure tt
  check_equity-Keeps (some e) =
      Keeps-then _ _ (Keeps-modify _ (λ s p. p))
        (Keeps-read _ (λ s p. Keeps-when _ _ (λ h. trigger_kill_switch-Keeps)))

  check_drawdown-Keeps : Keeps Invariant (check_drawdown R config host)
  unfolding check_drawdown
  check_drawdown-Keeps = Keeps-read _ (λ s p. check_equity-Keeps (compute_equity R config s))

  persist_snapshot-Keeps : Keeps Invariant (persist_snapshot R config host)
  unfolding persist_snapshot Watched
  persist_snapshot-Keeps = Keeps-read _ (λ s p.
      Keeps-if s.has_db _ _
        (λ h. Keeps-bind _ _ (read_wall-Keeps R config host Q) (λ now.
          Keeps-bind _ _ (read_wall-Keeps R config host Q) (λ written. Keeps-modify _ (λ s p. p))))
        (λ h. Keeps-pure tt))

  refresh_balances-Keeps : Keeps Invariant (refresh_balances R config host)
  unfolding refresh_balances Watched
  refresh_balances-Keeps =
      Keeps-if config.paper_mode _ _ (λ h. Keeps-pure tt)
        (λ h.
          Keeps-bind _ _
            (with_router-Keeps R config host Q _
              (λ b c x audits. Keeps-retry 3 _ (fetch_balance-Keeps R host.exchange _)))
            (λ balance. Keeps-modify _ (λ s p. p)))

  end_tick-Keeps : Keeps Invariant (end_tick R config host)
  unfolding Watched
  end_tick-Keeps = Keeps-then _ _ check_drawdown-Keeps (
      Keeps-then _ _ (Keeps-modify _ (λ s p. p))
        (Keeps-read _ (λ s p. Keeps-when _ _ (λ h. persist_snapshot-Keeps))))

  after_balances-Keeps :
      (answer : Ended (Unit {0})) → Keeps Invariant (after_balances R config host answer)
  after_balances-Keeps (raised e) = failed-Keeps "balance" e
  after_balances-Keeps (returned u) = Keeps-read _ (λ s p.
      Keeps-then _ _
        (Keeps-for_each _ config.allowed_pairs (
          tick_symbol-Keeps (exposures_from_cache R config s).0 (exposures_from_cache R config s).1
            (risk_parity_targets R config.allowed_pairs s.vol_cache config.risk_caps)))
        end_tick-Keeps)

  in_session-Keeps : (b : Bool) → Keeps Invariant (in_session R config host b)
  unfolding Watched
  in_session-Keeps false = Keeps-pure tt
  in_session-Keeps true = Keeps-read _ (λ s p.
      Keeps-if (should_halt R s.mode_state && not config.bypass_canary) _ _ (λ h. Keeps-pure tt)
        (λ h. Keeps-bind _ _ (read_wall-Keeps R config host Q) (λ now.
          Keeps-then _ _ (Keeps-modify _ (λ s p. p))
            (Keeps-bind _ _ (Keeps-attempt _ refresh_balances-Keeps) after_balances-Keeps))))

  session_active-Keeps : Keeps Invariant (session_active R config host)
  unfolding Watched
  session_active-Keeps = record { keeps = λ s p. p }

  pub on_tick-Keeps : Keeps Invariant (on_tick R config host)
  unfolding on_tick
  on_tick-Keeps = Keeps-read _ (λ s p.
      Keeps-if (not (is_ready R config host s)) _ _ (λ h. Keeps-pure tt)
        (λ h.
          Keeps-if (is_stopped_by R config host s) _ _ (λ h. Keeps-pure tt)
            (λ h. Keeps-bind _ _ session_active-Keeps in_session-Keeps)))
