-- ===== src/Trading/Agent/Tests.antt =====
-- Agents on concrete exchanges, and the theorems about agents at these.
use ai_system.Common.{
  ap, arith, All, ◌*◌, ℕ, suc, ◌≡◌, refl, String, true, false, none, some, List, [], ◌∷◌, insert,
  lookup,
}
use ai_system.Common.Real.{decimal}
use ai_system.Common.Effects.{
  returned, pure, raise, ◌>>=◌, ◌>>◌, catch, attempt, retry, get, modify, when, for_each,
}
use ai_system.Trading.Market.{
  buy, OrderIntent, round_step, conform_qty, min_notional, base, in_trading_session,
}
use ai_system.Trading.Risk.{
  RiskCaps, check_pre_trade, too_soon, kelly_multiplier, dynamic_notional_cap, risk_parity_targets,
  trail,
}
use ai_system.Trading.Portfolio.{Portfolio}
use ai_system.Trading.Modes.{
  canary, live, other, split, record_error, should_halt, update_drawdown, record_failure,
}
use ai_system.Trading.Quality.{check_candles, validate_ohlcv, validate_ticker, update_history}
use ai_system.Trading.Router.{Exchange, acquire_at, ask, acquire, init}
use ai_system.Trading.Router.Quotes.{quotes, best_quote}
use ai_system.Trading.Router.Execution.{
  create_order, execute_at, try_venues, execute, execute_slices, execute_twap,
}
use ai_system.Trading.Agent.{Config, Host, CryptoAgent, buy_signal, sent_by, with_router}
use ai_system.Trading.Agent.Account.{
  position_qty, current_cash, available_cash, positions_qty_map, exposures_from_cache,
  compute_equity, record_circuit,
}
use ai_system.Trading.Agent.Orders.{
  record_risk_reject, notify, order_failed, book, settle, execute_order, is_cooling, order_within,
  handle_buy, handle_sell,
}
use ai_system.Trading.Agent.Tick.{
  snapshot_at, tick_symbol, trigger_kill_switch, check_drawdown, persist_snapshot, refresh_balances,
  on_tick,
}
use ai_system.Trading.Agent.Life.{
  is_text, refusal, Command, start_agent, run_tick, stop_agent, new_agent, validate_live_mode,
  restore_snapshot, start, stop, perform, perform_all,
}
use ai_system.Trading.Agent.Limits.{all_within, IsCovered, perform_all_within}
use ai_system.Trading.Agent.Armed.{unconfirmed, perform_all_unarmed}
use ai_system.Trading.Agent.Halted.{perform_all_tripped}
use ai_system.Trading.Agent.Resume.{restore_snapshot-persist_snapshot, with_memory}

abbrev caps : RiskCaps ℕ
caps = record {
  max_notional_per_trade = 150_000;
  max_positions_per_symbol = 1;
  max_total_exposure_usdt = 1_500_000;
  max_drawdown_pct_session = 800;
  per_symbol_exposure_usdt = 500_000;
}

-- A configuration with all that a live agent needs, in canary mode
abbrev canary_config : Config ℕ
canary_config = record {
  paper_mode = false;
  mode = canary;
  allowed_pairs = "BTC/USDT" ∷ [];
  fee = 10;
  slippage_bps = 5;
  safety_cash_pct = 9_500;
  max_positions_per_symbol = 1;
  strategy_known = true;
  router_exchanges = "binance" ∷ [];
  session_windows = ("00:00", "23:59") ∷ [];
  duplicate_cooldown_seconds = 20;
  confirm_live = some "I UNDERSTAND";
  dry_run_passed = true;
  has_webhook = false;
  starting_cash = 1_000_000;
  twap_seconds = 20;
  resume = true;
  max_latency_ms = 1_200;
  deviation_sigma = 50_000;
  max_gap_pct = 700;
  bypass_canary = false;
  risk_caps = caps;
  snapshot_every = 1;
  api_key = some "key";
  api_secret = some "secret";
}

abbrev paper_config : Config ℕ
paper_config = record canary_config { paper_mode = true; mode = live }

abbrev unconfirmed_config : Config ℕ
unconfirmed_config = record canary_config { confirm_live = some "yes" }

abbrev candle : ℕ → List ℕ
candle ts = ts ∷ 20_000 ∷ 20_000 ∷ 20_000 ∷ 20_000 ∷ 10_000 ∷ []

-- An exchange with one market, whose price is 2, and a clock that moves on by 100 seconds
abbrev exchange : Exchange ℕ
exchange = record {
  start = λ n name. returned tt;
  fetch_markets = λ n name.
      returned
        (("BTC/USDT", record { step_size = none; precision_amount = none; cost_min = none }) ∷ []);
  fetch_ohlcv = λ n name symbol. returned (candle 10_000 ∷ candle 20_000 ∷ []);
  fetch_ticker = λ n name symbol. returned (record { last = some 20_000; close = none });
  fetch_balance = λ n name. returned (record {
    free = some (("USDT", 10_000_000) ∷ []);
    total = some (("USDT", 10_000_000) ∷ []);
  });
  create_order = λ n name intent. returned (record {
    filled = some intent.qty;
    price = some 20_000;
    fee = some 10;
    order_id = some "1";
    venue = none;
  });
  clock = λ n. suc n;
  paper_order_id = λ side price. "paper";
}

abbrev host : Host ℕ
host = record {
  exchange = exchange;
  wall = λ n. suc n * 1_000_000;
  wall_text = λ n. "12:00";
  advise =
      λ candles. returned (record { volatility = some 2_000; score = 5_000; signal = buy_signal });
  webhook = λ n. returned tt;
}

abbrev commands : List Command
commands = start_agent ∷ run_tick ∷ run_tick ∷ stop_agent ∷ []

abbrev fresh : Config ℕ → CryptoAgent ℕ
fresh config = new_agent decimal config host 1_000 0 []

-- The part of a canary, in the slices of a large order
abbrev slice : String × OrderIntent ℕ
slice = ("binance", record { symbol = "BTC/USDT"; side = buy; qty = 1_250 })

-- An agent with all that it needs sends orders.
canary_sends :
    sent_by
      (perform_all decimal canary_config host
        (start_agent ∷ run_tick ∷ [])
        (fresh canary_config)).1.router
    ≡ slice ∷ slice ∷ slice ∷ []
unfolding pure raise ◌>>=◌ ◌>>◌ catch attempt retry get modify when for_each with_router
    position_qty current_cash available_cash positions_qty_map exposures_from_cache compute_equity
    record_circuit round_step conform_qty min_notional base in_trading_session split record_error
    should_halt update_drawdown record_failure check_candles validate_ohlcv validate_ticker
    update_history check_pre_trade too_soon kelly_multiplier dynamic_notional_cap
    risk_parity_targets trail acquire_at ask acquire quotes best_quote create_order execute_at
    try_venues execute execute_slices execute_twap init validate_live_mode restore_snapshot insert
    lookup start stop perform perform_all record_risk_reject notify order_failed book settle
    execute_order is_cooling order_within handle_buy handle_sell tick_symbol trigger_kill_switch
    check_drawdown persist_snapshot refresh_balances on_tick
canary_sends = refl

perform_all_within_example :
    let s = (perform_all decimal canary_config host commands (fresh canary_config)).1 in
    (all_within decimal caps s.audits ≡ true) × All (IsCovered decimal s.audits) (sent_by s.router)
perform_all_within_example = perform_all_within decimal canary_config host 1_000 0 [] commands

-- A mode of another text needs no bypass.
full_passes : refusal decimal (record canary_config { mode = other "full" }) host ≡ none
full_passes = refl

perform_all_unarmed_example :
    sent_by
      (perform_all decimal unconfirmed_config host commands (fresh unconfirmed_config)).1.router
    ≡ []
perform_all_unarmed_example =
    perform_all_unarmed decimal unconfirmed_config host commands
      (unconfirmed (λ e. absurd (ground (arith, ap (is_text "I UNDERSTAND") e)))) 1_000 0 []

abbrev tripped_agent : CryptoAgent ℕ
tripped_agent = record (fresh canary_config) {
  circuit_breaker = record { max_failures = 5; window_secs = 300; events = []; tripped = true };
}

perform_all_tripped_example :
    ((perform_all decimal canary_config host commands tripped_agent).1.circuit_breaker.tripped
      ≡ true)
    × (sent_by (perform_all decimal canary_config host commands tripped_agent).1.router ≡ [])
perform_all_tripped_example =
    perform_all_tripped decimal canary_config host commands tripped_agent refl

abbrev account : Portfolio ℕ
account = record {
  cash_usdt = 400_000;
  positions = ("BTC/USDT", record { qty = 30_000; avg_price = 20_000 }) ∷ [];
}

-- An agent on paper that knows something, and a database with an older row
abbrev knowing : CryptoAgent ℕ
knowing = record (fresh paper_config) {
  has_db = true;
  portfolio = some account;
  last_scores = ("BTC/USDT", 5_000) ∷ [];
  price_cache = ("BTC/USDT", 20_000) ∷ [];
  snapshots = (10, snapshot_at decimal paper_config host 9 (fresh paper_config)) ∷ [];
}

abbrev restarted : CryptoAgent ℕ
restarted = record (fresh paper_config) {
  has_db = true;
  portfolio = some (record { cash_usdt = 1_000_000; positions = [] });
  snapshots = (persist_snapshot decimal paper_config host knowing).1.snapshots;
}

restore_snapshot-persist_snapshot_example :
    (restore_snapshot decimal paper_config host restarted).1
    ≡ with_memory decimal paper_config host knowing restarted
restore_snapshot-persist_snapshot_example =
    restore_snapshot-persist_snapshot decimal paper_config host knowing restarted account
      (record { cash_usdt = 1_000_000; positions = [] }) refl refl refl refl refl refl refl
