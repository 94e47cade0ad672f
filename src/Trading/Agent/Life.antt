-- ===== src/Trading/Agent/Life.antt =====
-- `__init__`, `start`, `stop` and `_restore_snapshot` of the agent, and `_validate_live_mode`. The
-- tables of a database outlive an agent: `new_agent` takes the snapshots that are stored.
use ai_system.Common.{
  ℕ, suc, String, Bool, true, false, not, ◌&&◌, ◌||◌, Option, none, some, List, [], ◌∷◌, ◌==◌,
  if◌then◌else◌, Dict,
}
use ai_system.Common.Real.{Real, zero_f}
use ai_system.Common.Effects.{pure, raise, ◌>>=◌, ◌>>◌, attempt, retry, modify, get, when, for_each}
use ai_system.Trading.Portfolio.{Portfolio}
use ai_system.Trading.Modes.{Mode, shadow, canary, live, other}
use ai_system.Trading.Router.{Router, fetch_markets, fetch_balance, init, new_venues}
use ai_system.Trading.Agent.{
  Config, Host, CryptoAgent, Act, note, Snapshot, audit, with_router, sent_by,
}
use ai_system.Trading.Agent.Account.{compute_equity}
use ai_system.Trading.Agent.Tick.{on_tick}

abbrev pub is_live : Mode → Bool
is_live shadow = false
is_live canary = false
is_live live = true
is_live (other t) = false

-- The truth of a text that may be absent
abbrev pub is_given : Option String → Bool
is_given none = false
is_given (some text) = not (text == "")

abbrev pub is_text : String → Option String → Bool
is_text text none = false
is_text text (some given) = given == text

-- What the supervisor asks of an agent
pub data Command : Type 0 where
  start_agent run_tick stop_agent : Command

module _ {F : Type 0} (R : Real F) (config : Config F) (host : Host F) where
  open R use {lit, lt}

  -- `__init__`, with `canary_live_fraction` and `trailing_stop_pct` of its configuration, and the
  -- snapshots in the database
  abbrev pub new_agent : F → F → List (F × Snapshot F) → CryptoAgent F
  new_agent canary_live_fraction trailing_stop_pct stored = record {
    running = false;
    router = none;
    executor = none;
    has_strategy = false;
    has_db = false;
    cooldowns = record { last_buys = []; last_sells = [] };
    mode_state = record {
      mode = config.mode;
      canary_fraction = canary_live_fraction;
      stats = record { drawdown_limit = lit 1 1; error_window_secs = 300; max_errors = 3 };
      shadow_trades = [];
      errors = [];
      canary_drawdown = zero_f R;
    };
    trailing_stop = record { percent = trailing_stop_pct; highs = [] };
    circuit_breaker = record { max_failures = 5; window_secs = 300; events = []; tripped = false };
    markets = [];
    portfolio = none;
    last_tick_ts = none;
    last_error = none;
    last_scores = [];
    last_balance = none;
    price_cache = [];
    price_history = [];
    vol_cache = [];
    session_start_equity = none;
    session_high_equity = none;
    session_low_equity = none;
    kill_switch_triggered = false;
    tick_counter = 0;
    readings = 0;
    audits = [];
    trades = [];
    snapshots = stored;
    alerts = [];
  }

  -- The checks of `_validate_live_mode` before it asks for a balance
  abbrev pub refusal : Option String
  refusal =
      if not (is_given config.api_key) || not (is_given config.api_secret)
      then some "Live mode requires API credentials"
      else if not (is_text "I UNDERSTAND" config.confirm_live)
      then some "Live mode requires confirm_live=I UNDERSTAND"
      else if not config.dry_run_passed
      then some "Dry run must pass before enabling live mode"
      else if is_live config.mode && not config.bypass_canary
      then some "Enable canary mode before full live trading"
      else none

  abbrev pub check_balance : Option (Dict F) → Act F (Unit {0})
  check_balance none = raise "Failed to load live balances"
  check_balance (some free) = pure tt

  abbrev pub validate_after : Option String → Act F (Unit {0})
  validate_after (some reason) = raise reason
  validate_after none = do
    balance ← with_router (retry 3 (fetch_balance R host.exchange))
    modify (λ s. record s { last_balance = some balance })
    check_balance balance.free

  -- `_validate_live_mode`
  unfoldable pub validate_live_mode : Act F (Unit {0})
  validate_live_mode = if config.paper_mode then pure tt else validate_after refusal

  -- The first of the latest rows: what `load_latest_snapshot` takes of the rows of the agent
  abbrev pub latest : F × Snapshot F → List (F × Snapshot F) → Snapshot F
  latest best [] = best.1
  latest best (row ∷ rest) = latest (if lt best.0 row.0 then row else best) rest

  abbrev pub load_latest_snapshot : List (F × Snapshot F) → Option (Snapshot F)
  load_latest_snapshot [] = none
  load_latest_snapshot (row ∷ rest) = some (latest row rest)

  -- The portfolio of a snapshot in the place of that of the agent; a snapshot that has none leaves
  -- the cash and clears the positions.
  abbrev pub restored_portfolio : Option (Portfolio F) → Option (Portfolio F) → Option (Portfolio F)
  restored_portfolio none saved = none
  restored_portfolio (some p) none = some (record p { positions = [] })
  restored_portfolio (some p) (some saved) =
      some (record p { cash_usdt = saved.cash_usdt; positions = saved.positions })

  abbrev pub restored : Snapshot F → CryptoAgent F → CryptoAgent F
  restored saved s = record s {
    last_scores = saved.last_scores;
    price_cache = saved.price_cache;
    price_history = saved.price_history;
    vol_cache = saved.vol_cache;
    last_tick_ts = saved.last_tick_ts;
    portfolio =
        if config.paper_mode then restored_portfolio s.portfolio saved.portfolio else s.portfolio;
  }

  abbrev pub restored_from : Option (Snapshot F) → CryptoAgent F → CryptoAgent F
  restored_from none s = s
  restored_from (some saved) s = restored saved s

  -- `_restore_snapshot`
  unfoldable pub restore_snapshot : Act F (Unit {0})
  restore_snapshot =
      modify (λ s. if s.has_db then restored_from (load_latest_snapshot s.snapshots) s else s)

  -- A router has no calls before it is made, and its calls are numbered after those of the last one.
  abbrev pub calls_of : Option (Router F) → ℕ
  calls_of none = 0
  calls_of (some r) = r.calls

  abbrev pub failovers_of : Option (Router F) → List (String × String)
  failovers_of none = []
  failovers_of (some r) = r.failovers

  abbrev pub new_router : Option (Router F) → Router F
  new_router old = record {
    venues =
        new_venues R host.exchange config.router_exchanges (host.exchange.clock (calls_of old)) [];
    calls = suc (calls_of old);
    sent = sent_by old;
    failovers = failovers_of old;
  }

  -- The fields that `start` sets at its end, for the equity of the session
  abbrev pub begun : CryptoAgent F → CryptoAgent F
  begun s =
      let ready = record s {
        running = true;
        last_error = none;
        last_tick_ts = none;
        kill_switch_triggered = false;
      } in
      let equity = compute_equity R config ready in
      record ready {
        session_start_equity = equity;
        session_high_equity = equity;
        session_low_equity = equity;
      }

  abbrev pub open_account : Act F (Unit {0})
  open_account =
      if config.paper_mode
      then modify (λ s. record s {
        portfolio = some (record { cash_usdt = config.starting_cash; positions = [] });
      })
      else validate_live_mode

  -- The end of `start`: the account, what a snapshot gives back, and the session
  abbrev pub open_session : Act F (Unit {0})
  open_session = do open_account; when config.resume restore_snapshot; modify begun

  -- `start` of an agent that is not running
  abbrev pub start_up : Act F (Unit {0})
  start_up = do
    modify (λ s. record s { has_strategy = true; router = some (new_router s.router) })
    with_router (init R host.exchange)
    markets ← with_router (retry 3 (fetch_markets R host.exchange))
    modify (λ s. record s {
      markets = markets;
      executor = some (record { paper = config.paper_mode; fee = config.fee });
      has_db = true;
    })
    audit (note "info" "start")
    open_session

  -- `start`
  unfoldable pub start : Act F (Unit {0})
  unfolding validate_live_mode restore_snapshot
  start = do
    s ← get
    if s.running
        then pure tt
        else if config.strategy_known
        then start_up
        else raise "Unknown strategy"

  -- `stop`
  unfoldable pub stop : Act F (Unit {0})
  stop = do
    s ← get
    if s.running
        then (do modify (λ s. record s { running = false }); audit (note "info" "stop"))
        else pure tt

  unfoldable pub perform : Command → Act F (Unit {0})
  unfolding start stop
  perform start_agent = start
  perform run_tick = on_tick R config host
  perform stop_agent = stop

  -- Commands one after another; an exception of one does not keep the next from being given.
  unfoldable pub perform_all : List Command → Act F (Unit {0})
  unfolding perform
  perform_all cs = for_each (λ c. attempt (perform c) >> pure tt) cs
