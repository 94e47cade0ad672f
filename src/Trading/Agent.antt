-- ===== src/Trading/Agent.antt =====
-- `CryptoTradingAgent` (agents/crypto_agent.py): its configuration and its state. `GoldTradingAgent`
-- (agents/gold_agent.py) is the same with other defaults. The children have what it reads of its
-- state, its orders, its tick, and its start and stop.
pub mod Account
pub mod Orders
pub mod Tick
pub mod Life
pub mod Watch
pub mod Limits
pub mod Armed
pub mod Halted
pub mod Resume
mod Tests
use ai_system.Common.{
  ℕ, zero, suc, ◌+◌, ◌≡◌, String, Bool, true, false, not, ◌&&◌, Option, none, some, List, [], ◌∷◌,
  ◌++◌, ◌==◌, if◌then◌else◌, Dict, lookup, insert,
}
use ai_system.Common.Real.{Real, zero_f, quotient}
use ai_system.Common.Effects.{Ended, returned, raised, Call, pure, raise, ◌>>=◌, ◌>>◌, modify, get}
use ai_system.Trading.Market.{Side, OrderIntent, MarketInfo, base}
use ai_system.Trading.Risk.{RiskCaps, CooldownState, TrailingStopTracker, or_default}
use ai_system.Trading.Portfolio.{Portfolio, Position}
use ai_system.Trading.Modes.{Mode, ModeState, CircuitBreaker, record_failure}
use ai_system.Trading.Quality.{Candle}
use ai_system.Trading.Router.{Exchange, Router, Executor, Balance}

-- The settings that `__init__` reads, as they are after the defaults;
-- the keys are the decrypted ones.
pub record Config (F : Type 0) : Type 0 where
  pub paper_mode : Bool
  pub mode : Mode
  pub allowed_pairs : List String
  pub fee : F
  pub slippage_bps : ℕ
  pub safety_cash_pct : F
  pub max_positions_per_symbol : ℕ
  pub strategy_known : Bool
  pub router_exchanges : List String
  pub session_windows : List (String × String)
  pub duplicate_cooldown_seconds : ℕ
  pub confirm_live : Option String
  pub dry_run_passed : Bool
  pub has_webhook : Bool
  pub starting_cash : F
  pub twap_seconds : ℕ
  pub resume : Bool
  pub max_latency_ms : ℕ
  pub deviation_sigma : F
  pub max_gap_pct : F
  pub bypass_canary : Bool
  pub risk_caps : RiskCaps F
  pub snapshot_every : ℕ
  pub api_key : Option String
  pub api_secret : Option String

-- What the agent writes into the tables of audits and trades.
pub data AuditEntry (F : Type 0) : Type 0 where
  note : (level event : String) → AuditEntry F
  pre_trade : String → Side → (qty price : F) → AuditEntry F
  post_trade : String → Side → (qty price fee : F) → (order_id : String) → AuditEntry F

pub record Trade (F : Type 0) : Type 0 where
  pub ts : F
  pub symbol : String
  pub side : Side
  pub qty : F
  pub price : F
  pub fee : F
  pub order_id : String
  pub paper : Bool

-- The payload of a snapshot; `json` gives back what was written. A row has the time of its writing.
pub record Snapshot (F : Type 0) : Type 0 where
  pub ts : F
  pub last_scores : Dict F
  pub price_cache : Dict F
  pub price_history : Dict (List F)
  pub vol_cache : Dict F
  pub last_tick_ts : Option F
  pub portfolio : Option (Portfolio F)

-- A strategy answers candles with its volatility, its score and its signal.
pub data Signal : Type 0 where
  buy_signal sell_signal hold : Signal

pub record Advice (F : Type 0) : Type 0 where
  pub volatility : Option F
  pub score : F
  pub signal : Signal

-- The exchanges, the readings of the wall clock and of its "%H:%M" by their number, the strategy,
-- and how `notify_webhook` ends.
pub record Host (F : Type 0) : Type 0 where
  pub exchange : Exchange F
  pub wall : ℕ → F
  pub wall_text : ℕ → String
  pub advise : List (Candle F) → Ended (Advice F)
  pub webhook : ℕ → Ended (Unit {0})

pub record CryptoAgent (F : Type 0) : Type 0 where
  pub running : Bool
  pub router : Option (Router F)
  pub executor : Option (Executor F)
  pub has_strategy : Bool
  pub has_db : Bool
  pub cooldowns : CooldownState F
  pub mode_state : ModeState F
  pub trailing_stop : TrailingStopTracker F
  pub circuit_breaker : CircuitBreaker F
  pub markets : Dict (MarketInfo F)
  pub portfolio : Option (Portfolio F)
  pub last_tick_ts : Option F
  pub last_error : Option String
  pub last_scores : Dict F
  pub last_balance : Option (Balance F)
  pub price_cache : Dict F
  pub price_history : Dict (List F)
  pub vol_cache : Dict F
  pub session_start_equity : Option F
  pub session_high_equity : Option F
  pub session_low_equity : Option F
  pub kill_switch_triggered : Bool
  pub tick_counter : ℕ
  pub readings : ℕ
  pub audits : List (AuditEntry F)
  pub trades : List (Trade F)
  pub snapshots : List (F × Snapshot F)
  pub alerts : List String

-- A call of the agent
abbrev pub Act : Type 0 → Type 0 → Type 0
Act F = Call (CryptoAgent F)

abbrev pub is_some_of : {A : Type 0} → Option A → Bool
is_some_of none = false
is_some_of (some a) = true

module _ {F : Type 0} where
  abbrev pub audit : AuditEntry F → Act F (Unit {0})
  audit e = modify (λ s. record s { audits = s.audits ++ e ∷ [] })

  abbrev pub put_back : {A : Type 0} → CryptoAgent F → Ended A × Router F → Ended A × CryptoAgent F
  put_back s (answer, r) = (answer, record s { router = some r })

  abbrev pub routed : {A : Type 0} → Option (Router F) → Call (Router F) A → Act F A
  routed none m s = (raised "'NoneType' object has no attribute", s)
  routed (some r) m s = put_back s (m r)

  -- A call on `self.router`
  unfoldable pub with_router : {A : Type 0} → Call (Router F) A → Act F A
  with_router m s = routed s.router m s

  -- What was sent to exchanges so far
  abbrev pub sent_by : Option (Router F) → List (String × OrderIntent F)
  sent_by none = []
  sent_by (some r) = r.sent
