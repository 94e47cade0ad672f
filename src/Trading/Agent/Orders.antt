-- ===== src/Trading/Agent/Orders.antt =====
-- The orders of the agent: `_handle_buy`, `_handle_sell` and `_execute_order`.
use ai_system.Common.{
  ℕ, suc, String, Bool, true, false, not, ◌&&◌, ◌||◌, Option, none, some, List, [], ◌∷◌, ◌++◌, ltb,
  leb, if◌then◌else◌, Dict,
}
use ai_system.Common.Real.{Real, fmin, fmax, zero_f, quotient}
use ai_system.Common.Effects.{
  Ended, returned, raised, pure, ◌>>=◌, ◌>>◌, attempt, modify, get, when, for_each,
}
use ai_system.Trading.Market.{Side, buy, sell, OrderIntent, conform_qty, min_notional}
use ai_system.Trading.Risk.{check_pre_trade, too_soon, dynamic_notional_cap, or_default}
use ai_system.Trading.Portfolio as Portfolio
use ai_system.Trading.Portfolio.{Portfolio}
use ai_system.Trading.Modes.{
  Mode, shadow, canary, live, other, record_shadow, split, record_error, reset,
}
use ai_system.Trading.Router.{Fill, Router, Executor, latencies}
use ai_system.Trading.Router.Execution.{execute, execute_twap, with_venue}
use ai_system.Trading.Agent.{
  Config, Host, CryptoAgent, Act, note, pre_trade, post_trade, audit, with_router, is_some_of,
}
use ai_system.Trading.Agent.Account.{
  position_qty, available_cash, read_wall, record_circuit, paper_portfolio,
}

abbrev pub is_shadow : Mode → Bool
is_shadow shadow = true
is_shadow canary = false
is_shadow live = false
is_shadow (other t) = false

module _ {F : Type 0} (R : Real F) (config : Config F) (host : Host F) where
  open R use {lit, mul, lt, le, is_zero}

  -- `_record_risk_reject`
  unfoldable pub record_risk_reject : Act F (Unit {0})
  unfolding record_circuit
  record_risk_reject = do audit (note "warning" "risk_reject"); record_circuit R config host "risk"

  -- `if self.webhook_url: await notify_webhook(...)`, which may raise
  unfoldable pub notify : String → Act F (Unit {0})
  notify event =
      if config.has_webhook
      then (λ s. (
        host.webhook s.readings,
        record s { readings = suc s.readings; alerts = s.alerts ++ event ∷ [] },
      ))
      else pure tt

  abbrev pub add_shadow : String → Side → F → F → Act F (Unit {0})
  add_shadow symbol side qty price = do
    now ← read_wall R config host
    modify (λ s. record s {
      mode_state =
          record_shadow R
            (record { ts = now; symbol = symbol; side = side; qty = qty; price = price })
            s.mode_state;
    })

  abbrev pub is_slow : ℕ → List F → Bool
  is_slow limit [] = false
  is_slow limit (l ∷ ls) = if lt (lit limit 0) l then true else is_slow limit ls

  abbrev pub router_latencies : Option (Router F) → List F
  router_latencies none = []
  router_latencies (some r) = latencies R host.exchange r.venues

  -- Whether the live part is large enough for slices
  abbrev pub is_sliced : String → F → F → CryptoAgent F → Bool
  is_sliced symbol live_qty price s =
      ltb 5 config.twap_seconds
      && lt (mul (min_notional R symbol s.markets) (lit 2 0)) (mul live_qty price)
      && not (is_slow config.max_latency_ms (router_latencies s.router))

  -- The `try` of `_execute_order`
  abbrev pub live_order : Executor F → OrderIntent F → Bool → Act F (List (Fill F))
  live_order ex intent sliced = do
    fills ←
        (if sliced
          then with_router
              (execute_twap R host.exchange ex intent config.twap_seconds 3 config.slippage_bps)
          else (do
            done ← with_router (execute R host.exchange ex intent config.slippage_bps)
            pure (with_venue R host.exchange done.0 done.1 ∷ [])))
    modify (λ s. record s { circuit_breaker = reset R s.circuit_breaker })
    pure fills

  -- The `except` of `_execute_order`
  unfoldable pub order_failed : String → Act F (Unit {0})
  unfolding notify record_circuit
  order_failed e = do
    modify (λ s. record s { last_error = some e })
    audit (note "error" "order_error")
    now ← read_wall R config host
    modify (λ s. record s { mode_state = record_error R now s.mode_state })
    notify "order_error"
    record_circuit R config host "execution"

  abbrev pub put_portfolio :
      CryptoAgent F → Ended (Unit {0}) × Portfolio F → Ended (Unit {0}) × CryptoAgent F
  put_portfolio s (answer, p) = (answer, record s { portfolio = some p })

  abbrev pub book_in : Option (Portfolio F) → Side → String → F → F → F → Act F (Unit {0})
  book_in none side symbol filled price fee s = (returned tt, s)
  book_in (some p) buy symbol filled price fee s =
      put_portfolio s (Portfolio.buy R symbol filled price fee p)
  book_in (some p) sell symbol filled price fee s =
      put_portfolio s (Portfolio.sell R symbol filled price fee p)

  -- The paper portfolio after a fill
  unfoldable pub book : Side → String → F → F → F → Act F (Unit {0})
  book side symbol filled price fee s =
      book_in (paper_portfolio R config s) side symbol filled price fee s

  -- The loop over the responses of `_execute_order`
  unfoldable pub settle : String → Side → F → F → Fill F → Act F (Unit {0})
  unfolding book
  settle symbol side live_qty price fill = do
    let filled = or_default live_qty fill.filled
    let price_used = or_default price fill.price
    let fee = or_default (zero_f R) fill.fee
    let order_id = or_default "unknown" fill.order_id
    book side symbol filled price_used fee
    now ← read_wall R config host
    modify (λ s. record s {
      trades =
          s.trades
          ++ record {
            ts = now;
            symbol = symbol;
            side = side;
            qty = filled;
            price = price_used;
            fee = fee;
            order_id = order_id;
            paper = config.paper_mode;
          }
            ∷ [];
    })
    audit (post_trade symbol side filled price_used fee order_id)

  -- `_execute_order` after its `try`
  abbrev pub after_live : String → Side → F → F → F → Ended (List (Fill F)) → Act F (Unit {0})
  after_live symbol side live_qty shadow_qty price (raised e) = order_failed e
  after_live symbol side live_qty shadow_qty price (returned fills) = do
    when (lt (zero_f R) shadow_qty) (add_shadow symbol side shadow_qty price)
    for_each (settle symbol side live_qty price) fills

  abbrev pub split_order : Executor F → String → Side → F → F × F → Act F (Unit {0})
  split_order ex symbol side price (live_qty, shadow_qty) = do
    s ← get
    fills ←
        (if lt (zero_f R) live_qty
          then attempt (
              live_order ex (record { symbol = symbol; side = side; qty = live_qty })
                (is_sliced symbol live_qty price s))
          else pure (returned []))
    after_live symbol side live_qty shadow_qty price fills

  abbrev pub order_with : Executor F → String → Side → F → F → Act F (Unit {0})
  order_with ex symbol side qty price = do
    audit (pre_trade symbol side qty price)
    s ← get
    if is_shadow config.mode
        then add_shadow symbol side qty price
        else split_order ex symbol side price (split R qty s.mode_state)

  abbrev pub order_if : Option (Executor F) → String → Side → F → F → Act F (Unit {0})
  order_if none symbol side qty price = pure tt
  order_if (some ex) symbol side qty price = order_with ex symbol side qty price

  -- `_execute_order`; the executor is there exactly when the router is.
  unfoldable pub execute_order : String → Side → F → F → Act F (Unit {0})
  unfolding order_failed settle
  execute_order symbol side qty price = do
    s ← get
    if is_some_of s.router then order_if s.executor symbol side qty price else pure tt

  -- `self.cooldowns.too_soon(symbol, side, self.cooldown_cfg)`
  unfoldable pub is_cooling : String → Side → Act F Bool
  is_cooling symbol side = do
    now ← read_wall R config host
    s ← get
    let answer = too_soon R symbol side config.duplicate_cooldown_seconds now s.cooldowns
    modify (λ s. record s { cooldowns = answer.1 })
    pure answer.0

  -- The end of both handlers: the check of the limits, and the order
  abbrev pub checked_order : Bool × String → String → Side → F → F → Act F (Unit {0})
  checked_order (false, reason) symbol side qty price = record_risk_reject
  checked_order (true, reason) symbol side qty price = execute_order symbol side qty price

  unfoldable pub order_within : String → Side → F → F → Dict F → F → Act F (Unit {0})
  unfolding execute_order record_risk_reject
  order_within symbol side qty price exposures total_exposure =
      checked_order (check_pre_trade R symbol price qty config.risk_caps exposures total_exposure)
        symbol side qty price

  -- The quantity that `_handle_buy` orders for a budget
  abbrev pub buy_qty : String → F → Option F → F → F → CryptoAgent F → F
  buy_qty symbol price volatility budget target s =
      let cap = dynamic_notional_cap R (or_default (lit 2 1) volatility) config.risk_caps target in
      let notional = fmin R budget cap in
      conform_qty R symbol (if is_zero price then zero_f R else quotient R notional price) s.markets

  abbrev pub is_too_small : String → F → F → CryptoAgent F → Bool
  is_too_small symbol qty price s =
      le qty (zero_f R)
      || le (mul qty price) (zero_f R)
      || lt (mul qty price) (fmax R (min_notional R symbol s.markets) (zero_f R))

  abbrev pub buy_sized : String → F → F → Dict F → F → CryptoAgent F → Act F (Unit {0})
  buy_sized symbol qty price exposures total_exposure s =
      if is_too_small symbol qty price s
      then pure tt
      else order_within symbol buy qty price exposures total_exposure

  abbrev pub buy_cooled : String → F → Option F → Dict F → F → F → Bool → Act F (Unit {0})
  buy_cooled symbol price volatility exposures total_exposure target true = pure tt
  buy_cooled symbol price volatility exposures total_exposure target false = do
    s ← get
    let budget = fmin R (available_cash R config s) config.risk_caps.max_notional_per_trade
    if lt (zero_f R) (position_qty R config symbol s) && leb config.max_positions_per_symbol 1
        then pure tt
        else if le budget (zero_f R)
        then pure tt
        else buy_sized symbol (buy_qty symbol price volatility budget target s) price exposures
            total_exposure s

  -- `_handle_buy`, for the volatility among its features
  unfoldable pub handle_buy : String → F → Option F → Dict F → F → F → Act F (Unit {0})
  unfolding is_cooling order_within
  handle_buy symbol price volatility exposures total_exposure target = do
    cooling ← is_cooling symbol buy
    buy_cooled symbol price volatility exposures total_exposure target cooling

  abbrev pub sell_sized : String → F → F → Dict F → F → Act F (Unit {0})
  sell_sized symbol qty price exposures total_exposure =
      if le qty (zero_f R) || le (mul qty price) (zero_f R)
      then pure tt
      else order_within symbol sell qty price exposures total_exposure

  abbrev pub sell_cooled : String → F → F → Dict F → F → Bool → Act F (Unit {0})
  sell_cooled symbol price held_qty exposures total_exposure true = pure tt
  sell_cooled symbol price held_qty exposures total_exposure false = do
    s ← get
    sell_sized symbol (conform_qty R symbol held_qty s.markets) price exposures total_exposure

  -- `_handle_sell`
  unfoldable pub handle_sell : String → F → F → Dict F → F → Act F (Unit {0})
  unfolding is_cooling order_within
  handle_sell symbol price held_qty exposures total_exposure =
      if le held_qty (zero_f R) then pure tt else (do
        cooling ← is_cooling symbol sell
        sell_cooled symbol price held_qty exposures total_exposure cooling)
