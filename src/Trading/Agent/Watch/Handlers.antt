-- ===== src/Trading/Agent/Watch/Handlers.antt =====
-- The invariants of orders through `_handle_buy`, `_handle_sell` and `_execute_order`
-- (agents/crypto_agent.py).
use ai_system.Common.{
  ◌≡◌, refl, String, Bool, true, false, Option, none, some, Dict, leb, ◌&&◌, ◌||◌,
}
use ai_system.Common.Real.{Real, fmin, zero_f}
use ai_system.Common.Effects.{Keeps, Keeps-pure, Keeps-bind, Keeps-read, Keeps-if}
use ai_system.Trading.Market.{Side, buy, sell, conform_qty}
use ai_system.Trading.Risk.{check_pre_trade}
use ai_system.Trading.Router.{Executor}
use ai_system.Trading.Agent.{Config, Host, CryptoAgent, is_some_of}
use ai_system.Trading.Agent.Account.{available_cash, position_qty}
use ai_system.Trading.Agent.Orders.{
  order_if, execute_order, buy_qty, is_too_small, checked_order, order_within, buy_sized,
  buy_cooled, handle_buy, sell_sized, sell_cooled, handle_sell,
}
use ai_system.Trading.Agent.Watch.{View, Rules, Trades, Watched, is_cooling-Keeps}
use ai_system.Trading.Agent.Watch.Settles.{record_risk_reject-Keeps}
use ai_system.Trading.Agent.Watch.During.{order_with-Keeps}

module _ {F : Type 0} (R : Real F) (config : Config F) (host : Host F) (Q : View F)
    (rules : Rules config Q) where
  module _ (Fit : Executor F → Type 0) (trades : Trades R config Fit Q) where
    open trades use {is_fit}

    order_if-Keeps :
        (o : Option (Executor F)) (symbol : String) (side : Side) (qty price : F)
        (exposures : Dict F) (total : F) (reason : String)
        → ((ex : Executor F) → o ≡ some ex → Fit ex)
        → check_pre_trade R symbol price qty config.risk_caps exposures total ≡ (true, reason)
        → Keeps (Watched R config host Q) (order_if R config host o symbol side qty price)
    order_if-Keeps none symbol side qty price exposures total reason fit ok = Keeps-pure tt
    order_if-Keeps (some ex) symbol side qty price exposures total reason fit ok =
        order_with-Keeps R config host Q rules Fit trades symbol side qty price ex exposures total
          reason (fit ex refl) ok

    checked_order-Keeps :
        (c : Bool × String) (symbol : String) (side : Side) (qty price : F) (exposures : Dict F)
        (total : F)
        → check_pre_trade R symbol price qty config.risk_caps exposures total ≡ c
        → Keeps (Watched R config host Q) (checked_order R config host c symbol side qty price)
    unfolding execute_order Watched
    checked_order-Keeps (false, reason) symbol side qty price exposures total e =
        record_risk_reject-Keeps R config host Q rules Fit trades
    checked_order-Keeps (true, reason) symbol side qty price exposures total e =
        Keeps-read _ (λ s p.
          Keeps-if (is_some_of s.router) _ _
            (λ h.
              order_if-Keeps s.executor symbol side qty price exposures total reason
                (λ ex x. is_fit _ _ _ _ _ p ex x) e)
            (λ h. Keeps-pure tt))

    order_within-Keeps :
        (symbol : String) (side : Side) (qty price : F) (exposures : Dict F) (total : F)
        → Keeps
            (Watched R config host Q)
            (order_within R config host symbol side qty price exposures total)
    unfolding order_within
    order_within-Keeps symbol side qty price exposures total =
        checked_order-Keeps _ symbol side qty price exposures total refl

    buy_sized-Keeps :
        (symbol : String) (qty price : F) (exposures : Dict F) (total : F) (s : CryptoAgent F)
        → Keeps
            (Watched R config host Q)
            (buy_sized R config host symbol qty price exposures total s)
    buy_sized-Keeps symbol qty price exposures total s =
        Keeps-if (is_too_small R config host symbol qty price s) _ _ (λ h. Keeps-pure tt)
          (λ h. order_within-Keeps symbol buy qty price exposures total)

    buy_cooled-Keeps :
        (symbol : String) (price : F) (volatility : Option F) (exposures : Dict F)
        (total target : F) (cooling : Bool)
        → Keeps
            (Watched R config host Q)
            (buy_cooled R config host symbol price volatility exposures total target cooling)
    buy_cooled-Keeps symbol price volatility exposures total target true = Keeps-pure tt
    buy_cooled-Keeps symbol price volatility exposures total target false = Keeps-read _ (λ s p.
        let budget = fmin R (available_cash R config s) config.risk_caps.max_notional_per_trade in
        Keeps-if
          (R.lt (zero_f R) (position_qty R config symbol s)
            && leb config.max_positions_per_symbol 1)
          _ _ (λ h. Keeps-pure tt)
          (λ h.
            Keeps-if (R.le budget (zero_f R)) _ _ (λ h. Keeps-pure tt)
              (λ h.
                buy_sized-Keeps symbol
                  (buy_qty R config host symbol price volatility budget target s) price exposures
                  total s)))

    pub handle_buy-Keeps :
        (symbol : String) (price : F) (volatility : Option F) (exposures : Dict F)
        (total target : F)
        → Keeps
            (Watched R config host Q)
            (handle_buy R config host symbol price volatility exposures total target)
    unfolding handle_buy
    handle_buy-Keeps symbol price volatility exposures total target =
        Keeps-bind _ _ (is_cooling-Keeps R config host Q symbol buy)
          (buy_cooled-Keeps symbol price volatility exposures total target)

    sell_sized-Keeps :
        (symbol : String) (qty price : F) (exposures : Dict F) (total : F)
        → Keeps
            (Watched R config host Q)
            (sell_sized R config host symbol qty price exposures total)
    sell_sized-Keeps symbol qty price exposures total =
        Keeps-if (R.le qty (zero_f R) || R.le (R.mul qty price) (zero_f R)) _ _ (λ h. Keeps-pure tt)
          (λ h. order_within-Keeps symbol sell qty price exposures total)

    sell_cooled-Keeps :
        (symbol : String) (price held_qty : F) (exposures : Dict F) (total : F) (cooling : Bool)
        → Keeps
            (Watched R config host Q)
            (sell_cooled R config host symbol price held_qty exposures total cooling)
    sell_cooled-Keeps symbol price held_qty exposures total true = Keeps-pure tt
    sell_cooled-Keeps symbol price held_qty exposures total false = Keeps-read _ (λ s p.
        sell_sized-Keeps symbol (conform_qty R symbol held_qty s.markets) price exposures total)

    pub handle_sell-Keeps :
        (symbol : String) (price held_qty : F) (exposures : Dict F) (total : F)
        → Keeps
            (Watched R config host Q)
            (handle_sell R config host symbol price held_qty exposures total)
    unfolding handle_sell
    handle_sell-Keeps symbol price held_qty exposures total =
        Keeps-if (R.le held_qty (zero_f R)) _ _ (λ h. Keeps-pure tt)
          (λ h.
            Keeps-bind _ _ (is_cooling-Keeps R config host Q symbol sell)
              (sell_cooled-Keeps symbol price held_qty exposures total))
