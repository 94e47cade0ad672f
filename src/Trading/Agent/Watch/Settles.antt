-- ===== src/Trading/Agent/Watch/Settles.antt =====
-- The invariants of what follows an order in `_execute_order` (agents/crypto_agent.py): its failure,
-- and the settling of its fills.
use ai_system.Common.{String, List}
use ai_system.Common.Real.{Real}
use ai_system.Common.Effects.{
  Ended, returned, raised, Keeps, Keeps-modify, Keeps-bind, Keeps-then, Keeps-when, Keeps-for_each,
}
use ai_system.Trading.Market.{Side}
use ai_system.Trading.Router.{Fill, Executor}
use ai_system.Trading.Agent.{Config, Host, CryptoAgent}
use ai_system.Trading.Agent.Account.{record_circuit}
use ai_system.Trading.Agent.Orders.{record_risk_reject, order_failed, settle, after_live}
use ai_system.Trading.Agent.Watch.{
  View, Rules, Trades, Watched, read_wall-Keeps, notify-Keeps, add_shadow-Keeps, note-Keeps,
  book-Keeps,
}

module _ {F : Type 0} (R : Real F) (config : Config F) (host : Host F) (Q : View F)
    (rules : Rules config Q) where
  open rules use {on_post}

  abbrev Invariant : CryptoAgent F → Type 0
  Invariant = Watched R config host Q

  module _ (Fit : Executor F → Type 0) (trades : Trades R config Fit Q) where
    open trades use {on_circuit}

    pub record_circuit-Keeps : (key : String) → Keeps Invariant (record_circuit R config host key)
    unfolding record_circuit Watched
    record_circuit-Keeps key =
        Keeps-bind _ _ (read_wall-Keeps R config host Q)
          (λ now. Keeps-modify _ (λ s p. on_circuit _ _ _ _ _ _ p))

    pub record_risk_reject-Keeps : Keeps Invariant (record_risk_reject R config host)
    unfolding record_risk_reject
    record_risk_reject-Keeps =
        Keeps-then _ _ (note-Keeps R config host Q rules _ _) (record_circuit-Keeps "risk")

    order_failed-Keeps : (e : String) → Keeps Invariant (order_failed R config host e)
    unfolding order_failed Watched
    order_failed-Keeps e = Keeps-then _ _ (Keeps-modify _ (λ s p. p)) (
        Keeps-then _ _ (note-Keeps R config host Q rules _ _) (
          Keeps-bind _ _ (read_wall-Keeps R config host Q) (λ now.
            Keeps-then _ _ (Keeps-modify _ (λ s p. p))
              (Keeps-then _ _ (notify-Keeps R config host Q _) (record_circuit-Keeps _)))))

    settle-Keeps :
        (symbol : String) (side : Side) (live_qty price : F) (fill : Fill F)
        → Keeps Invariant (settle R config host symbol side live_qty price fill)
    unfolding settle Watched
    settle-Keeps symbol side live_qty price fill =
        Keeps-then _ _ (book-Keeps R config host Q side symbol _ _ _) (
          Keeps-bind _ _ (read_wall-Keeps R config host Q) (λ now.
            Keeps-then _ _ (Keeps-modify _ (λ s p. p))
              (Keeps-modify _ (λ s p. on_post _ _ _ _ _ symbol side _ _ _ _ p))))

    pub after_live-Keeps :
        (symbol : String) (side : Side) (live_qty shadow_qty price : F)
        (fills : Ended (List (Fill F)))
        → Keeps Invariant (after_live R config host symbol side live_qty shadow_qty price fills)
    after_live-Keeps symbol side live_qty shadow_qty price (raised e) = order_failed-Keeps e
    after_live-Keeps symbol side live_qty shadow_qty price (returned fills) =
        Keeps-then _ _
          (Keeps-when _ _ (λ h. add_shadow-Keeps R config host Q symbol side shadow_qty price))
          (Keeps-for_each _ fills (settle-Keeps symbol side live_qty price))
