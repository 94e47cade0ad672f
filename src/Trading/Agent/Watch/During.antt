-- ===== src/Trading/Agent/Watch/During.antt =====
-- The invariants of an order in `_execute_order` (agents/crypto_agent.py), from its audit entry on:
-- what is sent is a part of what the entry announces.
use ai_system.Common.{
  if◌then◌else◌, ℕ, ◌≤◌, inl, inr, arith, [], ◌∷◌, ◌++◌, ◌≡◌, refl, String, Bool, true, false,
  Option, List, Dict,
}
use ai_system.Common.Real.{Real}
use ai_system.Common.Effects.{
  get, modify, ◌>>=◌, ◌>>◌, Keeps, Keeps-pure, Keeps-modify, Keeps-bind, Keeps-then, Keeps-attempt,
  Keeps-read, Keeps-if,
}
use ai_system.Trading.Market.{Side, OrderIntent}
use ai_system.Trading.Risk.{check_pre_trade}
use ai_system.Trading.Modes.{Mode, shadow, canary, live, other, ModeState, split}
use ai_system.Trading.Router.{Executor}
use ai_system.Trading.Router.Paper.{execute-Keeps, execute_twap-Keeps}
use ai_system.Trading.Agent.{Config, Host, AuditEntry, pre_trade}
use ai_system.Trading.Router.Execution.{slices_of}
use ai_system.Trading.Agent.Orders.{is_shadow, add_shadow, live_order, split_order, order_with}
use ai_system.Trading.Agent.Watch.{
  IsIn, IsIn-append, IsIn-last, IsLivePart, IsPartOf, View, Rules, Trades, Watched,
  with_router-Keeps, add_shadow-Keeps,
}
use ai_system.Trading.Agent.Watch.Settles.{after_live-Keeps}

module _ {F : Type 0} (R : Real F) (host : Host F) where
  some_slices : (seconds : ℕ) → 1 ≤ slices_of R host.exchange 3 seconds
  some_slices seconds = ground arith

  few_slices : (seconds : ℕ) → slices_of R host.exchange 3 seconds ≤ 3
  few_slices seconds = ground arith

split-IsLivePart :
    {F : Type 0} (R : Real F) (qty : F) (m : ModeState F) → IsLivePart R qty (split R qty m).0
unfolding split
split-IsLivePart R qty m = go m.mode refl
  where
    go : (mode : Mode) → m.mode ≡ mode → IsLivePart R qty (split R qty m).0
    go shadow e = inl (rw e refl)
    go canary e = inr (inr (m.canary_fraction, rw e refl))
    go live e = inr (inl (rw e refl))
    go (other t) e = inr (inl (rw e refl))

module _ {F : Type 0} (R : Real F) (config : Config F) (host : Host F) (Q : View F)
    (rules : Rules config Q) where
  module _ (Fit : Executor F → Type 0) (trades : Trades R config Fit Q) where
    open trades use {on_pre, on_circuit, is_fit, on_send}

    -- During the order that an entry announces, the entry is among the audits.
    module _ (symbol : String) (side : Side) (qty price : F) where
      abbrev entry : AuditEntry F
      entry = pre_trade symbol side qty price

      abbrev During : View F
      During b c os x audits = Q b c os x audits × IsIn entry audits

      during-Rules : Rules config During
      during-Rules = record {
        on_note = λ b c os x audits level event q.
            (rules.on_note b c os x audits level event q.0, IsIn-append entry _ audits q.1);
        on_post = λ b c os x audits s d n p fee id q.
            (rules.on_post b c os x audits s d n p fee id q.0, IsIn-append entry _ audits q.1);
        on_halt = λ b c os x audits q. (rules.on_halt b c os x audits q.0, q.1);
        on_executor = λ b c os x audits q. (rules.on_executor b c os x audits q.0, q.1);
      }

      during-Trades : Trades R config Fit During
      during-Trades = record {
        on_pre = λ b c os x audits s d n p exposures total reason ok q. (
          on_pre b c os x audits s d n p exposures total reason ok q.0,
          IsIn-append entry _ audits q.1,
        );
        on_circuit = λ b c c' os x audits q. (on_circuit b c c' os x audits q.0, q.1);
        is_fit = λ b c os x audits q. is_fit b c os x audits q.0;
        on_send = λ b c os x audits ex name o s d n p fit live paper there part q.
            (on_send b c os x audits ex name o s d n p fit live paper there part q.0, q.1);
      }

      live_order-Keeps :
          (ex : Executor F) (live_qty : F) (sliced : Bool)
          → Fit ex
          → is_shadow config.mode ≡ false
          → IsLivePart R qty live_qty
          → Keeps (Watched R config host During) (
              live_order R config host ex
                (record { symbol = symbol; side = side; qty = live_qty })
                sliced)
      unfolding Watched
      live_order-Keeps ex live_qty sliced fit on part =
          Keeps-bind _ _
            (Keeps-if sliced _ _
              (λ h. with_router-Keeps R config host During _ (λ b c x audits.
                execute_twap-Keeps R host.exchange _ ex (IsPartOf R symbol side qty)
                  (sends b c x audits) _ _ _ _
                  (
                    refl,
                    refl,
                    (
                      live_qty,
                      part,
                      inr (
                        slices_of R host.exchange 3 config.twap_seconds,
                        some_slices R host config.twap_seconds,
                        few_slices R host config.twap_seconds,
                        refl,
                      ),
                    ),
                  )))
              (λ h.
                Keeps-bind _ _
                  (with_router-Keeps R config host During _ (λ b c x audits.
                    execute-Keeps R host.exchange _ ex (IsPartOf R symbol side qty)
                      (sends b c x audits) _ _ (refl, refl, (live_qty, part, inl refl))))
                  (λ done. Keeps-pure _)))
            (λ fills.
              Keeps-then _ _ (Keeps-modify _ (λ s p. (on_circuit _ _ _ _ _ _ p.0, p.1)))
                (Keeps-pure fills))
        where
          sends :
              (b c : Bool) (x : Option (Executor F)) (audits : List (AuditEntry F))
              → ex.paper ≡ false
              → (name : String) (o : OrderIntent F) (os : List (String × OrderIntent F))
              → IsPartOf R symbol side qty o
              → During b c os x audits
              → During b c (os ++ (name, o) ∷ []) x audits
          sends b c x audits paper name o os share q = (
            on_send b c os x audits ex name o symbol side qty price fit on paper q.1 share q.0,
            q.1,
          )

      split_order-Keeps :
          (ex : Executor F) (parts : F × F)
          → Fit ex
          → is_shadow config.mode ≡ false
          → IsLivePart R qty parts.0
          → Keeps
              (Watched R config host During)
              (split_order R config host ex symbol side price parts)
      split_order-Keeps ex (live_qty, shadow_qty) fit on part = Keeps-read _ (λ s p.
          Keeps-bind _ _
            (Keeps-if (R.lt (R.lit 0 0) live_qty) _ _
              (λ h. Keeps-attempt _ (live_order-Keeps ex live_qty _ fit on part))
              (λ h. Keeps-pure _))
            (λ fills.
              after_live-Keeps R config host During during-Rules Fit during-Trades symbol side
                live_qty shadow_qty price fills))

      pub order_with-Keeps :
          (ex : Executor F) (exposures : Dict F) (total : F) (reason : String)
          → Fit ex
          → check_pre_trade R symbol price qty config.risk_caps exposures total ≡ (true, reason)
          → Keeps (Watched R config host Q) (order_with R config host ex symbol side qty price)
      unfolding Watched modify ◌>>◌ ◌>>=◌
      order_with-Keeps ex exposures total reason fit ok = record {
        keeps = λ s p.
            (placed.keeps (record s { audits = s.audits ++ entry ∷ [] })
              (
                on_pre _ _ _ _ _ symbol side qty price exposures total reason ok p,
                IsIn-last entry s.audits,
              )).0;
      }
        where
          placed : Keeps (Watched R config host During) (
              get >>= (λ s.
                if is_shadow config.mode
                then add_shadow R config host symbol side qty price
                else split_order R config host ex symbol side price (split R qty s.mode_state)))
          placed = Keeps-read _ (λ s p.
              Keeps-if (is_shadow config.mode) _ _
                (λ h. add_shadow-Keeps R config host During symbol side qty price)
                (λ on.
                  split_order-Keeps ex (split R qty s.mode_state) fit on
                    (split-IsLivePart R qty s.mode_state)))
