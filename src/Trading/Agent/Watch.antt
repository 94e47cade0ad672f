-- ===== src/Trading/Agent/Watch.antt =====
-- The calls of agents/crypto_agent.py and what they do not touch: a predicate on whether the agent
-- runs, on the orders sent, on the executor and on the audits goes through every order when it goes
-- through the few changes of these that `Rules` and `Trades` name.
pub mod Settles
pub mod During
pub mod Handlers
pub mod Ticks
pub mod Starts
use ai_system.Common.{
  ℕ, ◌≡◌, refl, String, Bool, true, false, Option, none, some, List, [], ◌∷◌, ◌++◌, Dict, leb, ◌&&◌,
  ◌||◌, ◌⊎◌, ◌≤◌, inl, inr, if◌then◌else◌,
}
use ai_system.Common.Real.{Real, fmin, fmax, quotient, zero_f}
use ai_system.Common.Effects.{
  Ended, returned, raised, Call, Keeps, Keeps-pure, Keeps-raise, Keeps-modify, Keeps-bind,
  Keeps-then, Keeps-attempt, Keeps-read, Keeps-if, Keeps-when, Keeps-for_each,
}
use ai_system.Trading.Market.{Side, buy, sell, OrderIntent, conform_qty}
use ai_system.Trading.Risk.{check_pre_trade}
use ai_system.Trading.Portfolio as Portfolio
use ai_system.Trading.Portfolio.{Portfolio}
use ai_system.Trading.Modes.{split}
use ai_system.Trading.Router.{Exchange, Fill, Router, Executor}
use ai_system.Trading.Router.Paper.{Orders, execute-Keeps, execute_twap-Keeps}
use ai_system.Trading.Agent.{
  Config, Host, CryptoAgent, AuditEntry, note, pre_trade, post_trade, audit, put_back, routed,
  with_router, sent_by, is_some_of,
}
use ai_system.Trading.Agent.Account.{
  read_wall, record_circuit, paper_portfolio, available_cash, position_qty,
}
use ai_system.Trading.Agent.Orders.{
  is_shadow, record_risk_reject, notify, add_shadow, live_order, order_failed, put_portfolio,
  book_in, book, settle, after_live, split_order, order_with, order_if, execute_order, is_cooling,
  buy_qty, is_too_small, checked_order, order_within, buy_sized, buy_cooled, handle_buy, sell_sized,
  sell_cooled, handle_sell, is_sliced,
}

abbrev pub View : Type 0 → Type 1
View F =
    (is_running is_tripped : Bool)
    → List (String × OrderIntent F)
    → Option (Executor F)
    → List (AuditEntry F)
    → Type 0

module _ {F : Type 0} where
  -- An entry is among the audits.
  abbrev pub IsIn : AuditEntry F → List (AuditEntry F) → Type 0
  IsIn e [] = ⊥
  IsIn e (x ∷ xs) = (x ≡ e) ⊎ IsIn e xs

  pub IsIn-append :
      (e x : AuditEntry F) (xs : List (AuditEntry F)) → IsIn e xs → IsIn e (xs ++ x ∷ [])
  IsIn-append e x [] h = absurd h
  IsIn-append e x (y ∷ xs) (inl h) = inl h
  IsIn-append e x (y ∷ xs) (inr h) = inr (IsIn-append e x xs h)

  pub IsIn-last : (e : AuditEntry F) (xs : List (AuditEntry F)) → IsIn e (xs ++ e ∷ [])
  IsIn-last e [] = inl refl
  IsIn-last e (y ∷ xs) = inr (IsIn-last e xs)

module _ {F : Type 0} (R : Real F) where
  open R use {lit, mul}

  -- The live part of a quantity: nothing, all of it, or a part by a factor between 0 and 1
  abbrev pub IsLivePart : F → F → Type 0
  IsLivePart qty live =
      (live ≡ zero_f R)
      ⊎ ((live ≡ qty) ⊎ ((f : F) × (live ≡ mul qty (fmax R (zero_f R) (fmin R (lit 1 0) f)))))

  -- An order for the live part of a quantity, or for one of at most three equal slices of it
  abbrev pub IsPartOf : String → Side → F → OrderIntent F → Type 0
  IsPartOf symbol side qty o =
      (o.symbol ≡ symbol)
      × (o.side ≡ side)
      × ((live : F) × IsLivePart qty live
          × ((o.qty ≡ live) ⊎ ((n : ℕ) × (1 ≤ n) × (n ≤ 3) × (o.qty ≡ quotient R live (lit n 0)))))

-- What goes through the changes of an agent that sends no order
pub record Rules {F : Type 0} (config : Config F) (Q : View F) : Type 0 where
  pub on_note :
      (b c : Bool) (os : List (String × OrderIntent F)) (x : Option (Executor F))
      (audits : List (AuditEntry F)) (level event : String)
      → Q b c os x audits
      → Q b c os x (audits ++ note level event ∷ [])
  pub on_post :
      (b c : Bool) (os : List (String × OrderIntent F)) (x : Option (Executor F))
      (audits : List (AuditEntry F)) (symbol : String) (side : Side) (qty price fee : F)
      (id : String)
      → Q b c os x audits
      → Q b c os x (audits ++ post_trade symbol side qty price fee id ∷ [])
  pub on_halt :
      (b c : Bool) (os : List (String × OrderIntent F)) (x : Option (Executor F))
      (audits : List (AuditEntry F))
      → Q b c os x audits
      → Q false c os x audits
  pub on_executor :
      (b c : Bool) (os : List (String × OrderIntent F)) (x : Option (Executor F))
      (audits : List (AuditEntry F))
      → Q b c os x audits
      → Q b c os (some (record { paper = config.paper_mode; fee = config.fee })) audits

-- What goes through an order; `Fit` is what its executor is known to be.
pub record Trades {F : Type 0} (R : Real F) (config : Config F) (Fit : Executor F → Type 0)
    (Q : View F) : Type 0 where
  pub on_pre :
      (b c : Bool) (os : List (String × OrderIntent F)) (x : Option (Executor F))
      (audits : List (AuditEntry F)) (symbol : String) (side : Side) (qty price : F)
      (exposures : Dict F) (total : F) (reason : String)
      → check_pre_trade R symbol price qty config.risk_caps exposures total ≡ (true, reason)
      → Q b c os x audits
      → Q b c os x (audits ++ pre_trade symbol side qty price ∷ [])
  pub on_circuit :
      (b c c' : Bool) (os : List (String × OrderIntent F)) (x : Option (Executor F))
      (audits : List (AuditEntry F))
      → Q b c os x audits
      → Q b c' os x audits
  pub is_fit :
      (b c : Bool) (os : List (String × OrderIntent F)) (x : Option (Executor F))
      (audits : List (AuditEntry F))
      → Q b c os x audits
      → (ex : Executor F) → x ≡ some ex
      → Fit ex
  pub on_send :
      (b c : Bool) (os : List (String × OrderIntent F)) (x : Option (Executor F))
      (audits : List (AuditEntry F)) (ex : Executor F) (name : String) (o : OrderIntent F)
      (symbol : String) (side : Side) (qty price : F)
      → Fit ex
      → is_shadow config.mode ≡ false
      → ex.paper ≡ false
      → IsIn (pre_trade symbol side qty price) audits
      → IsPartOf R symbol side qty o
      → Q b c os x audits
      → Q b c (os ++ (name, o) ∷ []) x audits

module _ {F : Type 0} (R : Real F) (config : Config F) (host : Host F) (Q : View F) where
  unfoldable pub Watched : CryptoAgent F → Type 0
  Watched s = Q s.running s.circuit_breaker.tripped (sent_by s.router) s.executor s.audits

  routed-Watched :
      {A : Type 0} (m : Call (Router F) A)
      → ((b c : Bool) (x : Option (Executor F)) (audits : List (AuditEntry F))
          → Keeps (Orders R host.exchange (λ os. Q b c os x audits)) m)
      → (o : Option (Router F)) (s : CryptoAgent F) → Watched s
      → Q s.running s.circuit_breaker.tripped (sent_by o) s.executor s.audits
      → Watched (routed o m s).1
  unfolding Watched Orders
  routed-Watched m h none s p q = p
  routed-Watched m h (some r) s p q =
      (h s.running s.circuit_breaker.tripped s.executor s.audits).keeps r q

  pub with_router-Keeps :
      {A : Type 0} (m : Call (Router F) A)
      → ((b c : Bool) (x : Option (Executor F)) (audits : List (AuditEntry F))
          → Keeps (Orders R host.exchange (λ os. Q b c os x audits)) m)
      → Keeps Watched (with_router m)
  unfolding with_router Watched
  with_router-Keeps m h = record { keeps = λ s p. routed-Watched m h s.router s p p }

  pub read_wall-Keeps : Keeps Watched (read_wall R config host)
  unfolding Watched
  read_wall-Keeps = record { keeps = λ s p. p }

  pub notify-Keeps : (event : String) → Keeps Watched (notify R config host event)
  unfolding notify Watched
  notify-Keeps event =
      Keeps-if config.has_webhook _ _ (λ h. record { keeps = λ s p. p }) (λ h. Keeps-pure tt)

  pub add_shadow-Keeps :
      (symbol : String) (side : Side) (qty price : F)
      → Keeps Watched (add_shadow R config host symbol side qty price)
  unfolding Watched
  add_shadow-Keeps symbol side qty price =
      Keeps-bind _ _ read_wall-Keeps (λ now. Keeps-modify _ (λ s p. p))

  book_in-Watched :
      (o : Option (Portfolio F)) (side : Side) (symbol : String) (filled price fee : F)
      (s : CryptoAgent F)
      → Watched s
      → Watched (book_in R config host o side symbol filled price fee s).1
  unfolding Watched
  book_in-Watched none side symbol filled price fee s p = p
  book_in-Watched (some f) buy symbol filled price fee s p = p
  book_in-Watched (some f) sell symbol filled price fee s p = p

  pub book-Keeps :
      (side : Side) (symbol : String) (filled price fee : F)
      → Keeps Watched (book R config host side symbol filled price fee)
  unfolding book
  book-Keeps side symbol filled price fee = record {
    keeps = λ s p. book_in-Watched (paper_portfolio R config s) side symbol filled price fee s p;
  }

  pub is_cooling-Keeps :
      (symbol : String) (side : Side) → Keeps Watched (is_cooling R config host symbol side)
  unfolding is_cooling Watched
  is_cooling-Keeps symbol side =
      Keeps-bind _ _ read_wall-Keeps
        (λ now. Keeps-read _ (λ s q. Keeps-then _ _ (Keeps-modify _ (λ s p. p)) (Keeps-pure _)))

  module _ (rules : Rules config Q) where
    open rules use {on_note}

    pub note-Keeps : (level event : String) → Keeps Watched (audit (note level event))
    unfolding Watched
    note-Keeps level event = Keeps-modify _ (λ s p. on_note _ _ _ _ _ level event p)
