-- ===== src/Trading/Router/Paper.antt =====
-- What the router leaves alone: of the calls of adapters/exchange/router.py, oms/execution.py and
-- oms/algos.py only `create_order` sends an order, and a paper executor never calls it.
use ai_system.Common.{
  ℕ, zero, suc, ◌≡◌, String, Bool, true, false, Option, none, some, List, [], ◌∷◌, ◌++◌, lookup,
  keys,
}
use ai_system.Common.Real.{Real, quotient}
use ai_system.Common.Effects.{
  Ended, returned, raised, Call, modify, Keeps, Keeps-pure, Keeps-raise, Keeps-modify, Keeps-bind,
  Keeps-then, Keeps-attempt, Keeps-retry, Keeps-read, Keeps-if, Keeps-for_each,
}
use ai_system.Trading.Market.{Side, OrderIntent}
use ai_system.Trading.Router.{
  Exchange, Router, Executor, Ticker, Fill, VenueState, ask, changed_venue, at_venue, acquired,
  acquire_known, acquire, ask_primary, with_primary, first_name, init, fetch_markets, fetch_ohlcv,
  fetch_balance, or_truthy,
}
use ai_system.Trading.Router.Quotes.{after_ticker, quote_acquired, quotes, winner, best_quote}
use ai_system.Trading.Router.Execution.{
  paper_fill, create_order, execute_at, best_first, all_failed, venue_result, venue_acquired,
  try_venues, execute, execute_slices, slices_of, execute_twap,
}

module _ {F : Type 0} (R : Real F) (X : Exchange F)
    (Q : List (String × OrderIntent F) → Type 0) where
  unfoldable pub Orders : Router F → Type 0
  Orders r = Q r.sent

  pub ask-Keeps : {A : Type 0} (f : ℕ → Ended A) → Keeps Orders (ask R X f)
  unfolding ask Orders
  ask-Keeps f = record { keeps = λ r q. q }

  changed_venue-Orders :
      (f : VenueState F → VenueState F) (name : String) (v : Option (VenueState F)) (r : Router F)
      → Orders r
      → Orders (changed_venue R X f name v r)
  unfolding Orders
  changed_venue-Orders f name none r q = q
  changed_venue-Orders f name (some v) r q = q

  pub at_venue-Keeps :
      (f : VenueState F → VenueState F) (name : String)
      → Keeps Orders (modify (at_venue R X f name))
  at_venue-Keeps f name =
      Keeps-modify _ (λ r q. changed_venue-Orders f name (lookup name r.venues) r q)

  acquired-Keeps :
      (v : Option (Bool × VenueState F)) (name : String) → Keeps Orders (acquired R X v name)
  acquired-Keeps none name = Keeps-raise name
  acquired-Keeps (some (b, v)) name = Keeps-then _ _ (at_venue-Keeps _ name) (Keeps-pure b)

  pub acquire-Keeps : (name : String) → Keeps Orders (acquire R X name)
  unfolding acquire
  acquire-Keeps name =
      Keeps-bind _ _ (ask-Keeps _) (λ t.
        Keeps-read _ (λ r q. acquired-Keeps (acquire_known R X t (lookup name r.venues)) name))

  after_ticker-Keeps :
      (name : String) (t : F) (answer : Ended (Ticker F))
      → Keeps Orders (after_ticker R X name t answer)
  after_ticker-Keeps name t (returned ticker) =
      Keeps-bind _ _ (ask-Keeps _) (λ t1. Keeps-then _ _ (at_venue-Keeps _ name) (Keeps-pure _))
  after_ticker-Keeps name t (raised e) = Keeps-then _ _ (at_venue-Keeps _ name) (Keeps-pure _)

  quote_acquired-Keeps :
      (symbol name : String) (b : Bool) → Keeps Orders (quote_acquired R X symbol name b)
  quote_acquired-Keeps symbol name false = Keeps-pure _
  quote_acquired-Keeps symbol name true = Keeps-bind _ _ (ask-Keeps _) (λ t.
      Keeps-bind _ _ (Keeps-attempt _ (ask-Keeps _)) (λ answer. after_ticker-Keeps name t answer))

  quotes-Keeps : (symbol : String) (names : List String) → Keeps Orders (quotes R X symbol names)
  unfolding quotes
  quotes-Keeps symbol [] = Keeps-pure _
  quotes-Keeps symbol (name ∷ rest) = Keeps-bind _ _ (acquire-Keeps name) (λ b.
      Keeps-bind _ _ (quote_acquired-Keeps symbol name b)
        (λ q. Keeps-bind _ _ (quotes-Keeps symbol rest) (λ qs. Keeps-pure _)))

  winner-Keeps :
      (side : Side) (qs : List (String × Ticker F × F)) → Keeps Orders (winner R X side qs)
  winner-Keeps side [] = Keeps-raise _
  winner-Keeps side (q ∷ qs) = Keeps-pure _

  pub best_quote-Keeps : (symbol : String) (side : Side) → Keeps Orders (best_quote R X symbol side)
  unfolding best_quote
  best_quote-Keeps symbol side =
      Keeps-read _
        (λ r q. Keeps-bind _ _ (quotes-Keeps symbol (keys r.venues)) (λ qs. winner-Keeps side qs))

  ask_primary-Keeps :
      {A : Type 0} (name : Option String) (a : A) (f : String → ℕ → Ended A)
      → Keeps Orders (ask_primary R X name a f)
  ask_primary-Keeps none a f = Keeps-pure a
  ask_primary-Keeps (some name) a f = ask-Keeps _

  with_primary-Keeps :
      {A : Type 0} (a : A) (f : String → ℕ → Ended A) → Keeps Orders (with_primary R X a f)
  with_primary-Keeps a f = Keeps-read _ (λ r q. ask_primary-Keeps (first_name r.venues) a f)

  pub fetch_markets-Keeps : Keeps Orders (fetch_markets R X)
  fetch_markets-Keeps = with_primary-Keeps _ _

  pub fetch_ohlcv-Keeps : (symbol : String) → Keeps Orders (fetch_ohlcv R X symbol)
  fetch_ohlcv-Keeps symbol = with_primary-Keeps _ _

  pub fetch_balance-Keeps : Keeps Orders (fetch_balance R X)
  fetch_balance-Keeps = with_primary-Keeps _ _

  pub init-Keeps : Keeps Orders (init R X)
  unfolding init
  init-Keeps = Keeps-read _ (λ r q. Keeps-for_each _ (keys r.venues) (λ name. ask-Keeps _))

  pub paper_fill-Keeps :
      (ex : Executor F) (intent : OrderIntent F) (bps : ℕ) (quoted : Option F)
      → Keeps Orders (paper_fill R X ex intent bps quoted)
  paper_fill-Keeps ex intent bps none = Keeps-raise _
  paper_fill-Keeps ex intent bps (some x) = Keeps-pure _

  pub all_failed-Keeps : (attempts : List String) → Keeps Orders (all_failed R X attempts)
  unfolding Orders
  all_failed-Keeps attempts = Keeps-then _ _ (Keeps-modify _ (λ r q. q)) (Keeps-raise _)

  -- The orders of an executor that may not send any, or whose sending `Q` allows
  module _ (ex : Executor F) (May : OrderIntent F → Type 0)
      (sends : ex.paper ≡ false
        → (name : String) (intent : OrderIntent F) (os : List (String × OrderIntent F)) → May intent
        → Q os
        → Q (os ++ (name, intent) ∷ [])) where
    create_order-Keeps :
        ex.paper ≡ false
        → (name : String) (intent : OrderIntent F) → May intent
        → Keeps Orders (create_order R X name intent)
    unfolding create_order Orders
    create_order-Keeps live name intent may =
        Keeps-then _ _ (Keeps-modify _ (λ r q. sends live name intent r.sent may q)) (ask-Keeps _)

    execute_at-Keeps :
        (intent : OrderIntent F) (bps : ℕ) (name : String)
        → May intent
        → Keeps Orders (execute_at R X ex intent bps name)
    unfolding execute_at
    execute_at-Keeps intent bps name may =
        Keeps-if ex.paper _ _
          (λ p.
            Keeps-bind _ _ (ask-Keeps _)
              (λ t. paper_fill-Keeps ex intent bps (or_truthy R t.last t.close)))
          (λ live. Keeps-retry 3 _ (create_order-Keeps live name intent may))

    venue_result-Keeps :
        (name : String) (others : List String → Call (Router F) (Fill F × String))
        (attempts : List String) (answer : Ended (Fill F))
        → ((attempts : List String) → Keeps Orders (others attempts))
        → Keeps Orders (venue_result R X name others attempts answer)
    venue_result-Keeps name others attempts (returned fill) h =
        Keeps-then _ _ (at_venue-Keeps _ name) (Keeps-pure _)
    venue_result-Keeps name others attempts (raised e) h =
        Keeps-then _ _ (at_venue-Keeps _ name) (h _)

    venue_acquired-Keeps :
        (intent : OrderIntent F) (bps : ℕ) (name : String)
        (others : List String → Call (Router F) (Fill F × String)) (attempts : List String)
        (free : Bool)
        → May intent
        → ((attempts : List String) → Keeps Orders (others attempts))
        → Keeps Orders (venue_acquired R X ex intent bps name others attempts free)
    venue_acquired-Keeps intent bps name others attempts false may h = h attempts
    venue_acquired-Keeps intent bps name others attempts true may h =
        Keeps-bind _ _ (Keeps-attempt _ (execute_at-Keeps intent bps name may))
          (λ answer. venue_result-Keeps name others attempts answer h)

    try_venues-Keeps :
        (intent : OrderIntent F) (bps : ℕ) (names attempts : List String)
        → May intent
        → Keeps Orders (try_venues R X ex intent bps names attempts)
    unfolding try_venues
    try_venues-Keeps intent bps [] attempts may = all_failed-Keeps attempts
    try_venues-Keeps intent bps (name ∷ rest) attempts may =
        Keeps-bind _ _ (acquire-Keeps name) (λ free.
          venue_acquired-Keeps intent bps name _ attempts free may
            (λ others. try_venues-Keeps intent bps rest others may))

    pub execute-Keeps :
        (intent : OrderIntent F) (bps : ℕ) → May intent → Keeps Orders (execute R X ex intent bps)
    unfolding execute
    execute-Keeps intent bps may = Keeps-read _ (λ r q.
        Keeps-bind _ _ (Keeps-attempt _ (best_quote-Keeps intent.symbol intent.side))
          (λ best. try_venues-Keeps intent bps (best_first R X (keys r.venues) best) [] may))

    execute_slices-Keeps :
        (child : OrderIntent F) (bps n : ℕ)
        → May child
        → Keeps Orders (execute_slices R X ex child bps n)
    unfolding execute_slices
    execute_slices-Keeps child bps zero may = Keeps-pure _
    execute_slices-Keeps child bps (suc n) may =
        Keeps-bind _ _ (execute-Keeps child bps may)
          (λ done. Keeps-bind _ _ (execute_slices-Keeps child bps n may) (λ others. Keeps-pure _))

    pub execute_twap-Keeps :
        (intent : OrderIntent F) (seconds max_slices bps : ℕ)
        → May (record intent {
          qty = quotient R intent.qty (R.lit (slices_of R X max_slices seconds) 0);
        })
        → Keeps Orders (execute_twap R X ex intent seconds max_slices bps)
    unfolding execute_twap
    execute_twap-Keeps intent seconds max_slices bps may = execute_slices-Keeps _ bps _ may
