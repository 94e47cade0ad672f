-- ===== src/Trading/Router/Execution.antt =====
-- `Executor.execute` (oms/execution.py), `ExchangeRouter.execute` (adapters/exchange/router.py) and
-- `execute_twap` (oms/algos.py).
use ai_system.Common.{
  ℕ, zero, suc, ◌/◌, String, Bool, true, false, Option, none, some, List, [], ◌∷◌, ◌++◌, min, max,
  eqb, ◌==◌, if◌then◌else◌, keys,
}
use ai_system.Common.Real.{Real, quotient}
use ai_system.Common.Effects.{
  Ended, returned, raised, Call, pure, raise, ◌>>=◌, ◌>>◌, attempt, retry, get, modify,
}
use ai_system.Trading.Market.{Side, is_buy, OrderIntent}
use ai_system.Trading.Router.{
  Exchange, Router, Executor, Ticker, Fill, ask, at_venue, acquire, or_truthy,
}
use ai_system.Trading.Router.Quotes.{best_quote}

-- `ordered.remove(best)`, at the first place
abbrev pub remove_first : String → List String → List String
remove_first x [] = []
remove_first x (y ∷ ys) = if x == y then ys else y ∷ remove_first x ys

-- The pairs of neighbours in a list
abbrev pub neighbours : List String → List (String × String)
neighbours [] = []
neighbours (x ∷ []) = []
neighbours (x ∷ y ∷ rest) = (x, y) ∷ neighbours (y ∷ rest)

module _ {F : Type 0} (R : Real F) (X : Exchange F) where
  open R use {lit, add, sub, mul, lt, le}

  -- `price * (1 + (slippage_bps / 10_000) * (1 if buy else -1))`
  abbrev pub slipped : Side → ℕ → F → F
  slipped side slippage_bps price =
      let part = quotient R (lit slippage_bps 0) (lit 10_000 0) in
      if eqb slippage_bps 0
      then price
      else mul price (if is_buy side then add (lit 1 0) part else sub (lit 1 0) part)

  abbrev pub paper_fill : Executor F → OrderIntent F → ℕ → Option F → Call (Router F) (Fill F)
  paper_fill ex intent slippage_bps none =
      raise "float() argument must be a string or a real number"
  paper_fill ex intent slippage_bps (some quoted) =
      let price = slipped intent.side slippage_bps quoted in
      pure (record {
        filled = some intent.qty;
        price = some price;
        fee = some (mul (mul price intent.qty) ex.fee);
        order_id = some (X.paper_order_id intent.side price);
        venue = none;
      })

  -- `adapter.create_order`
  unfoldable pub create_order : String → OrderIntent F → Call (Router F) (Fill F)
  unfolding ask
  create_order name intent = do
    modify (λ r. record r { sent = r.sent ++ (name, intent) ∷ [] })
    ask R X (λ n. X.create_order n name intent)

  -- `Executor.execute` on the adapter of a venue: its first result is always true.
  unfoldable pub execute_at : Executor F → OrderIntent F → ℕ → String → Call (Router F) (Fill F)
  unfolding create_order ask
  execute_at ex intent slippage_bps name =
      if ex.paper
      then (do
        ticker ← ask R X (λ n. X.fetch_ticker n name intent.symbol)
        paper_fill ex intent slippage_bps (or_truthy R ticker.last ticker.close))
      else retry 3 (create_order name intent)

  -- The venues in the order in which `execute` tries them
  abbrev pub best_first : List String → Ended (String × Ticker F) → List String
  best_first names (raised e) = names
  best_first names (returned q) = q.0 ∷ remove_first q.0 names

  -- `execute` past its loop: no venue has executed the order.
  abbrev pub all_failed : List String → Call (Router F) (Fill F × String)
  all_failed attempts = do
    modify (λ r. record r { failovers = r.failovers ++ neighbours attempts })
    raise "All venues failed to execute order"

  abbrev pub venue_result :
      String
      → (List String → Call (Router F) (Fill F × String))
      → List String
      → Ended (Fill F)
      → Call (Router F) (Fill F × String)
  venue_result name others attempts (returned fill) = do
    modify (at_venue R X (λ v. record v { successes = suc v.successes }) name)
    pure (fill, name)
  venue_result name others attempts (raised e) = do
    modify (at_venue R X (λ v. record v { failures = suc v.failures }) name)
    others (attempts ++ name ∷ [])

  abbrev pub venue_acquired :
      Executor F
      → OrderIntent F
      → ℕ
      → String
      → (List String → Call (Router F) (Fill F × String))
      → List String
      → Bool
      → Call (Router F) (Fill F × String)
  venue_acquired ex intent slippage_bps name others attempts false = others attempts
  venue_acquired ex intent slippage_bps name others attempts true = do
    answer ← attempt (execute_at ex intent slippage_bps name)
    venue_result name others attempts answer

  -- The loop of `execute`, with the venues that have raised so far
  unfoldable pub try_venues :
      Executor F → OrderIntent F → ℕ → List String → List String → Call (Router F) (Fill F × String)
  unfolding acquire execute_at
  try_venues ex intent slippage_bps [] attempts = all_failed attempts
  try_venues ex intent slippage_bps (name ∷ rest) attempts = do
    free ← acquire R X name
    venue_acquired ex intent slippage_bps name (try_venues ex intent slippage_bps rest) attempts
        free

  -- `ExchangeRouter.execute`
  unfoldable pub execute : Executor F → OrderIntent F → ℕ → Call (Router F) (Fill F × String)
  unfolding best_quote try_venues
  execute ex intent slippage_bps = do
    r ← get
    best ← attempt (best_quote R X intent.symbol intent.side)
    try_venues ex intent slippage_bps (best_first (keys r.venues) best) []

  abbrev pub with_venue : Fill F → String → Fill F
  with_venue fill name = record fill { venue = some name }

  -- The loop of `execute_twap`, with so many slices to go
  unfoldable pub execute_slices :
      Executor F → OrderIntent F → ℕ → ℕ → Call (Router F) (List (Fill F))
  unfolding execute
  execute_slices ex child slippage_bps zero = pure []
  execute_slices ex child slippage_bps (suc n) = do
    done ← execute ex child slippage_bps
    others ← execute_slices ex child slippage_bps n
    pure (with_venue done.0 done.1 ∷ others)

  -- `slices` of `execute_twap`
  abbrev pub slices_of : ℕ → ℕ → ℕ
  slices_of max_slices seconds = max 1 (min max_slices (max (seconds / 5) 1))

  -- `execute_twap`
  unfoldable pub execute_twap :
      Executor F → OrderIntent F → ℕ → ℕ → ℕ → Call (Router F) (List (Fill F))
  unfolding execute_slices
  execute_twap ex intent seconds max_slices slippage_bps =
      let slices = slices_of max_slices seconds in
      execute_slices ex (record intent { qty = quotient R intent.qty (lit slices 0) }) slippage_bps
        slices
