-- ===== src/Trading/Router.antt =====
-- The router over exchanges (adapters/exchange/router.py): its venues with their token buckets, and
-- its calls of the first one. The children have its quotes and its execution of orders. What an exchange answers and what a clock reads is the
-- parameter `Exchange`, as a function of the number of the call, so that every call may have
-- another answer. `sent` are the orders that were sent to an exchange, in their order.
pub mod Quotes
pub mod Execution
pub mod Paper
pub mod Quoted
pub mod Counts
pub mod Sends
mod Tests
use ai_system.Common.{
  ℕ, zero, suc, ◌+◌, ◌-◌, ◌/◌, ◌≡◌, String, Bool, true, false, ◌||◌, ltb, Option, none, some, List,
  [], ◌∷◌, ◌++◌, map, min, max, eqb, ◌==◌, if◌then◌else◌, Dict, lookup, insert, keys, keep_if,
}
use ai_system.Common.Real.{Real, fmin, zero_f, quotient}
use ai_system.Common.Effects.{
  Ended, returned, raised, Call, pure, raise, ◌>>=◌, ◌>>◌, catch, attempt, retry, get, modify, when,
  for_each,
}
use ai_system.Trading.Market.{Side, is_buy, OrderIntent, MarketInfo}
use ai_system.Trading.Quality.{Candle}

pub record VenueState (F : Type 0) : Type 0 where
  pub rate_limit_per_min : ℕ
  pub tokens : F
  pub last_refill : F
  pub success_latency_ms : F
  pub failures : ℕ
  pub successes : ℕ

-- What the code reads of a ticker.
pub record Ticker (F : Type 0) : Type 0 where
  pub last : Option F
  pub close : Option F

-- What the code reads of the answer to an order.
pub record Fill (F : Type 0) : Type 0 where
  pub filled : Option F
  pub price : Option F
  pub fee : Option F
  pub order_id : Option String
  pub venue : Option String

-- What the code reads of a balance; none where the entry is absent or no dictionary.
pub record Balance (F : Type 0) : Type 0 where
  pub free : Option (Dict F)
  pub total : Option (Dict F)

-- The adapters, by the name of their venue, the clock, and the text of a paper order's id.
pub record Exchange (F : Type 0) : Type 0 where
  pub start : ℕ → String → Ended (Unit {0})
  pub fetch_markets : ℕ → String → Ended (Dict (MarketInfo F))
  pub fetch_ohlcv : ℕ → String → String → Ended (List (Candle F))
  pub fetch_ticker : ℕ → String → String → Ended (Ticker F)
  pub fetch_balance : ℕ → String → Ended (Balance F)
  pub create_order : ℕ → String → OrderIntent F → Ended (Fill F)
  pub clock : ℕ → F
  pub paper_order_id : Side → F → String

pub record Router (F : Type 0) : Type 0 where
  pub venues : Dict (VenueState F)
  pub calls : ℕ
  pub sent : List (String × OrderIntent F)
  pub failovers : List (String × String)

-- `Executor`
pub record Executor (F : Type 0) : Type 0 where
  pub paper : Bool
  pub fee : F

-- `self.primary`
abbrev pub first_name : {V : Type 0} → Dict V → Option String
first_name [] = none
first_name ((name, v) ∷ rest) = some name

module _ {F : Type 0} (R : Real F) where
  open R use {lit, add, sub, mul, lt, le, is_zero}

  -- `a or b`
  abbrev pub or_truthy : Option F → Option F → Option F
  or_truthy none other = other
  or_truthy (some x) other = if is_zero x then other else some x

  abbrev pub refilled : F → VenueState F → VenueState F
  refilled now v =
      let refill =
        mul (quotient R (lit v.rate_limit_per_min 0) (lit 60 0)) (sub now v.last_refill) in
      if lt (zero_f R) refill
      then record v {
        tokens = fmin R (lit v.rate_limit_per_min 0) (add v.tokens refill);
        last_refill = now;
      }
      else v

  abbrev pub take_token : VenueState F → Bool × VenueState F
  take_token v =
      if le (lit 1 0) v.tokens
      then (true, record v { tokens = sub v.tokens (lit 1 0) })
      else (false, v)

  -- `VenueState.acquire`, at the time `now`
  unfoldable pub acquire_at : F → VenueState F → Bool × VenueState F
  acquire_at now v = take_token (refilled now v)

  -- `VenueState.healthy`
  abbrev pub healthy : VenueState F → Bool
  healthy v = ltb v.failures 5 || ltb 0 v.successes

  module _ (X : Exchange F) where
    -- A call of an adapter or of the clock
    unfoldable pub ask : {A : Type 0} → (ℕ → Ended A) → Call (Router F) A
    ask f r = (f r.calls, record r { calls = suc r.calls })

    abbrev pub now : Call (Router F) F
    now = ask (λ n. returned (X.clock n))

    abbrev pub changed_venue :
        (VenueState F → VenueState F) → String → Option (VenueState F) → Router F → Router F
    changed_venue f name none r = r
    changed_venue f name (some v) r = record r { venues = insert name (f v) r.venues }

    -- A change of the state of a venue, if there is such a venue
    abbrev pub at_venue : (VenueState F → VenueState F) → String → Router F → Router F
    at_venue f name r = changed_venue f name (lookup name r.venues) r

    abbrev pub acquired : Option (Bool × VenueState F) → String → Call (Router F) Bool
    acquired none name = raise name
    acquired (some (b, v)) name = do modify (at_venue (λ _. v) name); pure b

    abbrev pub acquire_known : F → Option (VenueState F) → Option (Bool × VenueState F)
    acquire_known t none = none
    acquire_known t (some v) = some (acquire_at t v)

    -- `venue.acquire()`
    unfoldable pub acquire : String → Call (Router F) Bool
    unfolding ask
    acquire name = do t ← now; r ← get; acquired (acquire_known t (lookup name r.venues)) name

    abbrev pub ask_primary :
        {A : Type 0} → Option String → A → (String → ℕ → Ended A) → Call (Router F) A
    ask_primary none empty f = pure empty
    ask_primary (some name) empty f = ask (f name)

    abbrev pub with_primary : {A : Type 0} → A → (String → ℕ → Ended A) → Call (Router F) A
    with_primary empty f = do r ← get; ask_primary (first_name r.venues) empty f

    -- `fetch_markets`, `fetch_ohlcv` and `fetch_balance`
    abbrev pub fetch_markets : Call (Router F) (Dict (MarketInfo F))
    fetch_markets = with_primary [] (λ name n. X.fetch_markets n name)

    abbrev pub fetch_ohlcv : String → Call (Router F) (List (Candle F))
    fetch_ohlcv symbol = with_primary [] (λ name n. X.fetch_ohlcv n name symbol)

    abbrev pub fetch_balance : Call (Router F) (Balance F)
    fetch_balance =
        with_primary (record { free = none; total = none }) (λ name n. X.fetch_balance n name)

    -- `init` of every venue
    unfoldable pub init : Call (Router F) (Unit {0})
    unfolding ask
    init = do r ← get; for_each (λ name. ask (λ n. X.start n name)) (keys r.venues)

    -- The latencies of `health_snapshot`
    abbrev pub latencies : Dict (VenueState F) → List F
    latencies [] = []
    latencies ((name, v) ∷ rest) = v.success_latency_ms ∷ latencies rest

    -- `ExchangeRouter.__init__`, at the time of its clock
    abbrev pub new_venues : List String → F → Dict (VenueState F) → Dict (VenueState F)
    new_venues [] t d = d
    new_venues (name ∷ rest) t d = new_venues rest t (
        insert name
          (record {
            rate_limit_per_min = 120;
            tokens = lit 120 0;
            last_refill = t;
            success_latency_ms = zero_f R;
            failures = 0;
            successes = 0;
          })
          d)
