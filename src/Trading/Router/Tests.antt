-- ===== src/Trading/Router/Tests.antt =====
-- A router over two venues that refuse every order, and the bound at this router.
use ai_system.Common.{
  if◌then◌else◌, false, ℕ, ◌+◌, ◌≤◌, ◌≡◌, refl, [], ◌∷◌, none, some, length, keys, insert, lookup,
}
use ai_system.Common.Real.{decimal}
use ai_system.Common.Effects.{
  returned, raised, pure, raise, ◌>>=◌, ◌>>◌, catch, attempt, retry, get, modify,
}
use ai_system.Trading.Market.{buy, OrderIntent}
use ai_system.Trading.Router.{Exchange, Router, Executor, VenueState, acquire_at, ask, acquire}
use ai_system.Trading.Router.Quotes.{quotes, best_quote}
use ai_system.Trading.Router.Execution.{create_order, execute_at, try_venues, execute}
use ai_system.Trading.Router.Counts.{sent_to}
use ai_system.Trading.Router.Sends.{execute_bound}
use ai_system.Trading.Router.Quoted.{is_in}

abbrev refusing : Exchange ℕ
refusing = record {
  start = λ n name. returned tt;
  fetch_markets = λ n name. returned [];
  fetch_ohlcv = λ n name symbol. returned [];
  fetch_ticker = λ n name symbol. returned (record { last = some 20_000; close = none });
  fetch_balance = λ n name. raised "no balance";
  create_order = λ n name intent. raised "refused";
  clock = λ n. n;
  paper_order_id = λ side price. "paper";
}

abbrev venue : VenueState ℕ
venue = record {
  rate_limit_per_min = 120;
  tokens = 1_200_000;
  last_refill = 0;
  success_latency_ms = 0;
  failures = 0;
  successes = 0;
}

abbrev two_venues : Router ℕ
two_venues = record {
  venues = ("binance", venue) ∷ ("okx", venue) ∷ [];
  calls = 0;
  sent = [];
  failovers = [];
}

abbrev live_executor : Executor ℕ
live_executor = record { paper = false; fee = 10 }

abbrev purchase : OrderIntent ℕ
purchase = record { symbol = "BTC/USDT"; side = buy; qty = 10_000 }

-- The bound is reached.
refused_six_times : length (execute decimal refusing live_executor purchase 5 two_venues).1.sent ≡ 6
unfolding pure raise ◌>>=◌ ◌>>◌ catch attempt retry get modify acquire_at ask acquire quotes
    best_quote create_order execute_at try_venues execute insert lookup
refused_six_times = refl

execute_bound_example :
    sent_to "okx" (execute decimal refusing live_executor purchase 5 two_venues).1.sent
    ≤ (if is_in "okx" (keys two_venues.venues) then 3 else 0) + sent_to "okx" two_venues.sent
execute_bound_example =
    execute_bound decimal refusing "okx" live_executor purchase 5 two_venues (refl, (refl, tt))
