-- ===== src/Trading/Router/Quotes.antt =====
-- `best_quote` (adapters/exchange/router.py).
use ai_system.Common.{
  suc, String, Bool, true, false, Option, none, some, List, [], ◌∷◌, if◌then◌else◌, keys,
}
use ai_system.Common.Real.{Real, zero_f, quotient}
use ai_system.Common.Effects.{
  Ended, returned, raised, Call, pure, raise, ◌>>=◌, ◌>>◌, attempt, get, modify,
}
use ai_system.Trading.Market.{Side, is_buy}
use ai_system.Trading.Router.{Exchange, Router, Ticker, ask, now, at_venue, acquire, or_truthy}

module _ {F : Type 0} (R : Real F) (X : Exchange F) where
  open R use {lit, add, sub, mul, lt, le}

  abbrev pub priced : String → Ticker F → F → Option (String × Ticker F × F)
  priced name ticker price = if le price (zero_f R) then none else some (name, ticker, price)

  abbrev pub price_or_zero : Option F → F
  price_or_zero none = zero_f R
  price_or_zero (some p) = p

  abbrev pub after_ticker :
      String → F → Ended (Ticker F) → Call (Router F) (Option (String × Ticker F × F))
  after_ticker name t0 (raised e) = do
    modify (at_venue R X (λ v. record v { failures = suc v.failures }) name)
    pure none
  after_ticker name t0 (returned ticker) = do
    t1 ← now R X
    modify (
        at_venue R X
          (λ v. record v {
            success_latency_ms =
                quotient R (add v.success_latency_ms (mul (sub t1 t0) (lit 1000 0))) (lit 2 0);
            successes = suc v.successes;
          })
          name)
    pure (
        priced name ticker
          (price_or_zero (or_truthy R ticker.last (or_truthy R ticker.close none))))

  abbrev pub quote_acquired :
      String → String → Bool → Call (Router F) (Option (String × Ticker F × F))
  quote_acquired symbol name false = pure none
  quote_acquired symbol name true = do
    t0 ← now R X
    answer ← attempt (ask R X (λ n. X.fetch_ticker n name symbol))
    after_ticker name t0 answer

  abbrev pub cons_some : {A : Type 0} → Option A → List A → List A
  cons_some none xs = xs
  cons_some (some x) xs = x ∷ xs

  -- The loop of `best_quote`
  unfoldable pub quotes : String → List String → Call (Router F) (List (String × Ticker F × F))
  unfolding ask acquire
  quotes symbol [] = pure []
  quotes symbol (name ∷ rest) = do
    free ← acquire R X name
    q ← quote_acquired symbol name free
    qs ← quotes symbol rest
    pure (cons_some q qs)

  abbrev pub is_better : Side → F → F → Bool
  is_better side a b = if is_buy side then lt a b else lt b a

  -- The head of the sorted candidates: the first one of the best price
  abbrev pub best_of :
      Side → String × Ticker F × F → List (String × Ticker F × F) → String × Ticker F × F
  best_of side q [] = q
  best_of side q (p ∷ rest) = best_of side (if is_better side p.2 q.2 then p else q) rest

  abbrev pub winner : Side → List (String × Ticker F × F) → Call (Router F) (String × Ticker F)
  winner side [] = raise "No healthy venues available"
  winner side (q ∷ rest) = let w = best_of side q rest in pure (w.0, w.1)

  -- `best_quote`
  unfoldable pub best_quote : String → Side → Call (Router F) (String × Ticker F)
  unfolding quotes
  best_quote symbol side = do
    r ← get
    candidates ← quotes symbol (keys r.venues)
    winner side candidates
