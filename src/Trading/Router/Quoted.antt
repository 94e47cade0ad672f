-- ===== src/Trading/Router/Quoted.antt =====
-- The best quote of adapters/exchange/router.py is that of one of the venues that were asked.
use ai_system.Common.{
  arith, suc, ◌≡◌, refl, String, Bool, true, false, Option, none, some, List, [], ◌∷◌, length,
  apart, ◌==◌, eq→beq, keys, if◌then◌else◌,
}
use ai_system.Common.Real.{Real}
use ai_system.Common.Effects.{Ended, returned, raised, ◌>>=◌, get}
use ai_system.Trading.Market.{Side}
use ai_system.Trading.Router.{Exchange, Router, Ticker}
use ai_system.Trading.Router.Quotes.{
  after_ticker, quote_acquired, quotes, is_better, best_of, winner, best_quote, cons_some,
}
use ai_system.Trading.Router.Execution.{best_first, remove_first}
use ai_system.Common.Gives.{
  Holds, Gives, Gives-pure, Gives-raise, Gives-bind, Gives-any, Gives-then,
}

abbrev pub is_in : String → List String → Bool
is_in x [] = false
is_in x (y ∷ ys) = if x == y then true else is_in x ys

length-remove_first :
    (x : String) (xs : List String)
    → is_in x xs ≡ true
    → suc (length (remove_first x xs)) ≡ length xs
length-remove_first x [] h = ground arith
length-remove_first x (y ∷ ys) h = ground (arith, length-remove_first x ys)

module _ {F : Type 0} (R : Real F) (X : Exchange F) where
  -- The quotes are of these venues.
  abbrev all_in : List String → List (String × Ticker F × F) → Bool
  all_in names [] = true
  all_in names (q ∷ qs) = if is_in q.0 names then all_in names qs else false

  abbrev is_named : String → Option (String × Ticker F × F) → Bool
  is_named name none = true
  is_named name (some q) = q.0 == name

  named-or_none :
      (b : Bool) (name : String) (ticker : Ticker F) (price : F)
      → is_named name (if b then none else some (name, ticker, price)) ≡ true
  named-or_none true name ticker price = refl
  named-or_none false name ticker price = eq→beq name name refl

  after_ticker-Gives :
      (name : String) (t : F) (answer : Ended (Ticker F))
      → Gives (λ o. is_named name o ≡ true) (after_ticker R X name t answer)
  after_ticker-Gives name t (returned ticker) =
      Gives-any _ _
        (λ t1. Gives-then _ _ (Gives-pure _ (named-or_none (R.le _ (R.lit 0 0)) name ticker _)))
  after_ticker-Gives name t (raised e) = Gives-then _ _ (Gives-pure _ refl)

  quote_acquired-Gives :
      (symbol name : String) (b : Bool)
      → Gives (λ o. is_named name o ≡ true) (quote_acquired R X symbol name b)
  quote_acquired-Gives symbol name false = Gives-pure _ refl
  quote_acquired-Gives symbol name true =
      Gives-any _ _ (λ t. Gives-any _ _ (after_ticker-Gives name t))

  all_in-more :
      (name : String) (names : List String) (qs : List (String × Ticker F × F))
      → all_in names qs ≡ true
      → all_in (name ∷ names) qs ≡ true
  all_in-more name names [] h = refl
  all_in-more name names (q ∷ qs) h = ground (arith, all_in-more name names qs)

  all_in-cons_some :
      (name : String) (names : List String) (o : Option (String × Ticker F × F))
      (qs : List (String × Ticker F × F))
      → is_named name o ≡ true
      → all_in names qs ≡ true
      → all_in (name ∷ names) (cons_some R X o qs) ≡ true
  all_in-cons_some name names none qs h k = all_in-more name names qs k
  all_in-cons_some name names (some q) qs h k =
      let more = all_in-more name names qs k in ground arith

  quotes-Gives :
      (symbol : String) (names : List String)
      → Gives (λ qs. all_in names qs ≡ true) (quotes R X symbol names)
  unfolding quotes
  quotes-Gives symbol [] = Gives-pure [] refl
  quotes-Gives symbol (name ∷ rest) = Gives-any _ _ (λ free.
      Gives-bind _ _ _ (quote_acquired-Gives symbol name free) (λ q h.
        Gives-bind _ _ _ (quotes-Gives symbol rest)
          (λ qs k. Gives-pure _ (all_in-cons_some name rest q qs h k))))

  best_of-is_in :
      (side : Side) (names : List String) (q : String × Ticker F × F)
      (qs : List (String × Ticker F × F))
      → is_in q.0 names ≡ true
      → all_in names qs ≡ true
      → is_in (best_of R X side q qs).0 names ≡ true
  best_of-is_in side names q [] h k = h
  best_of-is_in side names q (p ∷ qs) h k =
      let (here, rest) = apart (is_in p.0 names) (all_in names qs) k in
      best_of-is_in side names (if is_better R X side p.2 q.2 then p else q) qs
        (either (is_better R X side p.2 q.2) here h) rest
    where
      either :
          (b : Bool)
          → is_in p.0 names ≡ true
          → is_in q.0 names ≡ true
          → is_in (if b then p else q).0 names ≡ true
      either true here h = here
      either false here h = h

  winner-Gives :
      (side : Side) (names : List String) (qs : List (String × Ticker F × F))
      → all_in names qs ≡ true
      → Gives (λ w. is_in w.0 names ≡ true) (winner R X side qs)
  winner-Gives side names [] h = Gives-raise _
  winner-Gives side names (q ∷ qs) h =
      let (here, rest) = apart (is_in q.0 names) (all_in names qs) h in
      Gives-pure _ (best_of-is_in side names q qs here rest)

  pub best_quote-names :
      (symbol : String) (side : Side) (s : Router F)
      → Holds (λ w. is_in w.0 (keys s.venues) ≡ true) (best_quote R X symbol side s).0
  unfolding best_quote ◌>>=◌ get
  best_quote-names symbol side s =
      (Gives-bind _ _ _ (quotes-Gives symbol (keys s.venues))
          (winner-Gives side (keys s.venues))).gives
        s

  pub length-best_first :
      (names : List String) (best : Ended (String × Ticker F))
      → Holds (λ w. is_in w.0 names ≡ true) best
      → length (best_first R X names best) ≡ length names
  length-best_first names (returned q) h = length-remove_first q.0 names h
  length-best_first names (raised e) h = refl
