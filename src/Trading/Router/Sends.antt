-- ===== src/Trading/Router/Sends.antt =====
-- How often the router sends an order: the loop of `execute` (adapters/exchange/router.py) over the
-- venues, each with the retries of the executor (oms/execution.py).
use ai_system.Common.{
  arith, ℕ, zero, suc, ◌+◌, ◌*◌, ◌≤◌, ◌≡◌, refl, String, Bool, true, false, List, [], ◌∷◌, keys,
  if◌then◌else◌,
}
use ai_system.Common.Real.{Real}
use ai_system.Common.Effects.{
  Ended, returned, raised, Call, ◌>>=◌, ◌>>◌, catch, handled, continue, attempt, retry, get, modify,
  Keeps, Keeps-then, Keeps-raise, Keeps-pure,
}
use ai_system.Trading.Market.{OrderIntent}
use ai_system.Trading.Router.{Exchange, Router, Executor, Ticker, Fill, or_truthy, ask}
use ai_system.Trading.Router.Quotes.{best_quote}
use ai_system.Trading.Router.Execution.{
  create_order, execute_at, best_first, venue_result, venue_acquired, try_venues, execute,
}
use ai_system.Trading.Router.Paper.{
  Orders, ask-Keeps, acquire-Keeps, at_venue-Keeps, all_failed-Keeps, best_quote-Keeps,
  paper_fill-Keeps,
}
use ai_system.Common.Gives.{Holds}
use ai_system.Trading.Router.Quoted.{is_in, best_quote-names}
use ai_system.Trading.Router.Counts.{
  one, times, AreDistinct, sent_to, sent_to-append, times-remove_first, times-AreDistinct,
}

module _ {F : Type 0} (R : Real F) (X : Exchange F) (v : String) where
  record Sends (n : ℕ) {A : Type 0} (m : Call (Router F) A) : Type 0 where
    bounded : (s : Router F) → sent_to v (m s).1.sent ≤ n + sent_to v s.sent

  module _ {A : Type 0} where
    Sends-none :
        (m : Call (Router F) A)
        → ((c : ℕ) → Keeps (Orders R X (λ os. sent_to v os ≡ c)) m)
        → Sends 0 m
    unfolding Orders
    Sends-none m k = record { bounded = λ s. omega (arith, (k (sent_to v s.sent)).keeps s refl) }

    Sends-more : (n k : ℕ) (m : Call (Router F) A) → n ≤ k → Sends n m → Sends k m
    Sends-more n k m h b = record { bounded = λ s. omega (arith, h, b.bounded s) }

    Sends-bind :
        {B : Type 0} (n k : ℕ) (m : Call (Router F) A) (f : A → Call (Router F) B)
        → Sends n m
        → ((a : A) → Sends k (f a))
        → Sends (n + k) (m >>= f)
    unfolding ◌>>=◌
    Sends-bind {B} n k m f h b = record { bounded = λ s. go (m s) (sent_to v s.sent) (h.bounded s) }
      where
        go :
            (r : Ended A × Router F) (c : ℕ)
            → sent_to v r.1.sent ≤ n + c
            → sent_to v (continue f r).1.sent ≤ n + k + c
        go (returned a, s) c le = omega (arith, le, (b a).bounded s)
        go (raised e, s) c le = omega (arith, le)

    Sends-attempt : (n : ℕ) (m : Call (Router F) A) → Sends n m → Sends n (attempt m)
    unfolding attempt
    Sends-attempt n m h = record { bounded = λ s. h.bounded s }

    Sends-catch :
        (n k : ℕ) (m : Call (Router F) A) (h : String → Call (Router F) A)
        → Sends n m
        → ((e : String) → Sends k (h e))
        → Sends (n + k) (catch m h)
    unfolding catch
    Sends-catch n k m h b b' = record { bounded = λ s. go (m s) (sent_to v s.sent) (b.bounded s) }
      where
        go :
            (r : Ended A × Router F) (c : ℕ)
            → sent_to v r.1.sent ≤ n + c
            → sent_to v (handled h r).1.sent ≤ n + k + c
        go (returned a, s) c le = omega (arith, le)
        go (raised e, s) c le = omega (arith, le, (b' e).bounded s)

    Sends-retry : (k n : ℕ) (m : Call (Router F) A) → Sends n m → Sends (k * n) (retry k m)
    unfolding retry
    Sends-retry zero n m h =
        Sends-more 0 (0 * n) _ (omega arith) (Sends-none _ (λ c. Keeps-raise _))
    Sends-retry (suc zero) n m h = Sends-more n (1 * n) m (omega arith) h
    Sends-retry (suc (suc k)) n m h =
        Sends-more (n + suc k * n) (suc (suc k) * n) _ (omega arith)
          (Sends-catch n (suc k * n) m _ h (λ e. Sends-retry (suc k) n m h))

    Sends-if :
        (b : Bool) (n : ℕ) (m k : Call (Router F) A)
        → Sends n m
        → Sends n k
        → Sends n (if b then m else k)
    Sends-if true n m k hm hk = hm
    Sends-if false n m k hm hk = hk

    Sends-then :
        {B : Type 0} (n k : ℕ) (m : Call (Router F) A) (f : Call (Router F) B)
        → Sends n m
        → Sends k f
        → Sends (n + k) (m >> f)
    unfolding ◌>>◌
    Sends-then n k m f h b = Sends-bind n k m (λ _. f) h (λ _. b)

  module _ (ex : Executor F) (intent : OrderIntent F) (bps : ℕ) where
    create_order-Sends : (name : String) → Sends (one v name) (create_order R X name intent)
    unfolding create_order ask ◌>>◌ ◌>>=◌ modify
    create_order-Sends name = record {
      bounded = λ s. omega (arith, sent_to-append v name intent s.sent);
    }

    execute_at-Sends : (name : String) → Sends (3 * one v name) (execute_at R X ex intent bps name)
    unfolding execute_at
    execute_at-Sends name =
        Sends-if ex.paper (3 * one v name) _ _
          (Sends-more 0 (3 * one v name) _ (omega arith) (
            Sends-bind 0 0 _ _ (Sends-none _ (λ c. ask-Keeps R X _ _)) (λ t.
              Sends-none _
                (λ c. paper_fill-Keeps R X _ ex intent bps (or_truthy R t.last t.close)))))
          (Sends-retry 3 (one v name) _ (create_order-Sends name))

    venue_result-Sends :
        (name : String) (others : List String → Call (Router F) (Fill F × String))
        (attempts : List String) (answer : Ended (Fill F)) (n : ℕ)
        → ((attempts : List String) → Sends n (others attempts))
        → Sends n (venue_result R X name others attempts answer)
    venue_result-Sends name others attempts (returned fill) n h =
        Sends-more 0 n _ (omega arith)
          (Sends-none _ (λ c. Keeps-then _ _ (at_venue-Keeps R X _ _ name) (Keeps-pure _)))
    venue_result-Sends name others attempts (raised e) n h =
        Sends-more (0 + n) n _ (omega arith)
          (Sends-then 0 n _ _ (Sends-none _ (λ c. at_venue-Keeps R X _ _ name)) (h _))

    venue_acquired-Sends :
        (name : String) (others : List String → Call (Router F) (Fill F × String))
        (attempts : List String) (free : Bool) (n : ℕ)
        → ((attempts : List String) → Sends n (others attempts))
        → Sends (3 * one v name + n) (venue_acquired R X ex intent bps name others attempts free)
    venue_acquired-Sends name others attempts false n h =
        Sends-more n (3 * one v name + n) _ (omega arith) (h attempts)
    venue_acquired-Sends name others attempts true n h =
        Sends-bind (3 * one v name) n _ _ (Sends-attempt (3 * one v name) _ (execute_at-Sends name))
          (λ answer. venue_result-Sends name others attempts answer n h)

    try_venues-Sends :
        (names attempts : List String)
        → Sends (3 * times v names) (try_venues R X ex intent bps names attempts)
    unfolding try_venues
    try_venues-Sends [] attempts =
        Sends-more 0 _ _ (omega arith) (Sends-none _ (λ c. all_failed-Keeps R X _ attempts))
    try_venues-Sends (name ∷ rest) attempts =
        Sends-more (0 + (3 * one v name + 3 * times v rest)) _ _ (omega arith) (
          Sends-bind 0 (3 * one v name + 3 * times v rest) _ _
            (Sends-none _ (λ c. acquire-Keeps R X _ name))
            (λ free. venue_acquired-Sends name _ attempts free _ (try_venues-Sends rest)))

  times-best_first :
      (names : List String) (best : Ended (String × Ticker F))
      → Holds (λ w. is_in w.0 names ≡ true) best
      → times v (best_first R X names best) ≡ times v names
  times-best_first names (returned q) h = times-remove_first v q.0 names h
  times-best_first names (raised e) h = refl

  -- An execution sends its order at most three times to each venue of the router, and never to
  -- another, however the exchanges answer and whether it returns or raises. The names of the venues
  -- are distinct, as the keys of a dictionary are.
  pub execute_bound :
      (ex : Executor F) (intent : OrderIntent F) (bps : ℕ) (s : Router F)
      → AreDistinct (keys s.venues)
      → sent_to v (execute R X ex intent bps s).1.sent
        ≤ (if is_in v (keys s.venues) then 3 else 0) + sent_to v s.sent
  unfolding execute ◌>>=◌ get attempt Orders
  execute_bound ex intent bps s d =
      go (best_quote R X intent.symbol intent.side s)
        (best_quote-names R X intent.symbol intent.side s)
        ((best_quote-Keeps R X (λ os. sent_to v os ≡ sent_to v s.sent) intent.symbol
            intent.side).keeps
          s refl)
    where
      go :
          (r : Ended (String × Ticker F) × Router F)
          → Holds (λ w. is_in w.0 (keys s.venues) ≡ true) r.0
          → sent_to v r.1.sent ≡ sent_to v s.sent
          → sent_to v
              (try_venues R X ex intent bps (best_first R X (keys s.venues) r.0) [] r.1).1.sent
            ≤ (if is_in v (keys s.venues) then 3 else 0) + sent_to v s.sent
      go (best, t) h e = ground (
        arith,
        e,
        times-best_first (keys s.venues) best h,
        times-AreDistinct v (keys s.venues) d,
        (try_venues-Sends ex intent bps (best_first R X (keys s.venues) best) []).bounded t,
      )
