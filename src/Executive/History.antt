-- ===== src/Executive/History.antt =====
-- How far the history of the executive agent goes, and dispatches of equal rank.
use ai_system.Common.{
  ℕ, zero, suc, ◌-◌, ◌≤◌, ◌<◌, ◌≡◌, ◌≢◌, refl, true, Option, none, some, List, [], ◌∷◌, ◌++◌, arith,
  ltb, ◌==◌, length, length-drop, Bool-cases, map, sym, subst, inl, inr,
}
use ai_system.Executive.{
  Decision, MotherAgent, Order, err, type_error, decide, enqueue, may_dispatch, approve,
  approve_found, in_history_of, last_of,
}
use ai_system.Executive.Queue.{siftdown, is_before, heappush}
use ai_system.Executive.Dispatch.{
  Call, deciding, approving, dispatching, dispatch, perform, perform_all, put_result-queue,
}

length-last_of : {A : Type 0} (n : ℕ) (xs : List A) → 0 < n → length (last_of n xs) ≤ n
length-last_of zero xs h = omega arith
length-last_of (suc n) xs h = omega (arith, length-drop (length xs - suc n) xs)

-- The length of the history never exceeds its limit.
record IsBounded (n : ℕ) (m : MotherAgent) : Type 0 where
  limit : m.max_history ≡ n
  short : length m.decisions ≤ n

decide-IsBounded :
    (n : ℕ) (o : Order) (m : MotherAgent) → 0 < n → IsBounded n m → IsBounded n (decide o m).1
unfolding decide
decide-IsBounded n o m p b = elim (Bool-cases (o.objective == "")) [
  | inl empty ↦ rw empty b
  | inr full ↦ elim (Bool-cases (ltb 100 o.priority)) [
    | inl high ↦ rw (full, high) b
    | inr fits ↦
        rw (full, fits)
          (record {
            limit = b.limit;
            short =
                subst (λ x. length (last_of x (m.decisions ++ suc m.sequence ∷ [])) ≤ n)
                  (sym b.limit) (length-last_of n _ p);
          })
  ]
]

enqueue-IsBounded :
    (n k : ℕ) (d : Decision) (m : MotherAgent) → IsBounded n m → IsBounded n (enqueue k d m).1
unfolding enqueue
enqueue-IsBounded n k d m b = elim (Bool-cases (may_dispatch d)) [
  | inl may ↦ rw may (
      subst (IsBounded n) (sym (put_result-queue _ m))
        (record { limit = b.limit; short = b.short }))
  | inr cannot ↦ rw cannot b
]

perform-IsBounded :
    (n : ℕ) (c : Call) (m : MotherAgent) → 0 < n → IsBounded n m → IsBounded n (perform c m)
unfolding perform approve
perform-IsBounded n (deciding o) m p b = decide-IsBounded n o m p b
perform-IsBounded n (approving now k) m p b = approved (in_history_of k m)
  where
    approved : (o : Option Decision) → IsBounded n (approve_found now k o m).1
    approved none = b
    approved (some d) = record { limit = b.limit; short = b.short }
perform-IsBounded n (dispatching k) m p b = dispatched (in_history_of k m)
  where
    dispatched : (o : Option Decision) → IsBounded n (dispatch k o m)
    dispatched none = b
    dispatched (some d) = enqueue-IsBounded n k d m b

perform_all-IsBounded :
    (n : ℕ) (calls : List Call) (m : MotherAgent)
    → 0 < n
    → IsBounded n m
    → IsBounded n (perform_all calls m)
unfolding perform_all
perform_all-IsBounded n [] m p b = b
perform_all-IsBounded n (c ∷ cs) m p b =
    perform_all-IsBounded n cs (perform c m) p (perform-IsBounded n c m p b)

-- However the agent is called, its history keeps at most `max_history` decisions, if that is not
-- zero.
pub perform_all-history :
    (calls : List Call) (m : MotherAgent)
    → 0 < m.max_history
    → length m.decisions ≤ m.max_history
    → length (perform_all calls m).decisions ≤ m.max_history
perform_all-history calls m p h =
    (perform_all-IsBounded m.max_history calls m p (record { limit = refl; short = h })).short

is_before_tie :
    (j k r q n : ℕ)
    → j ≢ k
    → r ≡ q
    → is_before
        (record { rank = q; sequence = n; decision = k })
        (record { rank = r; sequence = n; decision = j })
      ≡ none
unfolding is_before
is_before_tie j k r q n differ same = ground arith

-- Two different decisions of the same priority, both free to go, are dispatched while the queue is
-- empty, with no decision made in between: the second dispatch raises `TypeError`, since the two
-- entries differ only in the decisions, and yet both entries are in the queue.
pub dispatch_tie :
    (j k : ℕ) (a b : Decision) (agent : MotherAgent)
    → j ≢ k
    → a.priority ≡ b.priority
    → may_dispatch a ≡ true
    → may_dispatch b ≡ true
    → agent.queue ≡ []
    → ((enqueue k b (enqueue j a agent).1).0 ≡ err type_error)
      × (map (λ e. e.decision) (enqueue k b (enqueue j a agent).1).1.queue ≡ j ∷ k ∷ [])
unfolding enqueue heappush siftdown
dispatch_tie j k a b agent differ same first second empty =
    subst (λ q. Tied (record agent { queue = q })) (sym empty) tied
  where
    Tied : MotherAgent → Type 0
    Tied m =
        ((enqueue k b (enqueue j a m).1).0 ≡ err type_error)
        × (map (λ e. e.decision) (enqueue k b (enqueue j a m).1).1.queue ≡ j ∷ k ∷ [])

    tied : Tied (record agent { queue = [] })
    tied =
        rw
          (
            first,
            second,
            is_before_tie j k (100 - a.priority) (100 - b.priority) agent.sequence differ
                (omega (arith, same)),
          )
          (refl, refl)
