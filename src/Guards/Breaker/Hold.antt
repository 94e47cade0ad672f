-- ===== src/Guards/Breaker/Hold.antt =====
-- An open breaker stays open for its cooldown.
use ai_system.Common.{
  ℕ, ◌+◌, ◌<◌, ◌≡◌, refl, true, false, some, List, [], ◌∷◌, arith, leb, if◌then◌else◌, subst, ◌∙◌,
}
use ai_system.Guards.Breaker.{CircuitBreaker, close, allow, record_success, record_error, state}
use ai_system.Guards.Breaker.Trip.{
  Call, ask, success, failure, inspect, call_time, perform, perform_all,
}

-- Every reading of the clock in a call is before `limit`.
abbrev pub IsBefore : ℕ → List Call → Type 0
IsBefore limit [] = Unit
IsBefore limit (c ∷ cs) = (call_time c < limit) × IsBefore limit cs

perform_open :
    (c : Call) (b : CircuitBreaker) (opened : ℕ)
    → b.opened_at ≡ some opened
    → call_time c < opened + b.cooldown_seconds
    → ((perform c b).opened_at ≡ some opened)
      × ((perform c b).reason ≡ b.reason)
      × ((perform c b).cooldown_seconds ≡ b.cooldown_seconds)
unfolding perform allow record_success record_error state
perform_open (ask now) b opened e h = ground arith
perform_open (success now) b opened e h = ground arith
perform_open (failure reason now) b opened e h = ground arith
perform_open (inspect now later) b opened e h = ground arith

-- A breaker that opened at `opened` stays open, for the same reason, under every sequence of calls
-- made before its cooldown ends, successes and further errors included; then `allow` refuses
-- before the end of the cooldown, and from the end on it closes the breaker and admits.
pub perform_all_open :
    (cs : List Call) (b : CircuitBreaker) (opened : ℕ)
    → b.opened_at ≡ some opened
    → IsBefore (opened + b.cooldown_seconds) cs
    → let b' = perform_all cs b in
      (b'.opened_at ≡ some opened)
      × (b'.reason ≡ b.reason)
      × ((now : ℕ)
          → allow now b'
            ≡ (if leb (opened + b.cooldown_seconds) now then (true, close b') else (false, b')))
unfolding perform_all allow
perform_all_open [] b opened e h = (e, refl, λ now. ground arith)
perform_all_open (c ∷ cs) b opened e h =
    let (o, r, k) = perform_open c b opened e h.0 in
    let (o', r', a) = perform_all_open cs (perform c b) opened o (rw k h.1) in
    let b' = perform_all cs (perform c b) in
    (
      o',
      r' ∙ r,
      subst
          (λ (k : ℕ).
            (now : ℕ)
            → allow now b' ≡ (if leb (opened + k) now then (true, close b') else (false, b')))
          k a,
    )
