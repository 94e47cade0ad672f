-- ===== src/Guards/Breaker/Trip.antt =====
-- The calls of the breaker, the invariant that they keep, and when an error opens it.
use ai_system.Common.{
  ℕ, ◌+◌, ◌≤◌, ◌<◌, ◌≡◌, refl, String, none, some, List, [], ◌∷◌, ◌++◌, arith, leb, not, is_some,
  ◌&&◌, if◌then◌else◌, All-append, keep_if, ◌⊎◌, length, length-append, Bool-cases, inl, inr,
}
use ai_system.Guards.Breaker.{
  CircuitBreaker, new, pop_old, close, allow, record_success, record_error, state,
}
use ai_system.Guards.Breaker.Window.{
  IsOrdered, IsBelow, is_recent, pop_old-eq-keep_if, IsOrdered-pop_old, IsBelow-pop_old,
  IsBelow-mono, IsOrdered-append,
}

-- A call of the breaker. `state` reads the clock twice.
pub data Call : Type 0 where
  ask : ℕ → Call
  success : ℕ → Call
  failure : String → ℕ → Call
  inspect : ℕ → ℕ → Call

abbrev pub call_time : Call → ℕ
call_time (ask now) = now
call_time (success now) = now
call_time (failure reason now) = now
call_time (inspect now later) = now

unfoldable pub perform : Call → CircuitBreaker → CircuitBreaker
perform (ask now) b = (allow now b).1
perform (success now) b = record_success now b
perform (failure reason now) b = record_error reason now b
perform (inspect now later) b = (state now later b).1

unfoldable pub perform_all : List Call → CircuitBreaker → CircuitBreaker
perform_all [] b = b
perform_all (c ∷ cs) b = perform_all cs (perform c b)

-- The breaker at the time `t`: its errors are in order and not in the future, it has a reason when
-- it is open, and while it is closed it holds fewer errors than the threshold.
pub record IsValid (t : ℕ) (b : CircuitBreaker) : Type 0 where
  pub ordered : IsOrdered 0 b.errors
  pub past : IsBelow t b.errors
  pub explained : is_some b.reason ≡ is_some b.opened_at
  pub room : b.opened_at ≡ none → length b.errors < b.threshold

module _ {t : ℕ} {b : CircuitBreaker} (valid : IsValid t b) (now : ℕ) (later : t ≤ now) where
  error_times-IsOrdered : IsOrdered 0 (pop_old b.window_seconds now b.errors ++ now ∷ [])
  error_times-IsOrdered =
      IsOrdered-append 0 now (pop_old b.window_seconds now b.errors)
        (IsOrdered-pop_old b.window_seconds now 0 b.errors valid.ordered)
        (IsBelow-pop_old b.window_seconds now now b.errors
          (IsBelow-mono t now b.errors later valid.past))
        (omega arith)

  -- A closed breaker opens on an error exactly when the errors of the window, this one counted,
  -- reach the threshold; the window is the errors not older than `window_seconds`.
  pub record_error-opened_at :
      (reason : String)
      → b.opened_at ≡ none
      → let recent = keep_if (is_recent b.window_seconds now) b.errors in
        ((record_error reason now b).errors ≡ recent ++ now ∷ [])
        × ((record_error reason now b).opened_at
            ≡ (if leb b.threshold (length recent + 1) then some now else none))
        × ((record_error reason now b).reason
            ≡ (if leb b.threshold (length recent + 1) then some reason else b.reason))
  unfolding record_error
  record_error-opened_at reason closed = ground (
    arith,
    pop_old-eq-keep_if b.window_seconds now 0 b.errors valid.ordered,
    length-append (keep_if (is_recent b.window_seconds now) b.errors) (now ∷ []),
  )

  past-append : IsBelow now (pop_old b.window_seconds now b.errors ++ now ∷ [])
  past-append =
      All-append (λ s. s ≤ now) (pop_old b.window_seconds now b.errors) (now ∷ [])
        (IsBelow-pop_old b.window_seconds now now b.errors
          (IsBelow-mono t now b.errors later valid.past))
        (omega arith, tt)

  record_error-IsValid : (reason : String) → IsValid now (record_error reason now b)
  unfolding record_error
  record_error-IsValid reason =
      elim (Bool-cases (
        leb b.threshold (length (pop_old b.window_seconds now b.errors ++ now ∷ []))
        && not (is_some b.opened_at))) [
          | inl trips ↦ rw trips (record {
            ordered = error_times-IsOrdered;
            past = past-append;
            explained = refl;
            room = λ e. cc;
          })
          | inr stays ↦ rw stays (record {
            ordered = error_times-IsOrdered;
            past = past-append;
            explained = valid.explained;
            room = λ e. ground (arith, valid.room);
          })
        ]

  close-IsValid : 0 < b.threshold → IsValid now (close b)
  close-IsValid pos = record { ordered = tt; past = tt; explained = refl; room = λ _. pos }

  same-IsValid : IsValid now b
  same-IsValid = record {
    ordered = valid.ordered;
    past = IsBelow-mono t now b.errors later valid.past;
    explained = valid.explained;
    room = valid.room;
  }

  closed_or_same-IsValid :
      (b' : CircuitBreaker) → (b' ≡ close b) ⊎ (b' ≡ b) → 0 < b.threshold → IsValid now b'
  closed_or_same-IsValid b' (inl e) pos = rw e (close-IsValid pos)
  closed_or_same-IsValid b' (inr e) pos = rw e same-IsValid

allow_cases : (now : ℕ) (b : CircuitBreaker) → ((allow now b).1 ≡ close b) ⊎ ((allow now b).1 ≡ b)
unfolding allow
allow_cases now b = ground arith

record_success_cases :
    (now : ℕ) (b : CircuitBreaker) → (record_success now b ≡ close b) ⊎ (record_success now b ≡ b)
unfolding record_success
record_success_cases now b = ground arith

state_cases :
    (now later : ℕ) (b : CircuitBreaker)
    → ((state now later b).1 ≡ close b) ⊎ ((state now later b).1 ≡ b)
unfolding state
state_cases now later b = ground arith

threshold-perform : (c : Call) (b : CircuitBreaker) → (perform c b).threshold ≡ b.threshold
unfolding perform allow record_success record_error state
threshold-perform (ask now) b = ground arith
threshold-perform (success now) b = ground arith
threshold-perform (failure reason now) b = ground arith
threshold-perform (inspect now later) b = ground arith

perform-IsValid :
    (c : Call) {t : ℕ} {b : CircuitBreaker}
    → IsValid t b
    → t ≤ call_time c
    → 0 < b.threshold
    → IsValid (call_time c) (perform c b)
unfolding perform
perform-IsValid (ask now) {b = b} v h pos = closed_or_same-IsValid v now h _ (allow_cases now b) pos
perform-IsValid (success now) {b = b} v h pos =
    closed_or_same-IsValid v now h _ (record_success_cases now b) pos
perform-IsValid (failure reason now) v h pos = record_error-IsValid v now h reason
perform-IsValid (inspect now later) {b = b} v h pos =
    closed_or_same-IsValid v now h _ (state_cases now later b) pos

-- The calls come in the order of time.
abbrev pub IsClocked : ℕ → List Call → Type 0
IsClocked t [] = Unit
IsClocked t (c ∷ cs) = (t ≤ call_time c) × IsClocked (call_time c) cs

abbrev pub last_time : ℕ → List Call → ℕ
last_time t [] = t
last_time t (c ∷ cs) = last_time (call_time c) cs

pub perform_all-IsValid_from :
    (cs : List Call) {t : ℕ} {b : CircuitBreaker}
    → IsValid t b
    → IsClocked t cs
    → 0 < b.threshold
    → IsValid (last_time t cs) (perform_all cs b)
unfolding perform_all
perform_all-IsValid_from [] v h pos = v
perform_all-IsValid_from (c ∷ cs) {b = b} v h pos =
    perform_all-IsValid_from cs (perform-IsValid c v h.0 pos) h.1 (rw (threshold-perform c b) pos)

-- Whatever sequence of calls a new breaker with a positive threshold gets, in the order of time, its
-- errors are in order and not in the future, it has a reason exactly when it is open, and while it
-- is closed it holds fewer errors than the threshold.
pub perform_all-IsValid :
    (threshold window cooldown : ℕ) (cs : List Call)
    → 0 < threshold
    → IsClocked 0 cs
    → IsValid (last_time 0 cs) (perform_all cs (new threshold window cooldown))
perform_all-IsValid threshold window cooldown cs pos h =
    perform_all-IsValid_from cs
      (record { ordered = tt; past = tt; explained = refl; room = λ _. pos }) h pos
