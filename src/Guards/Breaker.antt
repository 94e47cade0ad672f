-- ===== src/Guards/Breaker.antt =====
-- `CircuitBreaker` of gateway/guards.py. A time is a natural number in any fixed unit; each reading
-- of `time.time()` is an argument. Differences of times are written as sums.
pub mod Window
pub mod Trip
pub mod Hold
pub mod Burst
use ai_system.Common.{
  ℕ, ◌+◌, ◌-◌, String, Bool, true, false, Option, none, some, List, [], ◌∷◌, ◌++◌, ◌&&◌, not,
  is_some, leb, ltb, length, if◌then◌else◌,
}

pub record CircuitBreaker : Type 0 where
  pub threshold : ℕ
  pub window_seconds : ℕ
  pub cooldown_seconds : ℕ
  pub errors : List ℕ
  pub opened_at : Option ℕ
  pub reason : Option String

-- `__init__`
abbrev pub new : ℕ → ℕ → ℕ → CircuitBreaker
new threshold window_seconds cooldown_seconds = record {
  threshold = threshold;
  window_seconds = window_seconds;
  cooldown_seconds = cooldown_seconds;
  errors = [];
  opened_at = none;
  reason = none;
}

-- The loop of `_purge`: drop from the left while `now - errors[0] > window_seconds`.
unfoldable pub pop_old : ℕ → ℕ → List ℕ → List ℕ
pop_old window now [] = []
pop_old window now (t ∷ ts) =
    let rest = pop_old window now ts in if ltb (t + window) now then rest else t ∷ ts

-- `_purge`
unfoldable pub purge : ℕ → CircuitBreaker → CircuitBreaker
purge now b = record b { errors = pop_old b.window_seconds now b.errors }

-- What an elapsed cooldown and a success do.
abbrev pub close : CircuitBreaker → CircuitBreaker
close b = record b { errors = []; opened_at = none; reason = none }

abbrev allow_opened : ℕ → Option ℕ → CircuitBreaker → Bool × CircuitBreaker
allow_opened now none b = (true, b)
allow_opened now (some opened) b =
    if leb (opened + b.cooldown_seconds) now then (true, close b) else (false, b)

-- `allow`, at the time `now`
unfoldable pub allow : ℕ → CircuitBreaker → Bool × CircuitBreaker
allow now b = allow_opened now b.opened_at b

-- `record_success`
unfoldable pub record_success : ℕ → CircuitBreaker → CircuitBreaker
unfolding allow
record_success now b = let (ok, b') = allow now b in if ok then close b' else b'

-- `record_error`
unfoldable pub record_error : String → ℕ → CircuitBreaker → CircuitBreaker
unfolding purge
record_error reason now b =
    let p = purge now b in
    let logged = record p { errors = p.errors ++ now ∷ [] } in
    if leb b.threshold (length logged.errors) && not (is_some b.opened_at)
    then record logged { opened_at = some now; reason = some reason }
    else logged

pub record Report : Type 0 where
  pub is_open : Bool
  pub reason : Option String
  pub cooldown_seconds : ℕ
  pub errors_last_window : ℕ

-- `max(0.0, self.cooldown_seconds - (time.time() - self._opened_at))`
abbrev cooldown_left : ℕ → ℕ → Option ℕ → ℕ
cooldown_left cooldown now none = 0
cooldown_left cooldown now (some opened) = cooldown + opened - now

abbrev report_after : ℕ → Bool → CircuitBreaker → Report
report_after later is_open b = record {
  is_open = is_open;
  reason = b.reason;
  cooldown_seconds = cooldown_left b.cooldown_seconds later b.opened_at;
  errors_last_window = length b.errors;
}

-- `state`, which reads the clock in `allow` at `now` and again at `later`
unfoldable pub state : ℕ → ℕ → CircuitBreaker → Report × CircuitBreaker
unfolding allow
state now later b =
    let (ok, b') = allow now b in
    if is_some b.opened_at
    then (report_after later (not ok) b', b')
    else (report_after later false b, b)
