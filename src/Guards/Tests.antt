-- ===== src/Guards/Tests.antt =====
-- The guards on concrete inputs.
use ai_system.Common.{
  ℕ, ◌+◌, ◌≡◌, refl, true, false, none, some, List, [], ◌∷◌, arith, is_some, leb, length,
  if◌then◌else◌, lookup, insert, keys_where, remove_all, remove,
}
use ai_system.Guards.Idempotency
use ai_system.Guards.Idempotency.{purge}
use ai_system.Guards.Idempotency.Window.{Request, answers, spec_answers, answers-eq-spec_answers}
use ai_system.Guards.Breaker
use ai_system.Guards.Breaker.{CircuitBreaker, record_error, allow, close}
use ai_system.Guards.Breaker.Trip.{
  Call, ask, success, failure, inspect, IsValid, last_time, perform_all, perform_all-IsValid,
}
use ai_system.Guards.Breaker.Hold.{perform_all_open}
use ai_system.Guards.Breaker.Burst.{fail_at, fail_at-opens}

abbrev requests : List Request
requests = ("start:a", 10) ∷ ("start:a", 12) ∷ ("stop:a", 12) ∷ ("start:a", 15) ∷ []

answers-requests : answers requests (Idempotency.new 5) ≡ true ∷ false ∷ true ∷ true ∷ []
unfolding answers Idempotency.allow purge lookup insert keys_where remove_all remove
answers-requests = refl

answers-eq-spec_answers_example :
    answers requests (Idempotency.new 5) ≡ spec_answers 5 requests (λ _. none)
answers-eq-spec_answers_example = answers-eq-spec_answers 5 requests (omega arith)

abbrev fresh : CircuitBreaker
fresh = Breaker.new 2 300 120

abbrev one_error : CircuitBreaker
one_error = record fresh { errors = 100 ∷ [] }

abbrev opened : CircuitBreaker
opened = record fresh { errors = 100 ∷ 160 ∷ []; opened_at = some 160; reason = some "boom" }

one_error-IsValid : IsValid 100 one_error
one_error-IsValid = record {
  ordered = omega arith;
  past = omega arith;
  explained = refl;
  room = λ _. omega arith;
}

record_error-opens : record_error "boom" 160 one_error ≡ opened
unfolding record_error Breaker.purge Breaker.pop_old
record_error-opens = refl

abbrev calls : List Call
calls = failure "boom" 100 ∷ failure "boom" 160 ∷ success 170 ∷ inspect 200 201 ∷ ask 290 ∷ []

perform_all-IsValid_example :
    IsValid (last_time 0 calls) (perform_all calls (Breaker.new 2 300 120))
perform_all-IsValid_example = perform_all-IsValid 2 300 120 calls (omega arith) (omega arith)

abbrev during : List Call
during = success 170 ∷ failure "again" 180 ∷ inspect 200 201 ∷ ask 279 ∷ []

perform_all_open_example :
    let b' = perform_all during opened in
    (b'.opened_at ≡ some 160)
    × (b'.reason ≡ some "boom")
    × ((now : ℕ) → allow now b' ≡ (if leb (160 + 120) now then (true, close b') else (false, b')))
perform_all_open_example = perform_all_open during opened 160 refl (omega arith)

abbrev burst_times : List ℕ
burst_times = 100 ∷ 160 ∷ 170 ∷ []

fail_at-opens_example :
    is_some (fail_at "boom" burst_times (Breaker.new 3 300 120)).opened_at
    ≡ leb 3 (length burst_times)
fail_at-opens_example =
    fail_at-opens "boom" 100 3 300 120 burst_times (omega arith) (omega arith) (omega arith)
