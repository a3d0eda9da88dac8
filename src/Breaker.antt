-- ===== src/Breaker.antt =====
-- app/core/rate_limiter.py: `CircuitBreaker`.
-- Times are microseconds, the resolution of `datetime`; the clock's reading is an argument. Each
-- block under `with self._lock` is one function, so threads interleave whole functions.
pub mod Events
pub mod Invariant
pub mod Graph
pub mod Recovery
pub mod Cooldown
mod Tests
use mirror_maestro.Common.{
  ℕ, ◌+◌, ◌*◌, ◌^◌, Bool, true, false, Option, none, some, ◌++◌, leb, if◌then◌else◌,
}
use mirror_maestro.Text.{codes, decimal}
use mirror_maestro.Errors.{ErrorClass, exception, Error, Outcome, returned, raised}

pub data BreakerState : Type 0 where
  closed opened half_open : BreakerState

-- Thresholds are at least 0, and `expected` says which exception classes count as failures.
pub record CircuitBreaker : Type 0 where
  pub failure_threshold : ℕ
  pub recovery_timeout : ℕ
  pub success_threshold : ℕ
  pub expected : ErrorClass → Bool
  pub failure_count : ℕ
  pub success_count : ℕ
  pub last_failure_time : Option ℕ
  pub state : BreakerState

-- `__init__`
unfoldable pub new_breaker : ℕ → ℕ → ℕ → (ErrorClass → Bool) → CircuitBreaker
new_breaker failures timeout successes classes = record {
  failure_threshold = failures;
  recovery_timeout = timeout;
  success_threshold = successes;
  expected = classes;
  failure_count = 0;
  success_count = 0;
  last_failure_time = none;
  state = closed;
}

abbrev pub microseconds : ℕ → ℕ
microseconds s = s * 10 ^ 6

-- `elapsed >= recovery_timeout`, with `elapsed = now - last_failure_time` moved across, since it
-- is negative when the clock is set back.
unfoldable pub should_attempt_reset : ℕ → CircuitBreaker → Bool
should_attempt_reset now cb = elim cb.last_failure_time [
  | none ↦ true
  | some last ↦ leb (last + microseconds cb.recovery_timeout) now
]

unfoldable pub on_success : CircuitBreaker → CircuitBreaker
on_success cb = elim cb.state [
  | half_open ↦
      if leb cb.success_threshold (cb.success_count + 1)
      then record cb { failure_count = 0; state = closed; success_count = 0 }
      else record cb { failure_count = 0; success_count = cb.success_count + 1 }
  | _ ↦ record cb { failure_count = 0 }
]

unfoldable pub on_failure : ℕ → CircuitBreaker → CircuitBreaker
on_failure now cb = elim cb.state [
  | half_open ↦ record cb {
    failure_count = cb.failure_count + 1;
    last_failure_time = some now;
    state = opened;
    success_count = 0;
  }
  | _ ↦
      if leb cb.failure_threshold (cb.failure_count + 1)
      then record cb {
        failure_count = cb.failure_count + 1;
        last_failure_time = some now;
        state = opened;
      }
      else record cb { failure_count = cb.failure_count + 1; last_failure_time = some now }
]

-- The state that is returned and whether requests may proceed, then the new breaker.
unfoldable pub check_and_transition : ℕ → CircuitBreaker → BreakerState × Bool × CircuitBreaker
unfolding should_attempt_reset
check_and_transition now cb = elim cb.state [
  | opened ↦
      if should_attempt_reset now cb
      then (half_open, true, record cb { state = half_open; success_count = 0 })
      else (opened, false, cb)
  | other ↦ (other, true, cb)
]

unfoldable pub reset : CircuitBreaker → CircuitBreaker
reset cb = record cb {
  state = closed;
  failure_count = 0;
  success_count = 0;
  last_failure_time = none;
}

unfoldable pub open_error : CircuitBreaker → Error
open_error cb = record {
  class_of = exception;
  message =
      codes "Circuit breaker is OPEN. Service unavailable. Will retry after "
      ++ (decimal cb.recovery_timeout ++ codes "s cooldown.");
}

-- The part of `call` before `try`: `none` when it raises, else the breaker that goes on.
unfoldable pub admit : ℕ → CircuitBreaker → Option CircuitBreaker
unfolding check_and_transition
admit now cb =
    let (_, available, cb') = check_and_transition now cb in if available then some cb' else none

-- The part of `call` after `func` has come back at `now`.
unfoldable pub settle {ℓ} : {A : Type ℓ} → ℕ → Outcome A → CircuitBreaker → CircuitBreaker
unfolding on_success on_failure
settle now (returned a) cb = on_success cb
settle now (raised e) cb = if cb.expected e.class_of then on_failure now cb else cb

-- `call` with no other thread in between: `func` is run at `now` and comes back at `later`.
unfoldable pub call {ℓ} :
    {A : Type ℓ} → ℕ → ℕ → Outcome A → CircuitBreaker → Outcome A × CircuitBreaker
unfolding admit settle open_error
call now later func cb = elim (admit now cb) [
  | none ↦ (raised (open_error cb), cb)
  | some cb' ↦ (func, settle later func cb')
]
