-- ===== src/Breaker/Invariant.antt =====
-- The counters of a circuit breaker agree with its state, whatever its threads do.
use mirror_maestro.Common.{ℕ, ◌<◌, ◌≡◌, ◌≢◌, none, List, [], ◌∷◌, Bool, arith}
use mirror_maestro.Errors.{ErrorClass, Outcome, returned, raised}
use mirror_maestro.Breaker.{
  closed, opened, half_open, CircuitBreaker, new_breaker, on_success, on_failure,
  check_and_transition, reset, call,
}
use mirror_maestro.Breaker.Events.{Event, check, success, failure, reset_now, step, run}

-- While closed, the failures are below the threshold; the recovery count runs only while half
-- open, and stays below its threshold; an open breaker knows when it last failed.
pub record IsValid (cb : CircuitBreaker) : Type 0 where
  pub failure_room : cb.state ≡ closed → cb.failure_count < cb.failure_threshold
  pub success_room : cb.state ≡ half_open → cb.success_count < cb.success_threshold
  pub success_idle : cb.state ≢ half_open → cb.success_count ≡ 0
  pub failed_at : cb.state ≡ opened → cb.last_failure_time ≢ none
  pub failures_positive : 0 < cb.failure_threshold
  pub successes_positive : 0 < cb.success_threshold

pub new_breaker-IsValid :
    (failures timeout successes : ℕ) (classes : ErrorClass → Bool)
    → 0 < failures
    → 0 < successes
    → IsValid (new_breaker failures timeout successes classes)
unfolding new_breaker
new_breaker-IsValid failures timeout successes classes f s = ground arith

pub step-IsValid : (e : Event) (cb : CircuitBreaker) → IsValid cb → IsValid (step e cb)
unfolding step on_success on_failure check_and_transition reset
step-IsValid (check now) cb v = ground arith
step-IsValid success cb v = ground arith
step-IsValid (failure now) cb v = ground arith
step-IsValid reset_now cb v = ground arith

pub run-IsValid : (es : List Event) (cb : CircuitBreaker) → IsValid cb → IsValid (run es cb)
unfolding run
run-IsValid [] cb v = v
run-IsValid (e ∷ es) cb v = run-IsValid es (step e cb) (step-IsValid e cb v)

pub check_and_transition-IsValid :
    (now : ℕ) (cb : CircuitBreaker) → IsValid cb → IsValid (check_and_transition now cb).2
check_and_transition-IsValid now cb v = unfold step in step-IsValid (check now) cb v

pub call-IsValid {ℓ} :
    {A : Type ℓ} (now later : ℕ) (func : Outcome A) (cb : CircuitBreaker)
    → IsValid cb
    → IsValid (call now later func cb).1
unfolding step on_success on_failure check_and_transition call
call-IsValid now later (returned a) cb v = ground arith
call-IsValid now later (raised e) cb v = ground arith
