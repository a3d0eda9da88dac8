-- ===== src/Sync/Calls.antt =====
-- app/core/issue_sync.py: `_execute_gitlab_api_call`, an operation under the retries of
-- `RateLimiter` and one of the engine's two circuit breakers.
use mirror_maestro.Common.{
  ℕ, ◌+◌, ◌<◌, true, List, [], ◌++◌, ◌≡◌, ◌↔◌, ◌≤◌, refl, inl, inr, Bool-cases, if◌then◌else◌,
  arith,
}
use mirror_maestro.Text.{codes, decimal}
use mirror_maestro.Errors.{exception, Error, Outcome, returned, raised}
use mirror_maestro.Breaker.{CircuitBreaker, on_success, on_failure, check_and_transition}
use mirror_maestro.Breaker.Invariant.{IsValid, check_and_transition-IsValid, step-IsValid}
use mirror_maestro.Breaker.Events.{step, success, failure}
use mirror_maestro.Retry.{RateLimiter, delay, execute_with_retry}
use mirror_maestro.Retry.Attempts.{execute_with_retry_bounds}

abbrev unavailable : CircuitBreaker → Error
unavailable cb = record {
  class_of = exception;
  message =
      codes "Circuit breaker is OPEN. Service unavailable. Will retry after "
      ++ (decimal cb.recovery_timeout ++ codes "s cooldown.");
}

pub record ApiCall (A : Type 0) : Type 0 where
  pub result : Outcome A
  pub attempts : ℕ
  pub waits_ms : List ℕ
  pub sleeps : List ℕ
  pub breaker : CircuitBreaker
  pub limiter : RateLimiter

checked-count :
    (now : ℕ) (cb : CircuitBreaker)
    → (check_and_transition now cb).2.failure_count ≡ cb.failure_count
unfolding check_and_transition
checked-count now cb = ground arith

module _ {A : Type 0} where
  abbrev pub settled : ℕ → Outcome A → CircuitBreaker → CircuitBreaker
  settled later (returned a) cb = on_success cb
  settled later (raised x) cb = on_failure later cb

  -- The breaker is asked at `now`, and told at `later` how the operation ended. The attempts of
  -- `execute_with_retry` are outcomes of the operation.
  unfoldable pub execute_gitlab_api_call :
      ℕ → ℕ → (ℕ → Outcome A) → CircuitBreaker → RateLimiter → ApiCall A
  execute_gitlab_api_call now later operation cb rl =
      let (_, is_available, cb') = check_and_transition now cb in
      let r = execute_with_retry operation rl in
      if is_available
      then record {
        result = r.result;
        attempts = r.attempts;
        waits_ms = delay rl;
        sleeps = r.sleeps;
        breaker = settled later r.result cb';
        limiter = r.limiter;
      }
      else record {
        result = raised (unavailable cb);
        attempts = 0;
        waits_ms = delay rl;
        sleeps = [];
        breaker = cb';
        limiter = rl;
      }

  settled-IsValid :
      (later : ℕ) (r : Outcome A) (cb : CircuitBreaker) → IsValid cb → IsValid (settled later r cb)
  unfolding step
  settled-IsValid later (returned a) cb v = step-IsValid success cb v
  settled-IsValid later (raised x) cb v = step-IsValid (failure later) cb v

  settled-count :
      (later : ℕ) (r : Outcome A) (cb : CircuitBreaker)
      → (settled later r cb).failure_count ≤ cb.failure_count + 1
  unfolding on_success on_failure
  settled-count later (returned a) cb = ground arith
  settled-count later (raised x) cb = ground arith

  -- A call leaves a valid breaker valid and counts one failure at most, however often it retries; and
  -- the operation is attempted if and only if the breaker lets it through.
  pub execute_gitlab_api_call_lem :
      (now later : ℕ) (operation : ℕ → Outcome A) (cb : CircuitBreaker) (rl : RateLimiter)
      → IsValid cb
      → IsValid (execute_gitlab_api_call now later operation cb rl).breaker
        × ((execute_gitlab_api_call now later operation cb rl).breaker.failure_count
            ≤ cb.failure_count + 1)
        × ((check_and_transition now cb).1 ≡ true
            ↔ 0 < (execute_gitlab_api_call now later operation cb rl).attempts)
  unfolding execute_gitlab_api_call
  execute_gitlab_api_call_lem now later operation cb rl v =
      let valid = check_and_transition-IsValid now cb v in
      let after = (check_and_transition now cb).2 in
      let r = (execute_with_retry operation rl).result in
      let same = checked-count now cb in
      let tried = (execute_with_retry_bounds operation rl).0 in
      elim (Bool-cases (check_and_transition now cb).1) [
        | inl e ↦ rw e (
          settled-IsValid later r after valid,
          omega (arith, settled-count later r after, same),
          (λ _. tried, λ _. refl),
        )
        | inr e ↦
            rw e (valid, omega (arith, same), (λ h. ground (arith, h), λ h. ground (arith, h)))
      ]
