-- ===== src/Retry.antt =====
-- app/core/rate_limiter.py: `RateLimiter`.
-- The operation is what its attempts give back, `operation 0` the first one. What the loop does
-- besides is in its report: the seconds slept before each retry, and how many attempts were made.
pub mod Attempts
mod Tests
use mirror_maestro.Common.{
  ℕ, zero, suc, ◌+◌, ◌*◌, ◌^◌, Bool, true, false, ◌&&◌, ◌||◌, Option, none, some, List, [], ◌∷◌,
  ◌++◌, ltb, if◌then◌else◌,
}
use mirror_maestro.Text.{Text, codes, contains, lower}
use mirror_maestro.Errors.{exception, Error, Outcome, returned, raised}

pub record RateLimiter : Type 0 where
  pub delay_ms : ℕ
  pub max_retries : ℕ
  pub operation_count : ℕ
  pub start_time : Option ℕ

-- `__init__`
unfoldable pub new_limiter : ℕ → ℕ → RateLimiter
new_limiter delay retries = record {
  delay_ms = delay;
  max_retries = retries;
  operation_count = 0;
  start_time = none;
}

-- `delay`: the milliseconds slept.
unfoldable pub delay : RateLimiter → List ℕ
delay rl = if ltb 0 rl.delay_ms then rl.delay_ms ∷ [] else []

unfoldable pub start_tracking : ℕ → RateLimiter → RateLimiter
start_tracking now rl = record rl { operation_count = 0; start_time = some now }

unfoldable pub record_operation : RateLimiter → RateLimiter
record_operation rl = record rl { operation_count = rl.operation_count + 1 }

-- `is_rate_limit`, from the exception's text in lower case.
unfoldable pub is_rate_limit : Error → Bool
is_rate_limit e =
    let error_str = lower e.message in
    contains (codes "429") error_str
    || contains (codes "rate limit") error_str
    || contains (codes "too many requests") error_str

pub record Report {ℓ} (A : Type ℓ) : Type ℓ where
  pub result : Outcome A
  pub sleeps : List ℕ
  pub attempts : ℕ
  pub limiter : RateLimiter

abbrev last_or_failed : Option Error → Error
last_or_failed (some e) = e
last_or_failed none = record { class_of = exception; message = codes "Failed to execute operation" }

module _ {ℓ} {A : Type ℓ} (operation : ℕ → Outcome A) where
  abbrev after_sleep : ℕ → Report A → Report A
  after_sleep s r = record r { sleeps = s ∷ r.sleeps }

  -- `for attempt in range(...)`: `left` rounds are left, `attempt` is the number of this one.
  unfoldable pub retry_loop : ℕ → ℕ → Option Error → RateLimiter → Report A
  unfolding is_rate_limit record_operation
  retry_loop zero attempt last_error rl = record {
    result = raised (last_or_failed last_error);
    sleeps = [];
    attempts = attempt;
    limiter = rl;
  }
  retry_loop (suc left) attempt last_error rl = elim (operation attempt) [
    | returned a ↦ record {
      result = returned a;
      sleeps = [];
      attempts = attempt + 1;
      limiter = record_operation rl;
    }
    | raised e ↦
        let again = after_sleep (2 ^ attempt) (retry_loop left (attempt + 1) (some e) rl) in
        if is_rate_limit e && ltb attempt rl.max_retries
        then again
        else record { result = raised e; sleeps = []; attempts = attempt + 1; limiter = rl }
  ]

  unfoldable pub execute_with_retry : RateLimiter → Report A
  unfolding retry_loop
  execute_with_retry rl = retry_loop (rl.max_retries + 1) 0 none rl
