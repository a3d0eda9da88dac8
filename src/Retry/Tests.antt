-- ===== src/Retry/Tests.antt =====
-- Runs of the retry loop, and the theorems at concrete inputs.
use mirror_maestro.Common.{ℕ, ◌≤◌, ◌<◌, ◌≡◌, refl, none, [], ◌∷◌, sum, ltb, if◌then◌else◌}
use mirror_maestro.Text.{codes, contains, lower}
use mirror_maestro.Errors.{exception, Error, Outcome, returned, raised}
use mirror_maestro.Retry.{RateLimiter, execute_with_retry}
use mirror_maestro.Retry.Attempts.{
  waiting, decided_by, backoffs, execute_with_retry_lem, execute_with_retry_bounds,
}

abbrev limiter : RateLimiter
limiter = record { delay_ms = 200; max_retries = 3; operation_count = 0; start_time = none }

abbrev too_many : Error
too_many = record { class_of = exception; message = codes "HTTP 429 Too Many Requests" }

-- Two attempts are limited, the third succeeds.
abbrev operation : ℕ → Outcome ℕ
operation k = if ltb k 2 then raised too_many else returned 7

execute_with_retry-operation : execute_with_retry operation limiter ≡ record {
  result = returned 7;
  sleeps = 1 ∷ 2 ∷ [];
  attempts = 3;
  limiter = record limiter { operation_count = 1 };
}
unfolding execute_with_retry contains lower
execute_with_retry-operation = refl

execute_with_retry_lem_example :
    execute_with_retry operation limiter
    ≡ decided_by operation limiter
        (waiting operation limiter 3 0)
        (backoffs 0 (waiting operation limiter 3 0))
execute_with_retry_lem_example = execute_with_retry_lem operation limiter

execute_with_retry_bounds_example :
    let r = execute_with_retry operation limiter in
    (1 ≤ r.attempts) × (r.attempts ≤ 4) × (sum r.sleeps < 8)
execute_with_retry_bounds_example = execute_with_retry_bounds operation limiter
