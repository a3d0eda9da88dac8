-- ===== src/Breaker/Recovery.antt =====
-- How many failures open the circuit, and how many successes close it.
use mirror_maestro.Common.{
  ℕ, zero, suc, ◌+◌, ◌<◌, ◌≡◌, List, [], ◌∷◌, map, length, replicate, arith, leb, if◌then◌else◌,
}
use mirror_maestro.Breaker.{closed, opened, half_open, CircuitBreaker, on_success, on_failure}
use mirror_maestro.Breaker.Events.{success, failure, step, run}

successes_keep_closed :
    (k : ℕ) (cb : CircuitBreaker)
    → cb.state ≡ closed
    → (run (replicate k success) cb).state ≡ closed
unfolding run step on_success
successes_keep_closed zero cb c = c
successes_keep_closed (suc k) cb c = successes_keep_closed k (step success cb) (ground arith)

-- A half open circuit that sees `k` successes in a row is closed exactly when they bring the
-- recovery count to the success threshold; until then it stays half open.
pub recovers_after :
    (k : ℕ) (cb : CircuitBreaker)
    → cb.state ≡ half_open
    → cb.success_count < cb.success_threshold
    → (run (replicate k success) cb).state
      ≡ (if leb cb.success_threshold (cb.success_count + k) then closed else half_open)
unfolding run step on_success
recovers_after zero cb h room = ground arith
recovers_after (suc k) cb h room =
    ground (arith, recovers_after k (step success cb), successes_keep_closed k (step success cb))

failures_keep_opened :
    (times : List ℕ) (cb : CircuitBreaker)
    → cb.state ≡ opened
    → (run (map failure times) cb).state ≡ opened
unfolding run step on_failure
failures_keep_opened [] cb o = o
failures_keep_opened (now ∷ times) cb o =
    failures_keep_opened times (step (failure now) cb) (ground arith)

-- A closed circuit that sees only failures is open exactly when they bring the failure count to
-- the failure threshold; until then it stays closed.
pub opens_after :
    (times : List ℕ) (cb : CircuitBreaker)
    → cb.state ≡ closed
    → cb.failure_count < cb.failure_threshold
    → (run (map failure times) cb).state
      ≡ (if leb cb.failure_threshold (cb.failure_count + length times) then opened else closed)
unfolding run step on_failure
opens_after [] cb c room = ground arith
opens_after (now ∷ times) cb c room = ground (
  arith,
  opens_after times (step (failure now) cb),
  failures_keep_opened times (step (failure now) cb),
)
