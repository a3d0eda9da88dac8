-- ===== src/Breaker/Events.antt =====
-- The breaker as a state machine. Every method runs under the breaker's lock, so what several
-- threads do is some sequence of these events.
use mirror_maestro.Common.{ℕ, List, [], ◌∷◌}
use mirror_maestro.Breaker.{CircuitBreaker, on_success, on_failure, check_and_transition, reset}

-- `check` is `check_and_transition`, or the first block of `call`; `success` and `failure` are its
-- later blocks; the number is the time.
pub data Event : Type 0 where
  check : ℕ → Event
  success : Event
  failure : ℕ → Event
  reset_now : Event

unfoldable pub step : Event → CircuitBreaker → CircuitBreaker
step (check now) cb = (check_and_transition now cb).2
step success cb = on_success cb
step (failure now) cb = on_failure now cb
step reset_now cb = reset cb

unfoldable pub run : List Event → CircuitBreaker → CircuitBreaker
run [] cb = cb
run (e ∷ es) cb = run es (step e cb)
