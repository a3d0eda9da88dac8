-- ===== src/Breaker/Graph.antt =====
-- The transition diagram of the class comment: which event moves the breaker from which state.
use mirror_maestro.Common.{◌+◌, ◌≤◌, ◌≡◌, ◌≢◌, ◌↔◌, ◌⊎◌, true, arith}
use mirror_maestro.Breaker.{
  BreakerState, closed, opened, half_open, CircuitBreaker, should_attempt_reset, on_success,
  on_failure, check_and_transition, reset,
}
use mirror_maestro.Breaker.Events.{Event, check, success, failure, reset_now, step}

abbrev pub Edge : CircuitBreaker → Event → BreakerState → Type 0
Edge cb (check now) s = (cb.state ≡ opened) × (should_attempt_reset now cb ≡ true) × (s ≡ half_open)
Edge cb success s =
    (cb.state ≡ half_open) × (cb.success_threshold ≤ cb.success_count + 1) × (s ≡ closed)
Edge cb (failure now) s =
    ((cb.state ≡ half_open) ⊎ (cb.state ≡ closed) × (cb.failure_threshold ≤ cb.failure_count + 1))
    × (s ≡ opened)
Edge cb reset_now s = s ≡ closed

-- An event takes the breaker to another state exactly along the edges: from open to half open by
-- a check after the cooldown, from half open to closed by the last success that is needed, to
-- open by a failure while half open or by the failure that reaches the threshold while closed,
-- and to closed by a reset.
pub step_iff_Edge :
    (e : Event) (cb : CircuitBreaker) (s : BreakerState)
    → s ≢ cb.state
    → ((step e cb).state ≡ s) ↔ Edge cb e s
unfolding step on_success on_failure check_and_transition reset
step_iff_Edge (check now) cb s ne = ground arith
step_iff_Edge success cb s ne = ground arith
step_iff_Edge (failure now) cb s ne = ground arith
step_iff_Edge reset_now cb s ne = ground arith
