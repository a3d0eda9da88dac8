-- ===== src/Breaker/Tests.antt =====
-- Runs of the circuit breaker, and the theorems at concrete inputs.
use mirror_maestro.Common.{◌≡◌, ◌↔◌, refl, none, some, List, [], ◌∷◌, arith}
use mirror_maestro.Errors.{is_client_error}
use mirror_maestro.Breaker.{
  CircuitBreaker, closed, opened, half_open, on_success, on_failure, check_and_transition,
}
use mirror_maestro.Breaker.Events.{Event, check, success, failure, step, run}
use mirror_maestro.Breaker.Invariant.{IsValid, run-IsValid}
use mirror_maestro.Breaker.Graph.{Edge, step_iff_Edge}
use mirror_maestro.Breaker.Cooldown.{stays_open}

abbrev fresh : CircuitBreaker
fresh = record {
  failure_threshold = 2;
  recovery_timeout = 60;
  success_threshold = 3;
  expected = is_client_error;
  failure_count = 0;
  success_count = 0;
  last_failure_time = none;
  state = closed;
}

abbrev tripped : CircuitBreaker
tripped = record fresh { failure_count = 2; last_failure_time = some 1000; state = opened }

abbrev probing : CircuitBreaker
probing = record tripped { state = half_open }

abbrev history : List Event
history = failure 5 ∷ failure 1000 ∷ success ∷ check 60001000 ∷ success ∷ failure 60002000 ∷ []

run-history : (run history fresh).state ≡ opened
unfolding run step on_success on_failure check_and_transition
run-history = refl

step_iff_Edge_example :
    ((step (check 60001000) tripped).state ≡ half_open) ↔ Edge tripped (check 60001000) half_open
step_iff_Edge_example = step_iff_Edge (check 60001000) tripped half_open (λ e. cc)

fresh-IsValid : IsValid fresh
fresh-IsValid = ground arith

run-IsValid_example : IsValid (run history fresh)
run-IsValid_example = run-IsValid history fresh fresh-IsValid

stays_open_example :
    ((run (success ∷ failure 2000 ∷ check 60000999 ∷ []) tripped).state ≡ opened)
    × ((run (check 120000000 ∷ []) (
          step
            (failure 60001000)
            (run (success ∷ failure 2000 ∷ check 60000999 ∷ []) tripped))).state
        ≡ opened)
stays_open_example =
    stays_open 1000 60001000 (success ∷ failure 2000 ∷ check 60000999 ∷ []) (check 120000000 ∷ [])
      tripped (omega arith) (omega arith)
      (record { is_open = refl; last = 1000; last_lem = refl; since = omega arith })
