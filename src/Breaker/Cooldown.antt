-- ===== src/Breaker/Cooldown.antt =====
-- While the cooldown lasts an open circuit lets nothing through.
use mirror_maestro.Common.{
  ℕ, ◌+◌, ◌≤◌, ◌<◌, ◌≡◌, refl, sym, ◌∙◌, Bool, true, false, some, List, [], ◌∷◌, All, arith,
  if◌then◌else◌,
}
use mathlib.Core.Path.{subst}
use mirror_maestro.Errors.{Outcome, returned, raised}
use mirror_maestro.Breaker.{
  BreakerState, opened, half_open, CircuitBreaker, microseconds, should_attempt_reset, on_success,
  on_failure, check_and_transition, reset, open_error, call,
}
use mirror_maestro.Breaker.Events.{Event, check, success, failure, reset_now, step, run}

abbrev pub is_opened : BreakerState → Bool
is_opened opened = true
is_opened _ = false

abbrev pub counted {ℓ} : {A : Type ℓ} → ℕ → Outcome A → CircuitBreaker → CircuitBreaker
counted later (returned a) cb = step success cb
counted later (raised e) cb = if cb.expected e.class_of then step (failure later) cb else cb

-- The event is no reset, no failure before `start`, and no check as late as `start + cooldown`.
abbrev pub Within : ℕ → ℕ → Event → Type 0
Within start cooldown (check now) = now < start + cooldown
Within start cooldown success = Unit
Within start cooldown (failure now) = start ≤ now
Within start cooldown reset_now = ⊥

-- Open since a failure at `start` or later.
pub record IsOpenSince (start : ℕ) (cb : CircuitBreaker) : Type 0 where
  pub is_open : cb.state ≡ opened
  pub last : ℕ
  pub last_lem : cb.last_failure_time ≡ some last
  pub since : start ≤ last

step-IsOpenSince :
    (start : ℕ) (e : Event) (cb : CircuitBreaker)
    → Within start (microseconds cb.recovery_timeout) e
    → IsOpenSince start cb
    → IsOpenSince start (step e cb)
unfolding step on_success on_failure check_and_transition should_attempt_reset
step-IsOpenSince start (check now) cb w o = record {
  is_open = ground arith;
  last = o.last;
  last_lem = ground arith;
  since = o.since;
}
step-IsOpenSince start success cb w o = record {
  is_open = ground arith;
  last = o.last;
  last_lem = ground arith;
  since = o.since;
}
step-IsOpenSince start (failure now) cb w o = record {
  is_open = ground arith;
  last = now;
  last_lem = ground arith;
  since = w;
}
step-IsOpenSince start reset_now cb w o = absurd w

timeout-step :
    (e : Event) (cb : CircuitBreaker) → (step e cb).recovery_timeout ≡ cb.recovery_timeout
unfolding step on_success on_failure check_and_transition reset
timeout-step (check now) cb = ground arith
timeout-step success cb = ground arith
timeout-step (failure now) cb = ground arith
timeout-step reset_now cb = ground arith

run-IsOpenSince :
    (start : ℕ) (es : List Event) (cb : CircuitBreaker)
    → All (Within start (microseconds cb.recovery_timeout)) es
    → IsOpenSince start cb
    → IsOpenSince start (run es cb)
unfolding run
run-IsOpenSince start [] cb w o = o
run-IsOpenSince start (e ∷ es) cb w o =
    run-IsOpenSince start es (step e cb) (rw (timeout-step e cb) w.1)
      (step-IsOpenSince start e cb w.0 o)

timeout-run :
    (es : List Event) (cb : CircuitBreaker) → (run es cb).recovery_timeout ≡ cb.recovery_timeout
unfolding run
timeout-run [] cb = refl
timeout-run (e ∷ es) cb = timeout-run es (step e cb) ∙ timeout-step e cb

failure-IsOpenSince :
    (t : ℕ) (cb : CircuitBreaker) → cb.state ≡ opened → IsOpenSince t (step (failure t) cb)
unfolding step on_failure
failure-IsOpenSince t cb h = record {
  is_open = ground arith;
  last = t;
  last_lem = ground arith;
  since = omega arith;
}

-- Whatever threads do in the window of a circuit that is open since a failure at `start` or later,
-- short of a reset, it stays open, a success that comes back late included. A failure at `t` after
-- that starts the cooldown again: the circuit stays open through whatever threads then do, short of
-- a reset, until `t` plus the cooldown.
pub stays_open :
    (start t : ℕ) (es later : List Event) (cb : CircuitBreaker)
    → All (Within start (microseconds cb.recovery_timeout)) es
    → All (Within t (microseconds cb.recovery_timeout)) later
    → IsOpenSince start cb
    → ((run es cb).state ≡ opened) × ((run later (step (failure t) (run es cb))).state ≡ opened)
stays_open start t es later cb w v o =
    let open_then = run-IsOpenSince start es cb w o in
    let same = timeout-step (failure t) (run es cb) ∙ timeout-run es cb in
    (
      open_then.is_open,
      (run-IsOpenSince t later (step (failure t) (run es cb))
          (subst (λ x. All (Within t (microseconds x)) later) (sym same) v)
          (failure-IsOpenSince t (run es cb) open_then.is_open)).is_open,
    )

-- During the cooldown `call` raises at once, without its function's outcome and with the breaker
-- unchanged. In every other case it gives its function's outcome: a return counts as a success, an
-- exception that is expected as a failure, any other exception as neither, and after the cooldown
-- all that happens to a breaker that is half open with no success yet.
pub call_cases {ℓ} :
    {A : Type ℓ} (now later : ℕ) (func : Outcome A) (cb : CircuitBreaker)
    → call now later func cb ≡ (
        if is_opened cb.state
        then (if should_attempt_reset now cb
            then (func, counted later func (record cb { state = half_open; success_count = 0 }))
            else (raised (open_error cb), cb))
        else (func, counted later func cb))
unfolding call step
call_cases now later (returned a) cb = ground arith
call_cases now later (raised e) cb = ground arith
