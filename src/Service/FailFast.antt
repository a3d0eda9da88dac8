-- ===== src/Service/FailFast.antt =====
-- A failing instance: its circuit opens in the middle of the retries and ends them.
use Prim.Native.Nat.{min}
use native.Mathlib.Decide.{dec_lt}
use mirror_maestro.Common.{
  ltb, if◌then◌else◌, ℕ, zero, suc, ◌+◌, ◌≤◌, ◌<◌, ◌≡◌, refl, true, false, Option, none, some, [],
  arith,
}
use mirror_maestro.Text.{Text, eq_text_iff, lookup, lookup-insert}
use mirror_maestro.Errors.{is_client_error, Error, raised}
use mirror_maestro.Breaker.{
  CircuitBreaker, closed, opened, should_attempt_reset, on_failure, check_and_transition, admit,
  call, microseconds, open_error,
}
use mirror_maestro.Retry.{RateLimiter}
use mirror_maestro.Service.{
  Service, Operation, Report, retry, reaction, attempts, get_circuit_breaker, protected, execute,
  circuit_open_error, wrapped, runs,
}

-- While the cooldown of an instance's circuit lasts, `execute` raises `GitLabConnectionError`
-- without running the operation or sleeping, and every instance keeps its breaker.
pub execute_during_cooldown {ℓ} :
    {A : Type ℓ} (url : Text) (op : Operation A) (s : Service) (cb : CircuitBreaker)
    → lookup url s.circuit_breakers ≡ some cb
    → cb.state ≡ opened
    → should_attempt_reset op.checked_at cb ≡ false
    → let (r, s') = execute url op s in
      (r.result ≡ raised (circuit_open_error op.name url s.recovery))
      × (r.invoked ≡ 0)
      × (r.sleeps ≡ [])
      × ((j : Text) → lookup j s'.circuit_breakers ≡ lookup j s.circuit_breakers)
unfolding execute protected get_circuit_breaker check_and_transition
execute_during_cooldown url op s cb known is_open early = (
  ground arith,
  ground arith,
  ground arith,
  λ j. ground (arith, eq_text_iff url j, lookup-insert url j cb s.circuit_breakers),
)

-- What a failure at `now` does to a closed breaker that has `room` failures left before its last.
on_failure_last :
    (now : ℕ) (cb : CircuitBreaker)
    → cb.state ≡ closed
    → cb.failure_count + 1 ≡ cb.failure_threshold
    → ((on_failure now cb).state ≡ opened)
      × ((on_failure now cb).last_failure_time ≡ some now)
      × ((on_failure now cb).recovery_timeout ≡ cb.recovery_timeout)
unfolding on_failure
on_failure_last now cb c full = ground arith

on_failure_room :
    (now room : ℕ) (cb : CircuitBreaker)
    → cb.state ≡ closed
    → cb.failure_count + suc (suc room) ≡ cb.failure_threshold
    → ((on_failure now cb).state ≡ closed)
      × ((on_failure now cb).failure_count + suc room ≡ (on_failure now cb).failure_threshold)
      × ((on_failure now cb).recovery_timeout ≡ cb.recovery_timeout)
      × ((on_failure now cb).expected ≡ cb.expected)
unfolding on_failure
on_failure_room now room cb c left = ground arith

early_after :
    (last now : ℕ) (cb : CircuitBreaker)
    → cb.last_failure_time ≡ some last
    → now < last + microseconds cb.recovery_timeout
    → should_attempt_reset now cb ≡ false
unfolding should_attempt_reset
early_after last now cb e early = ground arith

open_error_eq :
    (cb c : CircuitBreaker)
    → c.recovery_timeout ≡ cb.recovery_timeout
    → open_error c ≡ open_error cb
unfolding open_error
open_error_eq cb c e = rw e

module _ {ℓ} {A : Type ℓ} (max_retries : ℕ) (op : Operation A) (errors : ℕ → Error)
    (fails : (k : ℕ) → op.outcome k ≡ raised (errors k))
    (transient : (k : ℕ) → reaction (errors k).class_of ≡ retry)
    (alone : (k : ℕ) (cb : CircuitBreaker) → op.meanwhile k cb ≡ cb) where
  -- No attempt begins as late as a cooldown after the end of the one before.
  abbrev Quick : ℕ → Type 0
  Quick recovery = (k : ℕ) → op.begins (k + 1) < op.ends k + microseconds recovery

  expected_failure :
      (k : ℕ) (cb : CircuitBreaker)
      → cb.expected ≡ is_client_error
      → cb.expected (errors k).class_of ≡ true
  expected_failure k cb x = let t = transient k in rw x (ground arith)

  failing_call :
      (k : ℕ) (cb : CircuitBreaker)
      → cb.state ≡ closed
      → cb.expected ≡ is_client_error
      → call (op.begins k) (op.ends k) (op.outcome k) cb
        ≡ (raised (errors k), on_failure (op.ends k) cb)
  unfolding call
  failing_call k cb c x = rw (fails k) (ground (arith, expected_failure k cb x))

  blocked_call :
      (k : ℕ) (cb : CircuitBreaker)
      → cb.state ≡ opened
      → should_attempt_reset (op.begins k) cb ≡ false
      → call (op.begins k) (op.ends k) (op.outcome k) cb ≡ (raised (open_error cb), cb)
  unfolding call
  blocked_call k cb o early = ground arith

  runs_early :
      (k : ℕ) (cb : CircuitBreaker)
      → cb.state ≡ opened
      → should_attempt_reset (op.begins k) cb ≡ false
      → runs max_retries op k cb ≡ 0
  unfolding admit
  runs_early k cb o early = ground arith

  runs_closed : (k : ℕ) (cb : CircuitBreaker) → cb.state ≡ closed → runs max_retries op k cb ≡ 1
  unfolding admit
  runs_closed k cb c = ground arith

  abbrev Ends : Report A → ℕ → Error → Type ℓ
  Ends r n e = (r.invoked ≡ n) × (r.result ≡ raised e)

  blocked_attempt :
      (left k : ℕ) (last : Option Error) (cb : CircuitBreaker) (rl : RateLimiter)
      → cb.state ≡ opened
      → should_attempt_reset (op.begins k) cb ≡ false
      → Ends (attempts max_retries op (suc left) k last cb rl) 0 (wrapped op.name (open_error cb))
  unfolding attempts open_error
  blocked_attempt left k last cb rl o early =
      rw (alone k cb, runs_early k cb o early, blocked_call k cb o early) (refl, refl)

  failing_attempt :
      (left k : ℕ) (last : Option Error) (cb : CircuitBreaker) (rl : RateLimiter) (n : ℕ)
      (e : Error)
      → k < max_retries
      → cb.state ≡ closed
      → cb.expected ≡ is_client_error
      → Ends
          (attempts max_retries op left (k + 1) (some (errors k)) (on_failure (op.ends k) cb) rl)
          n
          e
      → Ends (attempts max_retries op (suc left) k last cb rl) (suc n) e
  unfolding attempts
  failing_attempt left k last cb rl n e more c x h =
      rw (alone k cb, runs_closed k cb c, failing_call k cb c x) (ground (arith, transient k))

  last_attempt :
      (left : ℕ) (last : Option Error) (cb : CircuitBreaker) (rl : RateLimiter)
      → cb.state ≡ closed
      → cb.expected ≡ is_client_error
      → Ends (attempts max_retries op (suc left) max_retries last cb rl) 1 (errors max_retries)
  unfolding attempts
  last_attempt left last cb rl c x =
      rw (alone max_retries cb, runs_closed max_retries cb c, failing_call max_retries cb c x)
        (ground (arith, transient max_retries))

  module _ (recovery : ℕ) (quick : Quick recovery) where
    opens_midway :
        (left k room : ℕ) (last : Option Error) (cb : CircuitBreaker) (rl : RateLimiter)
        → k + left ≡ max_retries
        → room < left
        → cb.state ≡ closed
        → cb.expected ≡ is_client_error
        → cb.recovery_timeout ≡ recovery
        → cb.failure_count + suc room ≡ cb.failure_threshold
        → Ends
            (attempts max_retries op (suc left) k last cb rl)
            (suc room)
            (wrapped op.name (open_error cb))
    opens_midway zero k room last cb rl total h c x r full = absurd (omega arith)
    opens_midway (suc left) k zero last cb rl total h c x r full =
        let after = on_failure (op.ends k) cb in
        let (o, at', same) = on_failure_last (op.ends k) cb c (omega arith) in
        let soon = quick k in
        let early = early_after (op.ends k) (op.begins (k + 1)) after at' (rw (same, r) soon) in
        failing_attempt (suc left) k last cb rl 0 (wrapped op.name (open_error cb)) (omega arith) c
          x
          (rw (← open_error_eq cb after same)
            (blocked_attempt left (k + 1) (some (errors k)) after rl o early))
    opens_midway (suc left) k (suc room) last cb rl total h c x r full =
        let after = on_failure (op.ends k) cb in
        let (o, rest, same, classes) = on_failure_room (op.ends k) room cb c full in
        failing_attempt (suc left) k last cb rl (suc room) (wrapped op.name (open_error cb))
          (omega arith) c x
          (rw (← open_error_eq cb after same) (
            opens_midway left (k + 1) room (some (errors k)) after rl (omega arith) (omega arith) o
              (rw (classes, x)) (rw (same, r)) rest))

  exhausts :
      (left k room : ℕ) (last : Option Error) (cb : CircuitBreaker) (rl : RateLimiter)
      → k + left ≡ max_retries
      → left ≤ room
      → cb.state ≡ closed
      → cb.expected ≡ is_client_error
      → cb.failure_count + suc room ≡ cb.failure_threshold
      → Ends (attempts max_retries op (suc left) k last cb rl) (suc left) (errors max_retries)
  exhausts zero k room last cb rl total h c x full =
      let e : k ≡ max_retries = omega arith in rw e (last_attempt 0 last cb rl c x)
  exhausts (suc left) k zero last cb rl total h c x full = absurd (omega arith)
  exhausts (suc left) k (suc room) last cb rl total h c x full =
      let after = on_failure (op.ends k) cb in
      let (o, rest, same, classes) = on_failure_room (op.ends k) room cb c full in
      failing_attempt (suc left) k last cb rl (suc left) (errors max_retries) (omega arith) c x (
        exhausts left (k + 1) room (some (errors k)) after rl (omega arith) (omega arith) o
          (rw (classes, x)) rest)

-- An operation that meets a closed circuit and fails with a transient error at every attempt, while
-- no other thread uses the instance and no wait is as long as the cooldown, is run
-- `max_retries + 1` times, or only until its failures open the circuit. If the circuit opens
-- before the last attempt, the error raised is the open circuit's, wrapped as unexpected; else it
-- is the last attempt's.
pub execute_fails_fast {ℓ} :
    {A : Type ℓ} (url : Text) (op : Operation A) (s : Service) (errors : ℕ → Error)
    (cb : CircuitBreaker) (room : ℕ)
    → ((k : ℕ) → op.outcome k ≡ raised (errors k))
    → ((k : ℕ) → reaction (errors k).class_of ≡ retry)
    → ((k : ℕ) (c : CircuitBreaker) → op.meanwhile k c ≡ c)
    → ((k : ℕ) → op.begins (k + 1) < op.ends k + microseconds cb.recovery_timeout)
    → lookup url s.circuit_breakers ≡ some cb
    → cb.state ≡ closed
    → cb.expected ≡ is_client_error
    → cb.failure_count + suc room ≡ cb.failure_threshold
    → ((execute url op s).0.invoked ≡ min (s.max_retries + 1) (suc room))
      × ((execute url op s).0.result
          ≡ raised (
              if ltb room s.max_retries
              then wrapped op.name (open_error cb)
              else errors s.max_retries))
unfolding execute protected get_circuit_breaker check_and_transition
execute_fails_fast url op s errors cb room fails transient alone quick known c x full =
    let m = s.max_retries in
    let rl = s.rate_limiter in
    let rounds : m + 1 ≡ suc m = omega arith in
    elim (dec_lt room m) [
      | yes h ↦
          let t =
            opens_midway m op errors fails transient alone cb.recovery_timeout quick m 0 room none
              cb rl (omega arith) h c x refl full in
          ground (arith, t.0, t.1, rounds)
      | no h ↦
          let t =
            exhausts m op errors fails transient alone m 0 room none cb rl (omega arith)
              (omega arith) c x full in
          ground (arith, t.0, t.1, rounds)
    ]
