-- ===== src/Service.antt =====
-- app/core/mirror_gitlab_service.py: `MirrorGitLabService`.
-- An operation is a record of what its attempts meet: the clock when each begins and ends, what it
-- gives back, and what other threads do to the instance's circuit breaker before it.
pub mod Errors
pub mod Breakers
pub mod FailFast
pub mod Batch
mod Tests
use mirror_maestro.Common.{
  ℕ, zero, suc, ◌+◌, ◌*◌, ◌%◌, ◌^◌, Bool, true, false, not, Option, none, some, List, [], ◌∷◌, ◌++◌,
  length, ltb, ◌==◌, if◌then◌else◌,
}
use mirror_maestro.Text.{Text, codes, decimal, Dict, lookup, insert}
use mirror_maestro.Errors.{
  ErrorClass, client_error, authentication_error, connection_error, not_found_error,
  permission_error, rate_limit_error, server_error, value_error, exception, is_client_error, Error,
  Outcome, returned, raised,
}
use mirror_maestro.Breaker.{
  BreakerState, CircuitBreaker, closed, new_breaker, check_and_transition, admit, call, reset,
}
use mirror_maestro.Retry.{RateLimiter, new_limiter, start_tracking, delay, record_operation}
use mirror_maestro.Tracker.{BatchOperationTracker, new_tracker, record_success, record_failure}

pub record Service : Type 0 where
  pub max_retries : ℕ
  pub threshold : ℕ
  pub recovery : ℕ
  pub rate_limiter : RateLimiter
  pub circuit_breakers : Dict CircuitBreaker

-- `__init__`, after the settings have filled what was left out.
unfoldable pub new_service : ℕ → ℕ → ℕ → ℕ → ℕ → Service
unfolding new_limiter start_tracking
new_service now delay_ms retries failures cooldown = record {
  max_retries = retries;
  threshold = failures;
  recovery = cooldown;
  rate_limiter = start_tracking now (new_limiter delay_ms retries);
  circuit_breakers = [];
}

-- The default of `CircuitBreaker`'s `success_threshold`.
abbrev default_successes : ℕ
default_successes = 3

-- `_get_circuit_breaker`
unfoldable pub get_circuit_breaker : Text → Service → CircuitBreaker × Service
get_circuit_breaker url s = elim (lookup url s.circuit_breakers) [
  | some cb ↦ (cb, s)
  | none ↦
      let cb = new_breaker s.threshold s.recovery default_successes is_client_error in
      (cb, record s { circuit_breakers = insert url cb s.circuit_breakers })
]

pub record Operation {ℓ} (A : Type ℓ) : Type ℓ where
  pub name : Text
  pub checked_at : ℕ
  pub begins : ℕ → ℕ
  pub ends : ℕ → ℕ
  pub outcome : ℕ → Outcome A
  pub meanwhile : ℕ → CircuitBreaker → CircuitBreaker

-- What an `execute` has done: the milliseconds slept, and how often the operation was run.
pub record Report {ℓ} (A : Type ℓ) : Type ℓ where
  pub result : Outcome A
  pub sleeps : List ℕ
  pub invoked : ℕ
  pub breaker : CircuitBreaker
  pub limiter : RateLimiter

-- What the `except` clauses make of a class: try again, raise it as it is, or wrap it.
pub data Reaction : Type 0 where
  retry give_up wrap : Reaction

abbrev pub reaction : ErrorClass → Reaction
reaction rate_limit_error = retry
reaction connection_error = retry
reaction server_error = retry
reaction value_error = wrap
reaction exception = wrap
reaction _ = give_up

unfoldable pub wrapped : Text → Error → Error
wrapped name e = record {
  class_of = client_error;
  message = name ++ (codes ": Unexpected error - " ++ e.message);
}

abbrev last_or_failed : Text → Option Error → Error
last_or_failed name (some e) = e
last_or_failed name none = record {
  class_of = client_error;
  message = codes "Failed to execute " ++ name;
}

module _ {ℓ} {A : Type ℓ} (max_retries : ℕ) (op : Operation A) where
  abbrev finished : Outcome A → CircuitBreaker → RateLimiter → ℕ → Report A
  finished o cb rl n = record { result = o; sleeps = []; invoked = n; breaker = cb; limiter = rl }

  abbrev after_sleep : ℕ → ℕ → Report A → Report A
  after_sleep s n r = record r { sleeps = s ∷ r.sleeps; invoked = n + r.invoked }

  -- What follows an attempt; `again` is the rest of the loop.
  abbrev after_attempt :
      ℕ → ℕ → CircuitBreaker → RateLimiter → (Error → Report A) → Outcome A → Report A
  after_attempt attempt n cb rl again (returned a) =
      finished (returned a) cb (record_operation rl) n
  after_attempt attempt n cb rl again (raised e) = elim (reaction e.class_of) [
    | retry ↦
        let rest = after_sleep (2 ^ attempt * 1000) n (again e) in
        if ltb attempt max_retries then rest else finished (raised e) cb rl n
    | give_up ↦ finished (raised e) cb rl n
    | wrap ↦ finished (raised (wrapped op.name e)) cb rl n
  ]

  -- 1 if `call` runs the operation, 0 if the breaker is open.
  abbrev runs : ℕ → CircuitBreaker → ℕ
  runs attempt cb = elim (admit (op.begins attempt) cb) [ none ↦ 0 | some _ ↦ 1 ]

  -- `for attempt in range(...)`
  unfoldable pub attempts : ℕ → ℕ → Option Error → CircuitBreaker → RateLimiter → Report A
  unfolding wrapped record_operation
  attempts zero attempt last_error cb rl =
      finished (raised (last_or_failed op.name last_error)) cb rl 0
  attempts (suc left) attempt last_error cb rl =
      let before = op.meanwhile attempt cb in
      let (o, after) = call (op.begins attempt) (op.ends attempt) (op.outcome attempt) before in
      let again = λ (e : Error). attempts left (attempt + 1) (some e) after rl in
      after_attempt attempt (runs attempt before) after rl again o

unfoldable pub circuit_open_error : Text → Text → ℕ → Error
circuit_open_error name url cooldown = record {
  class_of = connection_error;
  message =
      name
      ++ (codes ": Circuit breaker is OPEN for "
          ++ (url
              ++ (codes ". Service unavailable. Will retry after "
                  ++ (decimal cooldown ++ codes "s cooldown."))));
}

-- `execute` once it has its breaker: the check, the delay and the attempts.
unfoldable pub protected {ℓ} :
    {A : Type ℓ} → Text → Operation A → Service → CircuitBreaker → Report A
protected {A} url op s cb =
    let (_, available, checked) = check_and_transition op.checked_at cb in
    let tried = attempts s.max_retries op (s.max_retries + 1) 0 none checked s.rate_limiter in
    let delayed : Report A = record tried { sleeps = delay s.rate_limiter ++ tried.sleeps } in
    if available
    then delayed
    else finished s.max_retries op (raised (circuit_open_error op.name url s.recovery)) checked
        s.rate_limiter 0

-- `execute`: its report, and the service afterwards. The breaker is one shared object, so what
-- the loop leaves of it is what the dict holds.
unfoldable pub execute {ℓ} : {A : Type ℓ} → Text → Operation A → Service → Report A × Service
execute url op s =
    let (cb, s') = get_circuit_breaker url s in
    let r = protected url op s' cb in
    (
      r,
      record s' {
        circuit_breakers = insert url r.breaker s'.circuit_breakers;
        rate_limiter = r.limiter;
      },
    )

pub record BatchItem {ℓ} (A : Type ℓ) : Type ℓ where
  pub url : Text
  pub operation : Operation A

abbrev record_result {ℓ} : {A : Type ℓ} → Outcome A → BatchOperationTracker → BatchOperationTracker
record_result (returned a) t = record_success t
record_result (raised e) t = record_failure e.message t

abbrev pub Progress : Type 0
Progress = ℕ × ℕ × ℕ

abbrev progress_of : BatchOperationTracker → Progress
progress_of t = (t.processed, t.succeeded, t.failed)

-- The loop of `execute_batch`, from the operation of number `i`. The calls of the progress
-- callback are collected; Python's `%` raises for a batch size of 0.
unfoldable pub batch_loop {ℓ} :
    {A : Type ℓ}
    → ℕ
    → List (BatchItem A)
    → ℕ
    → BatchOperationTracker
    → Service
    → BatchOperationTracker × List Progress × Service
unfolding record_success record_failure
batch_loop batch_size [] i t s = (t, [], s)
batch_loop batch_size (item ∷ items) i t s =
    let (r, s') = execute item.url item.operation s in
    let t' = record_result r.result t in
    let (t'', calls, s'') = batch_loop batch_size items (i + 1) t' s' in
    (t'', if (i + 1) % batch_size == 0 then progress_of t' ∷ calls else calls, s'')

unfoldable pub execute_batch {ℓ} :
    {A : Type ℓ}
    → List (BatchItem A)
    → ℕ
    → Service
    → BatchOperationTracker × List Progress × Service
execute_batch items batch_size s =
    let (t, calls, s') = batch_loop batch_size items 0 (new_tracker (length items)) s in
    (t, if t.processed % batch_size == 0 then calls else calls ++ progress_of t ∷ [], s')

-- `get_circuit_breaker_state`: the name of the state and the failure count.
unfoldable pub get_circuit_breaker_state : Text → Service → BreakerState × ℕ
get_circuit_breaker_state url s = elim (lookup url s.circuit_breakers) [
  | some cb ↦ (cb.state, cb.failure_count)
  | none ↦ (closed, 0)
]

unfoldable pub reset_circuit_breaker : Text → Service → Bool × Service
reset_circuit_breaker url s = elim (lookup url s.circuit_breakers) [
  | none ↦ (false, s)
  | some cb ↦ (true, record s { circuit_breakers = insert url (reset cb) s.circuit_breakers })
]
