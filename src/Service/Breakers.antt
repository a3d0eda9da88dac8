-- ===== src/Service/Breakers.antt =====
-- The circuit breakers of the service: one for each instance, each valid.
use mathlib.Core.Path.{subst}
use mirror_maestro.Common.{
  ℕ, zero, suc, ◌+◌, ◌<◌, ◌≡◌, ◌≢◌, inl, inr, Bool-cases, Option-cases, Option, none, some, arith,
}
use mirror_maestro.Text.{Text, eq_text, eq_text_iff, lookup, insert, lookup-insert}
use mirror_maestro.Errors.{is_client_error, Error, Outcome, returned, raised}
use mirror_maestro.Breaker.{CircuitBreaker, new_breaker, call, check_and_transition}
use mirror_maestro.Breaker.Invariant.{
  IsValid, new_breaker-IsValid, check_and_transition-IsValid, call-IsValid,
}
use mirror_maestro.Retry.{RateLimiter}
use mirror_maestro.Service.{
  Service, Operation, Report, attempts, get_circuit_breaker, protected, execute, after_attempt,
  default_successes,
}

-- Every breaker of the service is valid, and so would be a new one.
pub record IsSound (s : Service) : Type 0 where
  pub each :
      (url : Text) (cb : CircuitBreaker) → lookup url s.circuit_breakers ≡ some cb → IsValid cb
  pub threshold_positive : 0 < s.threshold

module _ {ℓ} {A : Type ℓ} (max_retries : ℕ) (op : Operation A)
    (others : (k : ℕ) (cb : CircuitBreaker) → IsValid cb → IsValid (op.meanwhile k cb)) where
  after_attempt-IsValid :
      (attempt n : ℕ) (cb : CircuitBreaker) (rl : RateLimiter) (again : Error → Report A)
      (o : Outcome A)
      → IsValid cb
      → ((e : Error) → IsValid (again e).breaker)
      → IsValid (after_attempt max_retries op attempt n cb rl again o).breaker
  after_attempt-IsValid attempt n cb rl again (returned a) v h = v
  after_attempt-IsValid attempt n cb rl again (raised e) v h = ground (arith, h e)

  attempts-IsValid :
      (left attempt : ℕ) (last : Option Error) (cb : CircuitBreaker) (rl : RateLimiter)
      → IsValid cb
      → IsValid (attempts max_retries op left attempt last cb rl).breaker
  unfolding attempts
  attempts-IsValid zero attempt last cb rl v = v
  attempts-IsValid (suc left) attempt last cb rl v =
      let before = op.meanwhile attempt cb in
      let (o, after) = call (op.begins attempt) (op.ends attempt) (op.outcome attempt) before in
      let valid : IsValid after = call-IsValid _ _ _ before (others attempt cb v) in
      after_attempt-IsValid attempt _ after rl _ o valid
        (λ e. attempts-IsValid left (attempt + 1) (some e) after rl valid)

module _ {ℓ} {A : Type ℓ} (url : Text) (op : Operation A) (s : Service)
    (others : (k : ℕ) (cb : CircuitBreaker) → IsValid cb → IsValid (op.meanwhile k cb)) where
  protected-IsValid : (cb : CircuitBreaker) → IsValid cb → IsValid (protected url op s cb).breaker
  unfolding protected
  protected-IsValid cb v =
      let valid = check_and_transition-IsValid op.checked_at cb v in
      let tried =
        attempts-IsValid s.max_retries op others (s.max_retries + 1) 0 none
          (check_and_transition op.checked_at cb).2 s.rate_limiter valid in
      elim (Bool-cases (check_and_transition op.checked_at cb).1) [
        | inl e ↦ rw e tried
        | inr e ↦ rw e valid
      ]

insert-IsSound :
    (url : Text) (cb : CircuitBreaker) (s : Service) (rl : RateLimiter)
    → IsValid cb
    → IsSound s
    → IsSound (record s { circuit_breakers = insert url cb s.circuit_breakers; rate_limiter = rl })
insert-IsSound url cb s rl valid v = record {
  each = λ j c e.
      let found = (rw (lookup-insert url j cb s.circuit_breakers) at e) in
      elim (Bool-cases (eq_text url j)) [
        | inl same ↦
            let now = (rw same at found) in let is_new : cb ≡ c = cc in subst IsValid is_new valid
        | inr apart ↦ v.each j c (rw apart at found)
      ];
  threshold_positive = v.threshold_positive;
}

get_circuit_breaker-IsSound :
    (url : Text) (s : Service)
    → IsSound s
    → IsValid (get_circuit_breaker url s).0 × IsSound (get_circuit_breaker url s).1
unfolding get_circuit_breaker
get_circuit_breaker-IsSound url s v = elim (Option-cases (lookup url s.circuit_breakers)) [
  | inl e ↦
      let fresh =
        new_breaker-IsValid s.threshold s.recovery default_successes is_client_error
          v.threshold_positive (omega arith) in
      let new = new_breaker s.threshold s.recovery default_successes is_client_error in
      rw (e, get_circuit_breaker) (fresh, insert-IsSound url new s s.rate_limiter fresh v)
  | inr (cb, e) ↦ rw (e, get_circuit_breaker) (v.each url cb e, v)
]

-- If what other threads do keeps a breaker valid, `execute` keeps every breaker of the service
-- valid, the new one for an unknown instance included.
pub execute-IsSound {ℓ} :
    {A : Type ℓ} (url : Text) (op : Operation A) (s : Service)
    → ((k : ℕ) (cb : CircuitBreaker) → IsValid cb → IsValid (op.meanwhile k cb))
    → IsSound s
    → IsSound (execute url op s).1
unfolding execute
execute-IsSound url op s others v =
    let (cb, s') = get_circuit_breaker url s in
    let found = get_circuit_breaker-IsSound url s v in
    let r = protected url op s' cb in
    insert-IsSound url r.breaker s' r.limiter (protected-IsValid url op s' others cb found.0)
      found.1

-- An instance's failures do not touch another's circuit: the breaker of any other URL is as before.
pub execute_other_breakers {ℓ} :
    {A : Type ℓ} (url other : Text) (op : Operation A) (s : Service)
    → url ≢ other
    → lookup other (execute url op s).1.circuit_breakers ≡ lookup other s.circuit_breakers
unfolding execute get_circuit_breaker
execute_other_breakers url other op s ne = ground (
  arith,
  eq_text_iff url other,
  lookup-insert url other
      (protected url op (get_circuit_breaker url s).1 (get_circuit_breaker url s).0).breaker
      (get_circuit_breaker url s).1.circuit_breakers,
  lookup-insert url other (get_circuit_breaker url s).0 s.circuit_breakers,
)
