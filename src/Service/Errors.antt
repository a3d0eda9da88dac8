-- ===== src/Service/Errors.antt =====
-- What `execute` may raise, and how often it runs its operation.
use mirror_maestro.Common.{
  ℕ, zero, suc, ◌+◌, ◌≡◌, refl, inl, inr, true, Option, none, some, arith, Bool-cases,
}
use mirror_maestro.Text.{Text}
use mirror_maestro.Errors.{is_client_error, Error, Outcome, returned, raised}
use mirror_maestro.Breaker.{CircuitBreaker, call, check_and_transition}
use mirror_maestro.Retry.{RateLimiter}
use mirror_maestro.Service.{
  Service, Operation, Report, wrapped, attempts, get_circuit_breaker, protected, circuit_open_error,
  execute, after_attempt,
}

-- Only `GitLabClientError` and its subclasses are raised.
abbrev pub RaisesClientErrors {ℓ} : {A : Type ℓ} → Outcome A → Type 0
RaisesClientErrors (returned a) = Unit
RaisesClientErrors (raised e) = is_client_error e.class_of ≡ true

module _ {ℓ} {A : Type ℓ} (max_retries : ℕ) (op : Operation A) where
  abbrev LastIsClient : Option Error → Type 0
  LastIsClient none = Unit
  LastIsClient (some e) = is_client_error e.class_of ≡ true

  after_attempt-client :
      (attempt n : ℕ) (cb : CircuitBreaker) (rl : RateLimiter) (again : Error → Report A)
      (o : Outcome A)
      → ((e : Error) → is_client_error e.class_of ≡ true → RaisesClientErrors (again e).result)
      → RaisesClientErrors (after_attempt max_retries op attempt n cb rl again o).result
  unfolding wrapped
  after_attempt-client attempt n cb rl again (returned a) h = tt
  after_attempt-client attempt n cb rl again (raised e) h = ground (arith, h e)

  attempts-client :
      (left attempt : ℕ) (last : Option Error) (cb : CircuitBreaker) (rl : RateLimiter)
      → LastIsClient last
      → RaisesClientErrors (attempts max_retries op left attempt last cb rl).result
  unfolding attempts
  attempts-client zero attempt none cb rl h = refl
  attempts-client zero attempt (some e) cb rl h = h
  attempts-client (suc left) attempt last cb rl h =
      let before = op.meanwhile attempt cb in
      let (o, after) = call (op.begins attempt) (op.ends attempt) (op.outcome attempt) before in
      after_attempt-client attempt _ after rl _ o
        (λ e. attempts-client left (attempt + 1) (some e) after rl)

protected-client {ℓ} :
    {A : Type ℓ} (url : Text) (op : Operation A) (s : Service) (cb : CircuitBreaker)
    → RaisesClientErrors (protected url op s cb).result
unfolding protected circuit_open_error
protected-client url op s cb =
    let (_, available, checked) = check_and_transition op.checked_at cb in
    let tried =
      attempts-client s.max_retries op (s.max_retries + 1) 0 none checked s.rate_limiter tt in
    elim (Bool-cases available) [ inl e ↦ rw e tried | inr e ↦ rw e refl ]

-- Whatever the operation raises, what `execute` raises is a `GitLabClientError`.
pub execute_client_errors {ℓ} :
    {A : Type ℓ} (url : Text) (op : Operation A) (s : Service)
    → RaisesClientErrors (execute url op s).0.result
unfolding execute
execute_client_errors url op s =
    let (cb, s') = get_circuit_breaker url s in protected-client url op s' cb
