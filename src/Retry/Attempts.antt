-- ===== src/Retry/Attempts.antt =====
-- Which attempt of `execute_with_retry` decides, and how long it waits before.
use native.Mathlib.Numerals.{towards_suc}
use mirror_maestro.Common.{
  ℕ, zero, suc, ◌+◌, ◌*◌, ◌-◌, ◌^◌, ◌≤◌, ◌<◌, ◌≡◌, inl, inr, Bool-cases, Bool, true, false, ◌&&◌,
  Option, none, some, List, [], ◌∷◌, sum, arith, ltb, if◌then◌else◌,
}
use mirror_maestro.Errors.{Error, Outcome, returned, raised, Outcome-cases}
use mirror_maestro.Retry.{
  RateLimiter, Report, is_rate_limit, record_operation, retry_loop, execute_with_retry,
}

-- An attempt that the next one may make good.
abbrev pub limited {ℓ} : {A : Type ℓ} → Outcome A → Bool
limited (returned a) = false
limited (raised e) = is_rate_limit e

-- The seconds 2^a, 2^(a+1), ... of `n` waits.
abbrev pub backoffs : ℕ → ℕ → List ℕ
backoffs a zero = []
backoffs a (suc n) = 2 ^ a ∷ backoffs (a + 1) n

-- What is counted for the attempt that decides.
abbrev pub counted {ℓ} : {A : Type ℓ} → Outcome A → RateLimiter → RateLimiter
counted (returned a) rl = record_operation rl
counted (raised e) rl = rl

module _ {ℓ} {A : Type ℓ} (operation : ℕ → Outcome A) (rl : RateLimiter) where
  -- How many attempts from `a` on are limited before the first that is not, out of `left`.
  pub waiting : ℕ → ℕ → ℕ
  waiting zero a = 0
  waiting (suc left) a = if limited (operation a) then suc (waiting left (a + 1)) else 0

  abbrev pub decided_by : ℕ → List ℕ → Report A
  decided_by k waits = record {
    result = operation k;
    sleeps = waits;
    attempts = k + 1;
    limiter = counted (operation k) rl;
  }

  loop_step :
      (left a : ℕ) (last : Option Error)
      → (limited (operation a) && ltb a rl.max_retries) ≡ false
      → retry_loop operation (suc left) a last rl ≡ decided_by a []
  unfolding retry_loop
  loop_step left a last d = elim (Outcome-cases (operation a)) [
    | inl (x, e) ↦ rw (e, retry_loop)
    | inr (x, e) ↦ let d' = (rw e at d) in rw (e, retry_loop) (rw d')
  ]

  loop_again :
      (left a : ℕ) (last : Option Error)
      → (limited (operation a) && ltb a rl.max_retries) ≡ true
      → (e : Error) × (retry_loop operation (suc left) a last rl ≡ (
          let r = retry_loop operation left (a + 1) (some e) rl in
          record r { sleeps = 2 ^ a ∷ r.sleeps }))
  unfolding retry_loop
  loop_again left a last d = elim (Outcome-cases (operation a)) [
    | inl (x, e) ↦ absurd (let d' = (rw e at d) in cc)
    | inr (x, e) ↦ (x, let d' = (rw e at d) in rw (e, retry_loop) (rw d'))
  ]

  loop_lem :
      (left a : ℕ) (last : Option Error)
      → a + left ≡ rl.max_retries
      → retry_loop operation (suc left) a last rl
        ≡ decided_by (a + waiting left a) (backoffs a (waiting left a))
  unfolding waiting
  loop_lem zero a last h =
      let same : a + 0 ≡ a = omega arith in
      let over : ltb a rl.max_retries ≡ false = ground arith in
      let d : (limited (operation a) && ltb a rl.max_retries) ≡ false = ground arith in
      rw same (loop_step zero a last d)
  loop_lem (suc left) a last h = elim (Bool-cases (limited (operation a))) [
    | inl more ↦
        let (e, again) = loop_again (suc left) a last (ground arith) in
        let next : a + 1 + waiting left (a + 1) ≡ a + suc (waiting left (a + 1)) = omega arith in
        rw (again, more, loop_lem left (a + 1) (some e) (omega arith)) (rw next)
    | inr done ↦
        let same : a + 0 ≡ a = omega arith in
        let d : (limited (operation a) && ltb a rl.max_retries) ≡ false = rw done in
        rw (done, same) (loop_step (suc left) a last d)
  ]

  -- The attempt that decides is the first, among the `max_retries + 1` that may be made, that does
  -- not end in a rate limit error, or else the last. Its outcome is the result; the waits before
  -- it are 1, 2, 4, ... seconds, one for each attempt that failed; and a success is counted once.
  pub execute_with_retry_lem :
      execute_with_retry operation rl
      ≡ decided_by (waiting rl.max_retries 0) (backoffs 0 (waiting rl.max_retries 0))
  unfolding execute_with_retry
  execute_with_retry_lem =
      let e : rl.max_retries + 1 ≡ suc rl.max_retries = omega arith in
      let start : 0 + waiting rl.max_retries 0 ≡ waiting rl.max_retries 0 = omega arith in
      rw e (rw start at (loop_lem rl.max_retries 0 none (omega arith)))

  waiting-le : (left a : ℕ) → waiting left a ≤ left
  unfolding waiting
  waiting-le zero a = omega arith
  waiting-le (suc left) a = ground (arith, waiting-le left (a + 1))

pow-add-one : (a : ℕ) → 2 ^ (a + 1) ≡ 2 * 2 ^ a
pow-add-one a = simp towards_suc (omega arith)

sum-backoffs : (n a : ℕ) → sum (backoffs a n) + 2 ^ a ≡ 2 ^ (a + n)
sum-backoffs zero a = let e : a + 0 ≡ a = omega arith in rw e (omega arith)
sum-backoffs (suc n) a =
    let e : a + suc n ≡ a + 1 + n = omega arith in
    rw e (omega (arith, sum-backoffs n (a + 1), pow-add-one a))

pow-le-pow : (n a : ℕ) → 2 ^ a ≤ 2 ^ (a + n)
pow-le-pow zero a = let e : a + 0 ≡ a = omega arith in rw e (omega arith)
pow-le-pow (suc n) a =
    let e : a + suc n ≡ a + 1 + n = omega arith in
    rw e (omega (arith, pow-le-pow n (a + 1), pow-add-one a))

-- Whatever the operation does, it is attempted at least once and at most `max_retries + 1` times,
-- and the waits together stay below 2^max_retries seconds.
pub execute_with_retry_bounds {ℓ} :
    {A : Type ℓ} (operation : ℕ → Outcome A) (rl : RateLimiter)
    → let r = execute_with_retry operation rl in
      (1 ≤ r.attempts) × (r.attempts ≤ rl.max_retries + 1) × (sum r.sleeps < 2 ^ rl.max_retries)
execute_with_retry_bounds operation rl =
    let w = waiting operation rl rl.max_retries 0 in
    let small = waiting-le operation rl rl.max_retries 0 in
    let total = sum-backoffs w 0 in
    let room = pow-le-pow (rl.max_retries - w) w in
    let e : w + (rl.max_retries - w) ≡ rl.max_retries = omega arith in
    let start : 0 + w ≡ w = omega arith in
    rw (execute_with_retry_lem operation rl) (
      omega arith,
      omega arith,
      let t = (rw start at total) in let r = (rw e at room) in omega arith,
    )
