-- ===== src/Errors/Client/Retried.antt =====
-- app/core/gitlab_client.py and app/core/rate_limiter.py: which of the client's errors are retried.
use mirror_maestro.Common.{
  or_true_left, or_true_right, All-append, ℕ, ◌+◌, true, false, ◌&&◌, Option, none, some, List, [],
  ◌∷◌, ◌++◌, All, ◌≡◌, ◌≢◌, refl, sym, ap, inl, inr, Bool-cases, arith, leb, if◌then◌else◌,
}
use mathlib.Core.Path.{subst}
use mirror_maestro.Text.{
  Text, codes, contains, lower, after_prefix, starts_with, contains-append_left,
  contains-append_right,
}
use mirror_maestro.Errors.{ErrorClass, rate_limit_error, Error}
use mirror_maestro.Errors.Client.{
  Exception, connection, auth, get, create, delete, update, other, http, made, Rule, first_rule,
  rate_limited, http_rules, class_rules, message_rules, or_base, handle_gitlab_error,
}
use mirror_maestro.Retry.{is_rate_limit}

lower-append : (s t : Text) → lower (s ++ t) ≡ lower s ++ lower t
unfolding lower
lower-append [] t = refl
lower-append (c ∷ s) t =
    ap (λ x. (if leb b'A' c && leb c b'Z' then c + 32 else c) ∷ x) (lower-append s t)

after_prefix-lower : (p s : Text) → starts_with s p ≡ true → starts_with (lower s) (lower p) ≡ true
unfolding after_prefix lower
after_prefix-lower [] s h = refl
after_prefix-lower (c ∷ p) [] h = absurd (let bad = h in cc)
after_prefix-lower (c ∷ p) (d ∷ s) h = ground (arith, h, after_prefix-lower p s)

contains-lower : (p s : Text) → contains p s ≡ true → contains (lower p) (lower s) ≡ true
unfolding contains lower
contains-lower p [] h = after_prefix-lower p [] h
contains-lower p (c ∷ s) h = elim (Bool-cases (starts_with (c ∷ s) p)) [
  | inl e ↦ or_true_left (contains (lower p) (lower s)) (after_prefix-lower p (c ∷ s) e)
  | inr e ↦ or_true_right (starts_with (lower (c ∷ s)) (lower p)) (contains-lower p s (rw e at h))
]

abbrev tail : Text
tail = codes ": Rate limited by GitLab - try again later"

tail_lem : contains (codes "rate limit") (lower tail) ≡ true
unfolding contains lower after_prefix
tail_lem = refl

module _ (operation error_msg : Text) where
  -- The message begins with the operation, and a rate limit is one to the retries too.
  record IsMarked (e : Error) : Type 0 where
    pub message : (rest : Text) × (e.message ≡ operation ++ rest)
    pub limited : e.class_of ≡ rate_limit_error → is_rate_limit e ≡ true

  rate_limited-is_rate_limit : is_rate_limit (rate_limited operation error_msg) ≡ true
  unfolding is_rate_limit
  rate_limited-is_rate_limit =
      let limited : contains (codes "rate limit") (lower (operation ++ tail)) ≡ true =
        subst (λ t. contains (codes "rate limit") t ≡ true) (sym (lower-append operation tail))
          (contains-append_left (codes "rate limit") (lower operation) (lower tail) tail_lem) in
      let m = (rate_limited operation error_msg).message in
      or_true_left (contains (codes "too many requests") (lower m))
        (or_true_right (contains (codes "429") (lower m)) limited)

  plain :
      (c : ErrorClass) (rest : Text) → c ≢ rate_limit_error → IsMarked (made c (operation ++ rest))
  plain c rest h = record { message = (rest, refl); limited = λ e. absurd (h e) }

  limit : IsMarked (rate_limited operation error_msg)
  limit = record { message = (_, refl); limited = λ e. rate_limited-is_rate_limit }

  first_rule-IsMarked :
      (rules : List Rule) (e : Error)
      → All (λ (r : Rule). IsMarked r.1) rules
      → first_rule rules ≡ some e
      → IsMarked e
  unfolding first_rule
  first_rule-IsMarked [] e h k = absurd (let bad = k in cc)
  first_rule-IsMarked ((true, x) ∷ rules) e (h, hs) k =
      let same : x ≡ e = cc k in subst IsMarked same h
  first_rule-IsMarked ((false, x) ∷ rules) e (h, hs) k = first_rule-IsMarked rules e hs k

  message-IsMarked : All (λ (r : Rule). IsMarked r.1) (message_rules operation error_msg)
  message-IsMarked = (
    plain _ _ (λ h. cc h),
    (
      plain _ _ (λ h. cc h),
      (plain _ _ (λ h. cc h), (plain _ _ (λ h. cc h), (limit, (plain _ _ (λ h. cc h), tt)))),
    ),
  )

  http-IsMarked :
      (n : Option ℕ) → All (λ (r : Rule). IsMarked r.1) (http_rules operation error_msg n)
  http-IsMarked none = tt
  http-IsMarked (some n) = (
    plain _ _ (λ h. cc h),
    (plain _ _ (λ h. cc h), (plain _ _ (λ h. cc h), (limit, (plain _ _ (λ h. cc h), tt)))),
  )

  class-IsMarked :
      (x : Exception) → All (λ (r : Rule). IsMarked r.1) (class_rules operation error_msg x)
  class-IsMarked connection = (plain _ _ (λ h. cc h), tt)
  class-IsMarked auth = (plain _ _ (λ h. cc h), tt)
  class-IsMarked get =
      (plain _ _ (λ h. cc h), (plain _ _ (λ h. cc h), (plain _ _ (λ h. cc h), (limit, tt))))
  class-IsMarked create =
      (plain _ _ (λ h. cc h), (plain _ _ (λ h. cc h), (plain _ _ (λ h. cc h), (limit, tt))))
  class-IsMarked delete = (plain _ _ (λ h. cc h), (plain _ _ (λ h. cc h), tt))
  class-IsMarked update = (plain _ _ (λ h. cc h), (plain _ _ (λ h. cc h), tt))
  class-IsMarked (http n) = http-IsMarked n
  class-IsMarked other = tt

  base-IsMarked :
      (o : Option Error)
      → ((e : Error) → o ≡ some e → IsMarked e)
      → IsMarked (or_base operation error_msg o)
  base-IsMarked none h = plain _ _ (λ k. cc k)
  base-IsMarked (some e) h = h e refl

  handle-IsMarked : (x : Exception) → IsMarked (handle_gitlab_error operation error_msg x)
  unfolding handle_gitlab_error
  handle-IsMarked x =
      base-IsMarked
        (first_rule (class_rules operation error_msg x ++ message_rules operation error_msg))
        (λ e. first_rule-IsMarked _ e (
          All-append (λ (r : Rule). IsMarked r.1) (class_rules operation error_msg x)
            (message_rules operation error_msg) (class-IsMarked x) message-IsMarked))

-- Whatever exception a call of the client ends with, and whatever its message says: if what
-- `_handle_gitlab_error` raises for it is a rate limit error, the rate limiter retries it; and if the
-- operation's text has `429` in it, say in the number of a project, the rate limiter takes any error
-- for a rate limit and retries it.
pub handle_gitlab_error-is_rate_limit :
    (operation error_msg : Text) (x : Exception)
    → let e = handle_gitlab_error operation error_msg x in
      (e.class_of ≡ rate_limit_error → is_rate_limit e ≡ true)
      × (contains (codes "429") operation ≡ true → is_rate_limit e ≡ true)
unfolding is_rate_limit lower
handle_gitlab_error-is_rate_limit operation error_msg x =
    let m = handle-IsMarked operation error_msg x in
    let e = handle_gitlab_error operation error_msg x in
    let (rest, begins) = m.message in
    (
      m.limited,
      λ h.
          let found : contains (codes "429") (lower e.message) ≡ true =
            subst (λ t. contains (codes "429") (lower t) ≡ true) (sym begins)
              (contains-lower (codes "429") (operation ++ rest)
                (contains-append_right (codes "429") operation rest h)) in
          or_true_left (contains (codes "too many requests") (lower e.message))
            (or_true_left (contains (codes "rate limit") (lower e.message)) found),
    )
