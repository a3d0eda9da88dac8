-- ===== src/Download/Limits.antt =====
-- How large a download can be, what it may raise, and how many requests it makes.
use native.Mathlib.Nat.{le_trans}
use mirror_maestro.Common.{
  ℕ, zero, suc, ◌+◌, ◌*◌, ◌^◌, ◌≤◌, ◌<◌, ◌≡◌, inl, inr, Bool, true, false, Option, none, some, List,
  [], ◌∷◌, length, arith, if◌then◌else◌,
}
use mirror_maestro.Text.{Text}
use mirror_maestro.Errors.{value_error, Error, Outcome, returned, raised, Outcome-cases}
use mirror_maestro.Download.Exec.{Event, allowed, requested, slept, Net, Action, lift, ◌>>=◌, ◌>>◌}
use mirror_maestro.Download.{
  Response, Outside, static_problem, validate_url_for_ssrf, get_url, redirect_target, follow,
  accept, download_once, download_loop, download_file, after_failure,
}

module _ (o : Outside) where
  -- The content fits, where there is a limit; an exception is a `ValueError`.
  abbrev pub Fits : ℕ → Outcome (Option (List ℕ)) → Type 0
  Fits max_size (returned none) = Unit
  Fits max_size (returned (some content)) = 0 < max_size → length content ≤ max_size
  Fits max_size (raised e) = e.class_of ≡ value_error

  abbrev FitsOnce : ℕ → Outcome (List ℕ) → Type 0
  FitsOnce max_size (returned content) = 0 < max_size → length content ≤ max_size
  FitsOnce max_size (raised e) = Unit

  accept-FitsOnce : (max_size : ℕ) (r : Response) → FitsOnce max_size (accept o max_size r)
  unfolding accept
  accept-FitsOnce max_size r = ground arith

  download_once-FitsOnce :
      (max_size : ℕ) (url : Text) (net : Net)
      → FitsOnce max_size (download_once o max_size url net).0
  unfolding download_once
  download_once-FitsOnce max_size url net = elim (Outcome-cases (follow o 10 url net).0) [
    | inl (response, e) ↦ rw (e, download_once) (accept-FitsOnce max_size response)
    | inr (failed, e) ↦ rw (e, download_once) tt
  ]

  after_failure-Fits :
      (max_size left : ℕ) (r : Outcome (List ℕ)) (again : Outcome (Option (List ℕ)) × Net)
      (net : Net)
      → FitsOnce max_size r
      → Fits max_size again.0
      → Fits max_size (after_failure o left r again net).0
  after_failure-Fits max_size left (returned c) again net f g = f
  after_failure-Fits max_size left (raised e) again net f g = ground arith

  download_loop-Fits :
      (max_size left number : ℕ) (url : Text) (net : Net)
      → Fits max_size (download_loop o max_size left number url net).0
  unfolding download_loop
  download_loop-Fits max_size zero number url net = tt
  download_loop-Fits max_size (suc left) number url net =
      let (r, net') = download_once o max_size url net in
      let rest = record net' { trace = slept (2 ^ number) ∷ net'.trace } in
      after_failure-Fits max_size left r _ net' (download_once-FitsOnce max_size url net)
        (download_loop-Fits max_size left (number + 1) url rest)

  validate-value_error :
      (url : Text) (net : Net) (e : Error)
      → (validate_url_for_ssrf o url net).0 ≡ raised e
      → e.class_of ≡ value_error
  unfolding validate_url_for_ssrf static_problem
  validate-value_error url net e h = ground arith

  validated-Fits :
      (max_size : ℕ) (m : Action Unit) (f : Action (Option (List ℕ))) (net : Net)
      → ((e : Error) → (m net).0 ≡ raised e → e.class_of ≡ value_error)
      → ((net' : Net) → Fits max_size (f net').0)
      → Fits max_size ((m >> f) net).0
  validated-Fits max_size m f net bad good = elim (Outcome-cases (m net).0) [
    | inl (u, e) ↦ rw e (good (m net).1)
    | inr (x, e) ↦ rw e (bad x e)
  ]

  -- The requests of a trace.
  abbrev pub requests : List Event → ℕ
  requests [] = 0
  requests (requested u ∷ t) = suc (requests t)
  requests (allowed u ∷ t) = requests t
  requests (slept n ∷ t) = requests t

  requests-validate :
      (url : Text) (net : Net)
      → requests (validate_url_for_ssrf o url net).1.trace ≡ requests net.trace
  unfolding validate_url_for_ssrf
  requests-validate url net = ground arith

  requests-bind :
      {A B : Type 0} (m : Action A) (f : A → Action B) (net : Net) (before after : ℕ)
      → requests (m net).1.trace ≤ requests net.trace + before
      → ((a : A) (net' : Net) → requests (f a net').1.trace ≤ requests net'.trace + after)
      → requests ((m >>= f) net).1.trace ≤ requests net.trace + before + after
  requests-bind m f net before after h k = elim (Outcome-cases (m net).0) [
    | inl (a, e) ↦ rw e (omega (arith, k a (m net).1))
    | inr (x, e) ↦ rw e (omega arith)
  ]

  if-requests :
      {A : Type 0} (b : Bool) (x y : Action A) (net : Net) (n : ℕ)
      → requests (x net).1.trace ≤ n
      → requests (y net).1.trace ≤ n
      → requests ((if b then x else y) net).1.trace ≤ n
  if-requests true x y net n h k = h
  if-requests false x y net n h k = k

  follow-requests :
      (left : ℕ) (url : Text) (net : Net)
      → requests (follow o left url net).1.trace ≤ requests net.trace + (left + 1)
  unfolding follow get_url
  follow-requests zero url net =
      le_trans
        (requests-bind (get_url o url) _ net 1 0 (omega arith) (λ response net'.
          if-requests response.is_redirect _ _ net' _ (omega arith) (omega arith)))
        (omega arith)
  follow-requests (suc left) url net =
      le_trans
        (requests-bind (get_url o url) _ net 1 (left + 1) (omega arith) (λ response net'.
          if-requests response.is_redirect _ _ net' _
            (le_trans
              (requests-bind (lift (redirect_target o url response.location)) _ net' 0 (left + 1)
                (omega arith)
                (λ next net2.
                  le_trans
                    (requests-bind (validate_url_for_ssrf o next) (λ _. follow o left next) net2 0
                      (left + 1) (omega (arith, requests-validate next net2))
                      (λ _ net3. follow-requests left next net3))
                    (omega arith)))
              (omega arith))
            (omega arith)))
        (omega arith)

  download_once-requests :
      (max_size : ℕ) (url : Text) (net : Net)
      → requests (download_once o max_size url net).1.trace ≤ requests net.trace + 11
  unfolding download_once
  download_once-requests max_size url net =
      le_trans
        (requests-bind (follow o 10 url) _ net 11 0
          (le_trans (follow-requests 10 url net) (omega arith)) (λ r net'. omega arith))
        (omega arith)

  after_failure-requests :
      (left n : ℕ) (r : Outcome (List ℕ)) (again : Outcome (Option (List ℕ)) × Net) (net : Net)
      → requests net.trace ≤ n
      → requests again.1.trace ≤ n
      → requests (after_failure o left r again net).1.trace ≤ n
  after_failure-requests left n (returned c) again net h k = h
  after_failure-requests left n (raised e) again net h k = ground arith

  download_loop-requests :
      (max_size left number : ℕ) (url : Text) (net : Net)
      → requests (download_loop o max_size left number url net).1.trace
        ≤ requests net.trace + left * 11
  unfolding download_loop
  download_loop-requests max_size zero number url net = omega arith
  download_loop-requests max_size (suc left) number url net =
      let (r, net') = download_once o max_size url net in
      let rest = record net' { trace = slept (2 ^ number) ∷ net'.trace } in
      let once = download_once-requests max_size url net in
      let again = download_loop-requests max_size left (number + 1) url rest in
      after_failure-requests left _ r _ net' (omega arith) (omega arith)

  -- However the outside answers, a download ends: with content no larger than the limit, where there
  -- is one, with `None`, or with a `ValueError` and no other exception; and it has made at most
  -- eleven requests for each attempt.
  pub download_file_limits :
      (url : Text) (max_retries max_size : ℕ) (net : Net)
      → let (r, net') = download_file o url max_retries max_size net in
        Fits max_size r × (requests net'.trace ≤ requests net.trace + max_retries * 11)
  unfolding download_file
  download_file_limits url max_retries max_size net = (
    validated-Fits max_size (validate_url_for_ssrf o url)
        (download_loop o max_size max_retries 0 url) net (validate-value_error url net)
        (download_loop-Fits max_size max_retries 0 url),
    le_trans
        (requests-bind (validate_url_for_ssrf o url)
          (λ _. download_loop o max_size max_retries 0 url) net 0 (max_retries * 11)
          (omega (arith, requests-validate url net))
          (λ _ net'. download_loop-requests max_size max_retries 0 url net'))
        (omega arith),
  )
