-- ===== src/Download/Guarded.antt =====
-- No request is made for a URL that did not pass the check against internal networks.
use mirror_maestro.Common.{
  ℕ, zero, suc, ◌+◌, ◌^◌, ◌≡◌, refl, ◌⊎◌, inl, inr, Bool, true, false, Bool-cases, Option, none,
  some, Option-cases, List, [], ◌∷◌, any, ◌==◌, if◌then◌else◌,
}
use mirror_maestro.Text.{Text}
use mirror_maestro.Errors.{Outcome, returned, raised, Outcome-cases}
use mirror_maestro.Download.Exec.{Event, allowed, requested, slept, Net, Action, ◌>>◌, continue}
use mirror_maestro.Download.{
  Outside, is_private_ip, static_problem, validate_url_for_ssrf, get_url, redirect_target, follow,
  download_once, download_loop, download_file, after_failure, is_value_error,
}

module _ (o : Outside) where
  -- The URL is harmless by itself, and DNS gave at some call addresses of which none is internal.
  pub record Checked (url : Text) : Type 0 where
    pub harmless : static_problem o url ≡ none
    pub call : ℕ
    pub addresses : List Text
    pub resolved : o.getaddrinfo call (o.urlparse url).hostname ≡ some addresses
    pub public : any (is_private_ip o) addresses ≡ false

  abbrev pub AllowedIn : Text → List Event → Type 0
  AllowedIn url [] = ⊥
  AllowedIn url (allowed u ∷ older) = (url ≡ u) ⊎ AllowedIn url older
  AllowedIn url (requested u ∷ older) = AllowedIn url older
  AllowedIn url (slept n ∷ older) = AllowedIn url older

  -- Every request follows the passing of its URL, and what passed was checked.
  abbrev pub IsGuarded : List Event → Type 0
  IsGuarded [] = Unit
  IsGuarded (allowed u ∷ older) = Checked u × IsGuarded older
  IsGuarded (requested u ∷ older) = AllowedIn u older × IsGuarded older
  IsGuarded (slept n ∷ older) = IsGuarded older

  -- From a guarded trace to one, with all that had passed before.
  record Kept (t u : List Event) : Type 0 where
    guarded : IsGuarded t → IsGuarded u
    more : (url : Text) → AllowedIn url t → AllowedIn url u

  Kept-refl : (t : List Event) → Kept t t
  Kept-refl t = record { guarded = λ g. g; more = λ url a. a }

  Kept-trans : {t u v : List Event} → Kept t u → Kept u v → Kept t v
  Kept-trans k l = record {
    guarded = λ g. l.guarded (k.guarded g);
    more = λ url a. l.more url (k.more url a);
  }

  -- The URL is in the new trace if the check returned.
  abbrev Passed : Text → Outcome (Unit {0}) × Net → Type 0
  Passed url (returned _, net) = AllowedIn url net.trace
  Passed url (raised e, net) = Unit

  validate-Kept :
      (url : Text) (net : Net)
      → Kept net.trace (validate_url_for_ssrf o url net).1.trace
        × Passed url (validate_url_for_ssrf o url net)
  unfolding validate_url_for_ssrf
  validate-Kept url net = elim (Option-cases (static_problem o url)) [
    | inr (e, bad) ↦ rw (bad, validate_url_for_ssrf) (Kept-refl net.trace, tt)
    | inl good ↦ elim (Option-cases (o.getaddrinfo net.calls (o.urlparse url).hostname)) [
      | inl unknown ↦ rw (good, unknown, validate_url_for_ssrf) (Kept-refl net.trace, tt)
      | inr (addresses, known) ↦ elim (Bool-cases (any (is_private_ip o) addresses)) [
        | inl internal ↦ rw (good, known, internal, validate_url_for_ssrf) (Kept-refl net.trace, tt)
        | inr public ↦
            rw (good, known, public, validate_url_for_ssrf)
              (
                record {
                  guarded = λ g. (
                    record {
                      harmless = good;
                      call = net.calls;
                      addresses = addresses;
                      resolved = known;
                      public = public;
                    },
                    g,
                  );
                  more = λ u a. inr a;
                },
                inl refl,
              )
      ]
    ]
  ]

  requested-Kept : (url : Text) (t : List Event) → AllowedIn url t → Kept t (requested url ∷ t)
  requested-Kept url t a = record { guarded = λ g. (a, g); more = λ u b. b }

  -- What is done with a URL once it has passed.
  then-Kept :
      {A : Type 0} (url : Text) (m : Action Unit) (f : Action A) (net : Net)
      → Kept net.trace (m net).1.trace × Passed url (m net)
      → ((net' : Net) → AllowedIn url net'.trace → Kept net'.trace (f net').1.trace)
      → Kept net.trace ((m >> f) net).1.trace
  then-Kept url m f net h k = let (r, net') = m net in go r net' h
    where
      go :
          (r : Outcome Unit) (net' : Net)
          → Kept net.trace net'.trace × Passed url (r, net')
          → Kept net.trace (continue r (λ _. f) net').1.trace
      go (returned _) net' (kept, a) = Kept-trans kept (k net' a)
      go (raised e) net' (kept, a) = kept

  follow-Kept :
      (left : ℕ) (url : Text) (net : Net)
      → AllowedIn url net.trace
      → Kept net.trace (follow o left url net).1.trace
  unfolding follow get_url
  follow-Kept zero url net a = elim (Outcome-cases (o.get net.calls url)) [
    | inr (e, failed) ↦ rw (failed, follow) (requested-Kept url net.trace a)
    | inl (response, got) ↦ elim (Bool-cases response.is_redirect) [
      | inl r ↦ rw (got, r, follow) (requested-Kept url net.trace a)
      | inr r ↦ rw (got, r, follow) (requested-Kept url net.trace a)
    ]
  ]
  follow-Kept (suc left) url net a = elim (Outcome-cases (o.get net.calls url)) [
    | inr (e, failed) ↦ rw (failed, follow) (requested-Kept url net.trace a)
    | inl (response, got) ↦ elim (Bool-cases response.is_redirect) [
      | inr r ↦ rw (got, r, follow) (requested-Kept url net.trace a)
      | inl r ↦ elim (Outcome-cases (redirect_target o url response.location)) [
        | inr (e, bad) ↦ rw (got, r, bad, follow) (requested-Kept url net.trace a)
        | inl (next, target) ↦
            rw (got, r, target, follow)
              (let net' = record net { calls = net.calls + 1; trace = requested url ∷ net.trace } in
                Kept-trans (requested-Kept url net.trace a) (
                  then-Kept next (validate_url_for_ssrf o next) (follow o left next) net'
                    (validate-Kept next net') (follow-Kept left next)))
      ]
    ]
  ]

  download_once-Kept :
      (max_size : ℕ) (url : Text) (net : Net)
      → AllowedIn url net.trace
      → Kept net.trace (download_once o max_size url net).1.trace
  unfolding download_once
  download_once-Kept max_size url net a =
      let kept = follow-Kept 10 url net a in
      elim (Outcome-cases (follow o 10 url net).0) [
        | inl (response, e) ↦ rw (e, download_once) kept
        | inr (failed, e) ↦ rw (e, download_once) kept
      ]

  if-Kept :
      {A : Type 0} (b : Bool) (x y : A × Net) (t : List Event)
      → Kept t x.1.trace
      → Kept t y.1.trace
      → Kept t (if b then x else y).1.trace
  if-Kept true x y t k l = k
  if-Kept false x y t k l = l

  after_failure-Kept :
      (left : ℕ) (r : Outcome (List ℕ)) (again : Outcome (Option (List ℕ)) × Net) (t : List Event)
      (net : Net)
      → Kept t net.trace
      → Kept t again.1.trace
      → Kept t (after_failure o left r again net).1.trace
  after_failure-Kept left (returned c) again t net k l = k
  after_failure-Kept left (raised e) again t net k l =
      if-Kept (is_value_error o e) _ _ t k (if-Kept (left == 0) _ _ t k l)

  slept-Kept : (n : ℕ) (t : List Event) → Kept t (slept n ∷ t)
  slept-Kept n t = record { guarded = λ g. g; more = λ url a. a }

  download_loop-Kept :
      (max_size left number : ℕ) (url : Text) (net : Net)
      → AllowedIn url net.trace
      → Kept net.trace (download_loop o max_size left number url net).1.trace
  unfolding download_loop
  download_loop-Kept max_size zero number url net a = Kept-refl net.trace
  download_loop-Kept max_size (suc left) number url net a =
      let (r, net') = download_once o max_size url net in
      let once = download_once-Kept max_size url net a in
      let rest = record net' { trace = slept (2 ^ number) ∷ net'.trace } in
      let again = download_loop-Kept max_size left (number + 1) url rest (once.more url a) in
      after_failure-Kept left r _ net.trace net' once
        (Kept-trans once (Kept-trans (slept-Kept (2 ^ number) net'.trace) again))

  -- The requests of a download, its retries and redirects included, go only to URLs that passed the
  -- check before: an allowed scheme, a host that is not on the list, and addresses from DNS of
  -- which none is internal. This holds however DNS and the servers answer, whether the download
  -- ends well or not.
  pub download_file-IsGuarded :
      (url : Text) (max_retries max_size : ℕ) (net : Net)
      → IsGuarded net.trace
      → IsGuarded (download_file o url max_retries max_size net).1.trace
  unfolding download_file
  download_file-IsGuarded url max_retries max_size net g =
      (then-Kept url (validate_url_for_ssrf o url) (download_loop o max_size max_retries 0 url) net
          (validate-Kept url net)
          (λ net'. download_loop-Kept max_size max_retries 0 url net')).guarded
        g
