-- ===== src/Download.antt =====
-- app/core/issue_sync.py: `download_file` and the checks that keep it off internal networks.
-- What lies outside (URL parsing, DNS, HTTP, `ipaddress`, `int`) is a record of functions. DNS and
-- HTTP answers may change, so they take the number of calls made before. The trace of URLs that
-- passed the check and of requests, the newest first, is part of the state.
pub mod Exec
pub mod Guarded
pub mod Limits
mod Tests
use mirror_maestro.Common.{
  ℕ, zero, suc, ◌+◌, ◌*◌, ◌^◌, Bool, true, false, not, ◌&&◌, ◌||◌, Option, none, some, List, [],
  ◌∷◌, ◌++◌, any, length, ltb, ◌==◌, if◌then◌else◌,
}
use mirror_maestro.Text.{Text, codes, eq_text, lower, starts_with, is_empty}
use mirror_maestro.Errors.{value_error, value_error_of, exception, Error, Outcome, returned, raised}
use mirror_maestro.Download.Exec.{
  Event, allowed, requested, slept, Net, Action, pure, raise, lift, attempt, record_event,
  outside_call, ◌>>=◌, ◌>>◌,
}

pub record Response : Type 0 where
  pub is_redirect : Bool
  pub location : Option Text
  pub has_error_status : Bool
  pub content_length : Option Text
  pub content : List ℕ

pub data Integer : Type 0 where
  natural : ℕ → Integer
  negative : Integer

pub record UrlParts : Type 0 where
  pub scheme : Text
  pub hostname : Text

pub record Outside : Type 0 where
  pub urlparse : Text → UrlParts
  -- `urlunparse` with the scheme and host of the first text and the path of the second
  pub with_path : Text → Text → Text
  -- the addresses of a name, or `none` for `gaierror`
  pub getaddrinfo : ℕ → Text → Option (List Text)
  -- whether `ipaddress` calls an address private, loopback, link-local, reserved or multicast;
  -- `none` for `ValueError`
  pub is_internal : Text → Option Bool
  pub get : ℕ → Text → Outcome Response
  -- Python's `int`, `none` for an exception
  pub int : Text → Option Integer

abbrev dangerous_hostnames : List Text
dangerous_hostnames =
    codes "localhost"
    ∷ codes "127.0.0.1"
    ∷ codes "::1"
    ∷ codes "0.0.0.0"
    ∷ codes "metadata.google.internal"
    ∷ codes "169.254.169.254"
    ∷ []

abbrev or_empty : Option Text → Text
or_empty none = []
or_empty (some s) = s

-- `_parse_content_length`
unfoldable pub parse_content_length : (Text → Option Integer) → Option Text → Option ℕ
parse_content_length int none = none
parse_content_length int (some header) = if is_empty header then none else elim (int header) [
  | none ↦ none
  | some negative ↦ none
  | some (natural size) ↦ if ltb (10 * 1024 * 1024 * 1024) size then none else some size
]

module _ (o : Outside) where
  -- `_is_private_ip`
  unfoldable pub is_private_ip : Text → Bool
  is_private_ip ip = elim (o.is_internal ip) [
    | none ↦ true
    | some internal ↦
        internal || (starts_with ip (codes "169.254.") || eq_text ip (codes "100.100.100.200"))
  ]

  -- What `_validate_url_for_ssrf` finds before it asks DNS.
  unfoldable pub static_problem : Text → Option Error
  static_problem url =
      let parsed = o.urlparse url in
      if not (eq_text parsed.scheme (codes "http") || eq_text parsed.scheme (codes "https"))
      then some (value_error_of (codes "Invalid URL scheme. Only http/https allowed."))
      else if is_empty parsed.hostname
      then some (value_error_of (codes "URL has no hostname"))
      else if any (eq_text (lower parsed.hostname)) dangerous_hostnames
      then some (value_error_of (codes "Hostname is not allowed"))
      else none

  abbrev check_addresses : Option (List Text) → Action Unit
  check_addresses none = raise (value_error_of (codes "Could not resolve hostname"))
  check_addresses (some addresses) =
      if any is_private_ip addresses
      then raise (value_error_of (codes "Hostname resolves to private IP"))
      else pure tt

  -- `_validate_url_for_ssrf`; a URL that passes goes into the trace.
  unfoldable pub validate_url_for_ssrf : Text → Action Unit
  validate_url_for_ssrf url = elim (static_problem url) [
    | some e ↦ raise e
    | none ↦ do
      addresses ← outside_call (λ n. o.getaddrinfo n (o.urlparse url).hostname)
      check_addresses addresses
      record_event (allowed url)
  ]

  -- `client.get`
  unfoldable pub get_url : Text → Action Response
  get_url url = do record_event (requested url); attempt (λ n. o.get n url)

  -- Where a redirect leads from `current_url`.
  unfoldable pub redirect_target : Text → Option Text → Outcome Text
  redirect_target current_url location =
      let target = or_empty location in
      if is_empty target
      then raised (value_error_of (codes "Redirect response missing Location header"))
      else if starts_with target (codes "/")
      then returned (o.with_path current_url target)
      else if starts_with target (codes "http://") || starts_with target (codes "https://")
      then returned target
      else raised (value_error_of (codes "Invalid redirect URL"))

  -- The `while True` loop; `left` is `max_redirects - redirect_count`.
  unfoldable pub follow : ℕ → Text → Action Response
  follow zero current_url = do
    response ← get_url current_url
    if response.is_redirect
        then raise (value_error_of (codes "Too many redirects (max: 10)"))
        else pure response
  follow (suc left) current_url = do
    response ← get_url current_url
    let next = (do
      redirect_url ← lift (redirect_target current_url response.location)
      validate_url_for_ssrf redirect_url
      follow left redirect_url)
    if response.is_redirect then next else pure response

  abbrev max_redirects : ℕ
  max_redirects = 10

  abbrev too_large : ℕ → ℕ → Bool
  too_large max_size size = ltb 0 max_size && ltb max_size size

  -- What follows the loop: the status, the announced size and the actual size.
  unfoldable pub accept : ℕ → Response → Outcome (List ℕ)
  accept max_size response =
      let announced : Bool = elim (parse_content_length o.int response.content_length) [
        | none ↦ false
        | some size ↦ too_large max_size size
      ] in
      if response.has_error_status
      then raised (record { class_of = exception; message = codes "HTTPStatusError" })
      else if announced
      then raised (value_error_of (codes "File size exceeds maximum allowed size"))
      else if too_large max_size (length response.content)
      then raised (value_error_of (codes "File size exceeds maximum allowed size"))
      else returned response.content

  unfoldable pub download_once : ℕ → Text → Action (List ℕ)
  download_once max_size url = do
    response ← follow max_redirects url
    lift (accept max_size response)

  abbrev is_value_error : Error → Bool
  is_value_error e = elim e.class_of [ value_error ↦ true | _ ↦ false ]

  -- What follows an attempt that is not the last, `again` being the rest of the loop, or the last.
  abbrev after_failure :
      ℕ → Outcome (List ℕ) → Outcome (Option (List ℕ)) × Net → Action (Option (List ℕ))
  after_failure left (returned content) again net = (returned (some content), net)
  after_failure left (raised e) again net =
      if is_value_error e
      then (raised e, net)
      else if left == 0
      then (returned none, net)
      else again

  -- `for attempt in range(max_retries)`, with `left` rounds left.
  unfoldable pub download_loop : ℕ → ℕ → ℕ → Text → Action (Option (List ℕ))
  download_loop max_size zero number url net = (returned none, net)
  download_loop max_size (suc left) number url net =
      let (outcome, net') = download_once max_size url net in
      let rested = (record_event (slept (2 ^ number)) net').1 in
      after_failure left outcome (download_loop max_size left (number + 1) url rested) net'

  unfoldable pub download_file : Text → ℕ → ℕ → Action (Option (List ℕ))
  download_file url max_retries max_size = do
    validate_url_for_ssrf url
    download_loop max_size max_retries 0 url
