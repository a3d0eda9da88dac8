-- ===== src/Mirrors/Url.antt =====
-- app/api/mirrors.py: `build_authenticated_url`, the URL of a Git repository with a token in it.
pub mod Quoted
mod Tests
use mirror_maestro.Common.{
  ℕ, ◌+◌, ◌-◌, ◌/◌, ◌%◌, Bool, true, false, not, ◌&&◌, ◌||◌, Option, none, some, List, [], ◌∷◌,
  ◌++◌, any, ltb, leb, ◌==◌, if◌then◌else◌,
}
use mirror_maestro.Text.{Text, codes, eq_text, contains, decimal, is_empty}
use mirror_maestro.Errors.{Error, Outcome, returned, raised}
use mirror_maestro.Mirrors.Op.{Raise, http, other, Result, ok, thrown}

-- What `urlparse` finds; reading the port may raise. A part that is missing is empty.
pub record ParsedInstance : Type 0 where
  pub scheme : Text
  pub hostname : Text
  pub port : Outcome (Option ℕ)

-- The bytes of a code point in UTF-8.
abbrev pub utf8 : ℕ → List ℕ
utf8 c =
    if ltb c 128
    then c ∷ []
    else if ltb c 2048
    then (192 + c / 64) ∷ (128 + c % 64) ∷ []
    else if ltb c 65536
    then (224 + c / 4096) ∷ (128 + c / 64 % 64) ∷ (128 + c % 64) ∷ []
    else (240 + c / 262144) ∷ (128 + c / 4096 % 64) ∷ (128 + c / 64 % 64) ∷ (128 + c % 64) ∷ []

-- A digit of a byte in base 16.
abbrev pub hex_digit : ℕ → ℕ
hex_digit n = if ltb (n % 16) 10 then b'0' + n % 16 else b'A' + (n % 16 - 10)

-- The characters that `quote` of the standard library never changes.
abbrev pub always_safe : ℕ → Bool
always_safe c =
    (leb b'a' c && leb c b'z')
    || ((leb b'A' c && leb c b'Z')
        || ((leb b'0' c && leb c b'9') || any (λ d. d == c) (codes "_.-~")))

abbrev pub escape_unless : Bool → ℕ → Text
escape_unless true b = b ∷ []
escape_unless false b = b'%' ∷ hex_digit (b / 16) ∷ hex_digit b ∷ []

unfoldable pub quote_byte : Text → ℕ → Text
quote_byte safe b = escape_unless (always_safe b || any (λ d. d == b) safe) b

unfoldable pub quote_bytes : Text → List ℕ → Text
unfolding quote_byte
quote_bytes safe [] = []
quote_bytes safe (b ∷ bs) = quote_byte safe b ++ quote_bytes safe bs

-- `quote(s, safe=...)`, for a text without surrogates.
unfoldable pub quote : Text → Text → Text
unfolding quote_bytes
quote safe [] = []
quote safe (c ∷ s) = quote_bytes safe (utf8 c) ++ quote safe s

-- `_normalize_instance_url`
unfoldable pub normalize_instance_url : Text → Text
normalize_instance_url url = if contains (codes "://") url then url else codes "https://" ++ url

abbrev pub hostport : Text → Option ℕ → Text
hostport hostname none = hostname
hostport hostname (some port) = hostname ++ (codes ":" ++ decimal port)

abbrev pub userinfo : Option (Text × Text) → Text
userinfo none = []
userinfo (some (username, password)) =
    quote [] username ++ (codes ":" ++ (quote [] password ++ codes "@"))

-- `_build_git_url`
unfoldable pub build_git_url : Text → Text → Option ℕ → Text → Option (Text × Text) → Text
unfolding quote
build_git_url scheme hostname port project_path login =
    scheme
    ++ (codes "://"
        ++ (userinfo login
            ++ (hostport hostname port
                ++ (codes "/" ++ (quote (codes "/-._~") project_path ++ codes ".git")))))

-- `if token_name and token_value`
abbrev pub login_of : Option Text → Option Text → Option (Text × Text)
login_of none value = none
login_of (some name) none = none
login_of (some name) (some value) =
    if is_empty name || is_empty value then none else some (name, value)

abbrev pub or_https : Text → Text
or_https scheme = if is_empty scheme then codes "https" else scheme

abbrev pub url_of_parts : Text → Option (Text × Text) → Outcome ParsedInstance → Result Text
url_of_parts project_path login (raised e) = thrown (other e)
url_of_parts project_path login (returned parsed) =
    let scheme = or_https parsed.scheme in
    if not (eq_text scheme (codes "http") || eq_text scheme (codes "https"))
    then thrown (http 400 (codes "Invalid GitLab instance URL scheme"))
    else elim parsed.port [
      | raised e ↦ thrown (other e)
      | returned port ↦
          if is_empty parsed.hostname
          then thrown (http 400 (codes "Invalid GitLab instance URL"))
          else ok (build_git_url scheme parsed.hostname port project_path login)
    ]

-- `build_authenticated_url`
unfoldable pub build_authenticated_url :
    (Text → Outcome ParsedInstance) → Text → Text → Option Text → Option Text → Result Text
unfolding normalize_instance_url build_git_url
build_authenticated_url urlparse url project_path token_name token_value =
    url_of_parts project_path (login_of token_name token_value)
      (urlparse (normalize_instance_url url))
