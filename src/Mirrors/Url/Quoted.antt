-- ===== src/Mirrors/Url/Quoted.antt =====
-- app/api/mirrors.py: the parts of a URL with a login can be told apart.
use mirror_maestro.Common.{
  ℕ, ◌/◌, Bool, true, false, ◌||◌, Option, none, some, List, [], ◌∷◌, ◌++◌, ◌≡◌, refl, sym, ◌∙◌, ap,
  inl, inr, Bool-cases, any, ◌==◌, arith, append_assoc,
}
use mirror_maestro.Text.{Text, codes, split_once, after_prefix, has}
use mirror_maestro.Mirrors.Url.{
  utf8, hex_digit, always_safe, escape_unless, quote_byte, quote_bytes, quote, hostport,
  build_git_url,
}

-- A character that `quote` may give: an unreserved one or the percent sign.
abbrev plain : ℕ → Bool
plain c = always_safe c || c == b'%'

hex_digit-always_safe : (n : ℕ) → always_safe (hex_digit n) ≡ true
hex_digit-always_safe n = ground arith

any-append : (p : ℕ → Bool) (s t : Text) → any p (s ++ t) ≡ any p s || any p t
any-append p [] t = refl
any-append p (c ∷ s) t = ground (arith, any-append p s t)

has-append_false : (c : ℕ) (s t : Text) → has c s ≡ false → has c t ≡ false → has c (s ++ t) ≡ false
has-append_false c s t e h = ground (arith, any-append (λ d. d == c) s t)

eq_refl : (n : ℕ) → n == n ≡ true
eq_refl n = ground arith

safe_other : (x c : ℕ) → plain x ≡ false → plain c ≡ true → c == x ≡ false
safe_other x c h k = elim (Bool-cases (c == x)) [
  | inr e ↦ e
  | inl e ↦
      let same : c ≡ x = ground arith in let bad : true ≡ false = sym k ∙ (ap plain same ∙ h) in cc
]

safe_plain : (c : ℕ) → always_safe c ≡ true → plain c ≡ true
safe_plain c e = rw e refl

or_false : (b : Bool) → b || false ≡ true → b ≡ true
or_false true e = refl
or_false false e = cc

module _ (x : ℕ) (h : plain x ≡ false) where
  hex_digit-other : (n : ℕ) → hex_digit n == x ≡ false
  hex_digit-other n =
      safe_other x (hex_digit n) h (safe_plain (hex_digit n) (hex_digit-always_safe n))

  escape_unless-has :
      (safe : Bool) (b : ℕ) → (safe ≡ true → b == x ≡ false) → has x (escape_unless safe b) ≡ false
  escape_unless-has true b k = rw (k refl) refl
  escape_unless-has false b k =
      rw (safe_other x b'%' h refl, hex_digit-other (b / 16), hex_digit-other b) refl

  quote_byte-has : (b : ℕ) → has x (quote_byte [] b) ≡ false
  unfolding quote_byte
  quote_byte-has b =
      escape_unless-has (always_safe b || false) b
        (λ e. safe_other x b h (safe_plain b (or_false (always_safe b) e)))

  quote_bytes-has : (bs : List ℕ) → has x (quote_bytes [] bs) ≡ false
  unfolding quote_bytes
  quote_bytes-has [] = refl
  quote_bytes-has (b ∷ bs) =
      has-append_false x (quote_byte [] b) (quote_bytes [] bs) (quote_byte-has b)
        (quote_bytes-has bs)

  pub quote-has : (s : Text) → has x (quote [] s) ≡ false
  unfolding quote
  quote-has [] = refl
  quote-has (c ∷ s) =
      has-append_false x (quote_bytes [] (utf8 c)) (quote [] s) (quote_bytes-has (utf8 c))
        (quote-has s)

flipped : (c d : ℕ) → d == c ≡ false → c == d ≡ false
flipped c d e = ground arith

-- A text is split at a character that what stands before it lacks.
pub split_once_at :
    (c : ℕ) (s r : Text) → has c s ≡ false → split_once (c ∷ []) (s ++ c ∷ r) ≡ some (s, r)
unfolding split_once after_prefix
split_once_at c [] r e = rw (eq_refl c) refl
split_once_at c (d ∷ s) r e =
    let here : d == c ≡ false = ground (arith, e) in
    let there = flipped c d here in
    let later : has c s ≡ false = ground (arith, e) in rw (there, split_once_at c s r later) refl

-- The part of a URL that holds the login.
abbrev pub login_text : Text → Text → Text
login_text username password = quote [] username ++ (codes ":" ++ quote [] password)

login_text-has :
    (x : ℕ) (u v : Text) → plain x ≡ false → b':' == x ≡ false → has x (login_text u v) ≡ false
login_text-has x u v h other =
    has-append_false x (quote [] u) (codes ":" ++ quote [] v) (quote-has x h u)
      (rw (other, quote-has x h v) refl)

login_append :
    (u v r : Text)
    → (quote [] u ++ (codes ":" ++ (quote [] v ++ codes "@"))) ++ r
      ≡ login_text u v ++ (codes "@" ++ r)
login_append u v r = simp append_assoc

-- For any username and password: what a URL has after `://` is split at its first `@` into the
-- login and what the URL without a login has there; the login has no slash, and is split at its
-- first colon into the quoted username and the quoted password.
pub build_git_url-login :
    (scheme hostname : Text) (port : Option ℕ) (path username password : Text)
    → (rest bare : Text) × (build_git_url scheme hostname port path (some (username, password))
        ≡ scheme ++ (codes "://" ++ rest))
      × (build_git_url scheme hostname port path none ≡ scheme ++ (codes "://" ++ bare))
      × (split_once (codes "@") rest ≡ some (login_text username password, bare))
      × (has b'/' (login_text username password) ≡ false)
      × (split_once (codes ":") (login_text username password)
          ≡ some (quote [] username, quote [] password))
unfolding build_git_url
build_git_url-login scheme hostname port path username password =
    let bare =
      hostport hostname port ++ (codes "/" ++ (quote (codes "/-._~") path ++ codes ".git")) in
    let login = login_text username password in
    let shape =
      ap (λ (t : Text). scheme ++ (codes "://" ++ t)) (login_append username password bare) in
    (
      login ++ (codes "@" ++ bare),
      bare,
      shape,
      refl,
      split_once_at b'@' login bare (login_text-has b'@' username password refl refl),
      login_text-has b'/' username password refl refl,
      split_once_at b':' (quote [] username) (quote [] password) (quote-has b':' refl username),
    )
