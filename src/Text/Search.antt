-- ===== src/Text/Search.antt =====
-- `startswith`, `in`, `lower` and `split(marker, 1)`.
use mirror_maestro.Common.{
  ℕ, ◌+◌, ◌≡◌, refl, Bool, true, false, ◌&&◌, ◌||◌, Option, none, some, [], ◌∷◌, ◌++◌, arith, ◌==◌,
  leb, if◌then◌else◌,
}
use mirror_maestro.Text.Equality.{Text}

-- `s.startswith(p)` gives what follows `p`.
unfoldable pub after_prefix : Text → Text → Option Text
after_prefix [] s = some s
after_prefix (c ∷ p) [] = none
after_prefix (c ∷ p) (d ∷ s) = if c == d then after_prefix p s else none

abbrev pub starts_with : Text → Text → Bool
starts_with s p = elim (after_prefix p s) [ none ↦ false | some _ ↦ true ]

-- `t in s`
unfoldable pub contains : Text → Text → Bool
unfolding after_prefix
contains t [] = starts_with [] t
contains t (c ∷ s) = starts_with (c ∷ s) t || contains t s

-- `str.lower` on the ASCII letters.
unfoldable pub lower : Text → Text
lower [] = []
lower (c ∷ s) = (if leb b'A' c && leb c b'Z' then c + 32 else c) ∷ lower s

abbrev pub found : ℕ → Text → Option Text → Option (Text × Text) → Option (Text × Text)
found c s (some rest) later = some ([], rest)
found c s none none = none
found c s none (some (before, rest)) = some (c ∷ before, rest)

-- What stands before and after the first `t` in `s`: `s.split(t, 1)` where `t in s`.
unfoldable pub split_once : Text → Text → Option (Text × Text)
unfolding after_prefix
split_once t [] = elim (after_prefix t []) [ none ↦ none | some rest ↦ some ([], rest) ]
split_once t (c ∷ s) = found c s (after_prefix t (c ∷ s)) (split_once t s)

pub after_prefix-append : (p s : Text) → after_prefix p (p ++ s) ≡ some s
unfolding after_prefix
after_prefix-append [] s = refl
after_prefix-append (c ∷ p) s = ground (arith, after_prefix-append p s)

pub after_prefix_sound : (p s rest : Text) → after_prefix p s ≡ some rest → s ≡ p ++ rest
unfolding after_prefix
after_prefix_sound [] s rest h = ground arith
after_prefix_sound (c ∷ p) [] rest h = ground arith
after_prefix_sound (c ∷ p) (d ∷ s) rest h = ground (arith, after_prefix_sound p s rest)

-- `in` and `split` agree.
pub contains-eq-split_once :
    (t s : Text) → contains t s ≡ (elim (split_once t s) [ none ↦ false | some _ ↦ true ])
unfolding contains split_once
contains-eq-split_once t [] = ground arith
contains-eq-split_once t (c ∷ s) = ground (arith, contains-eq-split_once t s)

found_sound :
    (c : ℕ) (t s : Text) (o : Option Text) (later : Option (Text × Text)) (a b : Text)
    → ((rest : Text) → o ≡ some rest → c ∷ s ≡ t ++ rest)
    → ((x y : Text) → later ≡ some (x, y) → s ≡ x ++ (t ++ y))
    → found c s o later ≡ some (a, b)
    → c ∷ s ≡ a ++ (t ++ b)
found_sound c t s (some rest) later a b now then' h = ground (arith, now rest)
found_sound c t s none none a b now then' h = ground arith
found_sound c t s none (some (x, y)) a b now then' h = ground (arith, then' x y)

-- What `split` gives is the text, with one copy of the separator between the parts.
pub split_once_sound : (t s a b : Text) → split_once t s ≡ some (a, b) → s ≡ a ++ (t ++ b)
unfolding split_once
split_once_sound t [] a b h = ground (arith, after_prefix_sound t [] b)
split_once_sound t (c ∷ s) a b h =
    found_sound c t s (after_prefix t (c ∷ s)) (split_once t s) a b
      (λ rest. after_prefix_sound t (c ∷ s) rest) (split_once_sound t s) h
