-- ===== src/Text/Blocked.antt =====
-- A separator is not found across a character that it lacks.
use mirror_maestro.Common.{
  ℕ, ◌≡◌, refl, Bool, false, Option, none, some, [], ◌∷◌, ◌++◌, arith, ◌==◌, any,
}
use mirror_maestro.Text.Equality.{Text}
use mirror_maestro.Text.Search.{after_prefix, contains, split_once, found}

-- `c in t`
abbrev pub has : ℕ → Text → Bool
has c t = any (λ d. d == c) t

after_prefix-blocked :
    (p s r : Text) (c : ℕ)
    → has c p ≡ false
    → after_prefix p s ≡ none
    → after_prefix p (s ++ c ∷ r) ≡ none
unfolding after_prefix
after_prefix-blocked [] s r c h e = absurd (let bad = e in cc)
after_prefix-blocked (d ∷ p) [] r c h e = ground arith
after_prefix-blocked (d ∷ p) (x ∷ s) r c h e = ground (arith, after_prefix-blocked p s r c)

-- What stands before the first separator grows by a text that does not hold it.
abbrev pub before : Text → Option (Text × Text) → Option (Text × Text)
before s none = none
before s (some (a, b)) = some (s ++ a, b)

before-nil : (o : Option (Text × Text)) → o ≡ before [] o
before-nil none = refl
before-nil (some (a, b)) = refl

found-before :
    (x : ℕ) (s u : Text) (o : Option (Text × Text)) → found x u none (before s o) ≡ before (x ∷ s) o
found-before x s u none = refl
found-before x s u (some (a, b)) = refl

contains-cons :
    (t s : Text) (x : ℕ)
    → contains t (x ∷ s) ≡ false
    → (after_prefix t (x ∷ s) ≡ none) × (contains t s ≡ false)
unfolding contains
contains-cons t s x e = ground arith

-- If `s` lacks the separator, which has no `c`, then the first separator after `s` and `c` is the
-- first from `c` on.
pub split_once-blocked :
    (t s r : Text) (c : ℕ)
    → has c t ≡ false
    → contains t s ≡ false
    → split_once t (s ++ c ∷ r) ≡ before s (split_once t (c ∷ r))
unfolding split_once
split_once-blocked t [] r c h e = before-nil (split_once t (c ∷ r))
split_once-blocked t (x ∷ s) r c h e =
    let (here, later) = contains-cons t s x e in
    rw (after_prefix-blocked t (x ∷ s) r c h here, split_once-blocked t s r c h later)
      (found-before x s (s ++ c ∷ r) (split_once t (c ∷ r)))
