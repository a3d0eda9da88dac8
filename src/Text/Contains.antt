-- ===== src/Text/Contains.antt =====
-- Where a text is found: it stays found when the text around it grows.
use mirror_maestro.Common.{
  ℕ, ◌≡◌, refl, ap, ◌&&◌, inl, inr, Bool, true, false, Bool-cases, Option, none, some, [], ◌∷◌,
  ◌++◌, arith, if◌then◌else◌,
}
use mirror_maestro.Text.Equality.{Text}
use mirror_maestro.Text.Search.{
  after_prefix, starts_with, contains, split_once, found, split_once_sound,
}
use mirror_maestro.Text.Space.{rstrip, is_space, is_empty}

starts_with-append : (p s r : Text) → starts_with s p ≡ true → starts_with (s ++ r) p ≡ true
unfolding after_prefix
starts_with-append [] s r h = refl
starts_with-append (c ∷ p) [] r h = cc
starts_with-append (c ∷ p) (d ∷ s) r h = ground (arith, starts_with-append p s r)

pub contains-append_left : (t a s : Text) → contains t s ≡ true → contains t (a ++ s) ≡ true
unfolding contains
contains-append_left t [] s h = h
contains-append_left t (c ∷ a) s h = ground (arith, contains-append_left t a s)

starts_with_self : (s : Text) → starts_with s s ≡ true
unfolding after_prefix
starts_with_self [] = refl
starts_with_self (c ∷ s) = ground (arith, starts_with_self s)

pub contains_self : (s : Text) → contains s s ≡ true
unfolding contains
contains_self [] = unfold after_prefix in refl
contains_self (c ∷ s) = rw (starts_with_self (c ∷ s)) refl

contains-nil : (t r : Text) → contains t [] ≡ true → contains t r ≡ true
unfolding contains after_prefix
contains-nil [] [] h = refl
contains-nil [] (c ∷ r) h = refl
contains-nil (d ∷ t) r h = cc

pub contains-append_right : (t s r : Text) → contains t s ≡ true → contains t (s ++ r) ≡ true
unfolding contains
contains-append_right t [] r h = contains-nil t r h
contains-append_right t (c ∷ s) r h =
    ground (arith, starts_with-append t (c ∷ s) r, contains-append_right t s r)

keep_rest :
    (b : Bool) (c : ℕ) (s kept rest : Text)
    → s ≡ kept ++ rest
    → (r : Text) × (c ∷ s ≡ (if b then [] else c ∷ kept) ++ r)
keep_rest true c s kept rest e = (c ∷ s, refl)
keep_rest false c s kept rest e = (rest, ap (λ x. c ∷ x) e)

-- `rstrip` gives a beginning of its text.
rstrip_prefix : (s : Text) → (rest : Text) × (s ≡ rstrip s ++ rest)
unfolding rstrip
rstrip_prefix [] = ([], refl)
rstrip_prefix (c ∷ s) =
    let (rest, e) = rstrip_prefix s in
    keep_rest (is_space c && is_empty (rstrip s)) c s (rstrip s) rest e

pub contains-rstrip : (t s : Text) → contains t s ≡ false → contains t (rstrip s) ≡ false
contains-rstrip t s h = elim (Bool-cases (contains t (rstrip s))) [
  | inr e ↦ e
  | inl e ↦
      let (rest, split) = rstrip_prefix s in
      let more = contains-append_right t (rstrip s) rest e in
      absurd (let bad = (rw (← split) at more) in cc)
]

starts_shorter :
    (d c : ℕ) (t s x y : Text)
    → after_prefix (d ∷ t) (c ∷ s) ≡ none
    → s ≡ x ++ y
    → starts_with (c ∷ x) (d ∷ t) ≡ false
starts_shorter d c t s x y h e = elim (Bool-cases (starts_with (c ∷ x) (d ∷ t))) [
  | inr no_start ↦ no_start
  | inl start ↦
      let longer = starts_with-append (d ∷ t) (c ∷ x) y start in
      absurd (let bad = (rw (← e) at longer) in let worse = (rw (h, starts_with) at bad) in cc)
]

found_lacks :
    (c d : ℕ) (t s : Text) (o : Option Text) (later : Option (Text × Text)) (a b : Text)
    → after_prefix (d ∷ t) (c ∷ s) ≡ o
    → ((x y : Text) → later ≡ some (x, y) → (contains (d ∷ t) x ≡ false) × (s ≡ x ++ (d ∷ t ++ y)))
    → found c s o later ≡ some (a, b)
    → contains (d ∷ t) a ≡ false
unfolding contains after_prefix
found_lacks c d t s (some rest) later a b here next h =
    let start : a ≡ [] = ground arith in rw start refl
found_lacks c d t s none none a b here next h = absurd (let bad = h in cc)
found_lacks c d t s none (some (x, y)) a b here next h =
    let (lacks, split) = next x y refl in
    let shape : a ≡ c ∷ x = ground arith in
    rw shape (ground (arith, starts_shorter d c t s x (d ∷ t ++ y) here split))

-- Before the first separator there is none.
pub split_once-lacks :
    (d : ℕ) (t s a b : Text) → split_once (d ∷ t) s ≡ some (a, b) → contains (d ∷ t) a ≡ false
unfolding split_once
split_once-lacks d t [] a b h = let bad = h in unfold after_prefix in cc
split_once-lacks d t (c ∷ s) a b h =
    found_lacks c d t s (after_prefix (d ∷ t) (c ∷ s)) (split_once (d ∷ t) s) a b refl
      (λ x y e. (split_once-lacks d t s x y e, split_once_sound (d ∷ t) s x y e)) h
