-- ===== src/Sync/Urls/Extracted.antt =====
-- app/core/issue_sync.py: each URL that is taken from a description stands in it as a link's.
pub mod Tests
use mathlib.Core.Path.{subst}
use mirror_maestro.Common.{
  some_inj, All-append, ℕ, zero, suc, ◌+◌, Bool, true, false, ◌||◌, Option, none, some, List, [],
  ◌∷◌, ◌++◌, All, any, map, ◌≡◌, refl, sym, ◌∙◌, ap, inl, inr, Bool-cases, append_assoc, arith,
  ◌==◌, if◌then◌else◌,
}
use mirror_maestro.Text.{
  Text, codes, eq_text, after_prefix, after_prefix_sound, contains, contains_self,
  contains-append_left, contains-append_right, has,
}
use mirror_maestro.Sync.Urls.{
  until_bracket, is_url, goes_on, url_in, url_after, link_url, first_of, next_url, link_at, links,
  longer, image_after, images, unique_texts, extract_mirror_urls_from_description,
}

-- The URL is one that a link of the text points to.
pub record IsLinked (s u : Text) : Type 0 where
  pub url : is_url u ≡ true
  pub no_bracket : has b')' u ≡ false
  pub there : contains (codes "](" ++ u ++ codes ")") s ≡ true

later-IsLinked : (a s u : Text) → IsLinked s u → IsLinked (a ++ s) u
later-IsLinked a s u l = record {
  url = l.url;
  no_bracket = l.no_bracket;
  there = contains-append_left (codes "](" ++ u ++ codes ")") a s l.there;
}

-- `s` begins with `u` and a bracket, which `u` lacks.
abbrev EndsAt : Text → Text → Type 0
EndsAt s u = (r : Text) × (s ≡ u ++ b')' ∷ r) × (has b')' u ≡ false)

EndsAt-cons :
    (c : ℕ) (s u : Text) (o : Option Text)
    → ((t : Text) → o ≡ some t → EndsAt s t)
    → c == b')' ≡ false
    → (elim o [ none ↦ none | some t ↦ some (c ∷ t) ]) ≡ some u
    → EndsAt (c ∷ s) u
EndsAt-cons c s u none f k h = absurd (let bad = h in cc)
EndsAt-cons c s u (some t) f k h =
    let same : c ∷ t ≡ u = some_inj (c ∷ t) u h in
    let (r, e, n) = f t refl in subst (EndsAt (c ∷ s)) same (r, ap (λ x. c ∷ x) e, rw k n)

until_bracket_lem : (s u : Text) → until_bracket s ≡ some u → EndsAt s u
unfolding until_bracket
until_bracket_lem [] u h = absurd (let bad = h in cc)
until_bracket_lem (c ∷ s) u h = elim (Bool-cases (c == b')')) [
  | inl k ↦
      let closes : some [] ≡ some u = (rw k at h) in
      let same : [] ≡ u = some_inj [] u closes in
      let bracket : c ≡ b')' = ground (arith, k) in
      subst (EndsAt (c ∷ s)) same (s, ap (λ x. x ∷ s) bracket, refl)
  | inr k ↦ EndsAt-cons c s u (until_bracket s) (until_bracket_lem s) k (rw k at h)
]

url_in_lem : (o : Option Text) (u : Text) → url_in o ≡ some u → (o ≡ some u) × (is_url u ≡ true)
url_in_lem none u h = absurd (let bad = h in cc)
url_in_lem (some v) u h = elim (Bool-cases (is_url v)) [
  | inl k ↦
      let same : v ≡ u = some_inj v u (rw k at h) in (ap (λ (x : Text). some x) same, rw (← same) k)
  | inr k ↦ absurd (let bad : none ≡ some u = (rw k at h) in cc)
]

url_after_lem :
    (s u : Text) (o : Option Text)
    → ((t : Text) → o ≡ some t → s ≡ codes "](" ++ t)
    → url_after o ≡ some u
    → IsLinked s u
url_after_lem s u none f h = absurd (let bad = h in cc)
url_after_lem s u (some t) f h =
    let (found, url) = url_in_lem (until_bracket t) u h in
    let (r, e, n) = until_bracket_lem t u found in
    let around : s ≡ (codes "](" ++ u ++ codes ")") ++ r =
      f t refl ∙ ap (λ x. codes "](" ++ x) (e ∙ sym (append_assoc u (codes ")") r)) in
    record {
      url = url;
      no_bracket = n;
      there =
          subst (λ x. contains (codes "](" ++ u ++ codes ")") x ≡ true) (sym around)
            (contains-append_right _ (codes "](" ++ u ++ codes ")") r
              (contains_self (codes "](" ++ u ++ codes ")")));
    }

link_url_lem : (s u : Text) → link_url s ≡ some u → IsLinked s u
unfolding link_url
link_url_lem s u h =
    url_after_lem s u (after_prefix (codes "](") s) (after_prefix_sound (codes "](") s) h

first_of_lem :
    (c : ℕ) (s u : Text) (n : ℕ) (o : Option Text) (later : Option (Text × ℕ))
    → ((v : Text) → o ≡ some v → IsLinked (c ∷ s) v)
    → ((v : Text) (m : ℕ) → later ≡ some (v, m) → IsLinked s v)
    → first_of o c later ≡ some (u, n)
    → IsLinked (c ∷ s) u
first_of_lem c s u n (some v) later f g h =
    let same : v ≡ u = cc h in subst (IsLinked (c ∷ s)) same (f v refl)
first_of_lem c s u n none none f g h = absurd (let bad = h in cc)
first_of_lem c s u n none (some (v, m)) f g h = elim (Bool-cases (c == 10)) [
  | inl k ↦ absurd (let bad : none ≡ some (u, n) = (rw k at h) in cc)
  | inr k ↦
      let inside : some (v, m + 1) ≡ some (u, n) = (rw k at h) in
      let same : v ≡ u = cc inside in
      subst (IsLinked (c ∷ s)) same (later-IsLinked (c ∷ []) s v (g v m refl))
]

next_url_lem : (s u : Text) (n : ℕ) → next_url s ≡ some (u, n) → IsLinked s u
unfolding next_url
next_url_lem [] u n h = absurd (let bad = h in cc)
next_url_lem (c ∷ s) u n h =
    first_of_lem c s u n (link_url (c ∷ s)) (next_url s) (link_url_lem (c ∷ s)) (next_url_lem s) h

All-later : (c : ℕ) (s : Text) (us : List Text) → All (IsLinked s) us → All (IsLinked (c ∷ s)) us
All-later c s [] h = tt
All-later c s (u ∷ us) (h, hs) = (later-IsLinked (c ∷ []) s u h, All-later c s us hs)

link_at_lem :
    (c : ℕ) (s : Text) (starts : Bool) (o : Option (Text × ℕ)) (go : ℕ → List Text)
    → ((u : Text) (n : ℕ) → o ≡ some (u, n) → IsLinked s u)
    → ((n : ℕ) → All (IsLinked s) (go n))
    → All (IsLinked (c ∷ s)) (link_at starts o go)
link_at_lem c s true (some (u, n)) go f g =
    (later-IsLinked (c ∷ []) s u (f u n refl), All-later c s (go n) (g n))
link_at_lem c s true none go f g = All-later c s (go 0) (g 0)
link_at_lem c s false o go f g = All-later c s (go 0) (g 0)

links_lem : (s : Text) (n : ℕ) → All (IsLinked s) (links s n)
unfolding links
links_lem [] n = tt
links_lem (c ∷ s) (suc n) = All-later c s (links s n) (links_lem s n)
links_lem (c ∷ s) zero =
    link_at_lem c s (c == b'[') (next_url s) (links s) (next_url_lem s) (links_lem s)

longer-back :
    (u : Text) (n : ℕ) (o : Option (Text × ℕ))
    → longer o ≡ some (u, n)
    → (m : ℕ) × (o ≡ some (u, m))
longer-back u n none h = absurd (let bad = h in cc)
longer-back u n (some (v, m)) h =
    let same : v ≡ u = cc h in
    let pair = λ (x : Text). let p : Text × ℕ = (x, m) in some p in (m, ap pair same)

image_after_lem :
    (s u : Text) (n : ℕ) (o : Option Text)
    → ((t : Text) → o ≡ some t → s ≡ codes "[" ++ t)
    → image_after o ≡ some (u, n)
    → IsLinked s u
image_after_lem s u n none f h = absurd (let bad = h in cc)
image_after_lem s u n (some t) f h =
    let (m, e) = longer-back u n (next_url t) h in
    subst (λ x. IsLinked x u) (sym (f t refl))
      (later-IsLinked (codes "[") t u (next_url_lem t u m e))

images_lem : (s : Text) (n : ℕ) → All (IsLinked s) (images s n)
unfolding images
images_lem [] n = tt
images_lem (c ∷ s) (suc n) = All-later c s (images s n) (images_lem s n)
images_lem (c ∷ s) zero =
    link_at_lem c s (c == b'!') (image_after (after_prefix (codes "[") s)) (images s)
      (λ u n h.
        image_after_lem s u n (after_prefix (codes "[") s) (after_prefix_sound (codes "[") s) h)
      (images_lem s)

unique_texts-All : (P : Text → Type 0) (us : List Text) → All P us → All P (unique_texts us)
unfolding unique_texts
unique_texts-All P [] h = tt
unique_texts-All P (u ∷ us) (h, hs) = elim (Bool-cases (any (λ v. eq_text v u) us)) [
  | inl k ↦ rw k (unique_texts-All P us hs)
  | inr k ↦ rw k (h, unique_texts-All P us hs)
]

-- Each URL that is taken from a description begins with `http://` or `https://` and goes on, has no
-- closing bracket, and stands in the description between `](` and a closing bracket.
pub extract_mirror_urls_from_description_lem :
    (d : Text) → All (IsLinked d) (extract_mirror_urls_from_description d)
unfolding extract_mirror_urls_from_description
extract_mirror_urls_from_description_lem d =
    unique_texts-All (IsLinked d) (images d 0 ++ links d 0)
      (All-append (IsLinked d) (images d 0) (links d 0) (images_lem d 0) (links_lem d 0))
