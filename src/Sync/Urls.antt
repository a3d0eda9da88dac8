-- ===== src/Sync/Urls.antt =====
-- app/core/issue_sync.py: the URLs of a description: `extract_mirror_urls_from_description`,
-- `extract_filename_from_url` and `replace_urls_in_description`.
pub mod Extracted
use mirror_maestro.Common.{
  ℕ, zero, suc, ◌+◌, ◌-◌, Bool, true, false, ◌||◌, Option, none, some, List, [], ◌∷◌, ◌++◌, any,
  length, ◌==◌, if◌then◌else◌,
}
use mirror_maestro.Text.{Text, codes, eq_text, after_prefix, starts_with}

-- `[^\)]+` with its bracket: what stands before the first one.
unfoldable pub until_bracket : Text → Option Text
until_bracket [] = none
until_bracket (c ∷ s) =
    let rest = until_bracket s in
    if c == b')' then some [] else elim rest [ none ↦ none | some t ↦ some (c ∷ t) ]

abbrev pub goes_on : Option Text → Bool
goes_on (some (c ∷ s)) = true
goes_on _ = false

-- `https?://` and more
unfoldable pub is_url : Text → Bool
unfolding after_prefix
is_url u = goes_on (after_prefix (codes "http://") u) || goes_on (after_prefix (codes "https://") u)

abbrev pub url_in : Option Text → Option Text
url_in none = none
url_in (some u) = if is_url u then some u else none

abbrev pub url_after : Option Text → Option Text
url_after none = none
url_after (some s) = url_in (until_bracket s)

-- `\]\((https?://[^\)]+)\)`
unfoldable pub link_url : Text → Option Text
unfolding until_bracket is_url
link_url s = url_after (after_prefix (codes "](") s)

abbrev pub first_of : Option Text → ℕ → Option (Text × ℕ) → Option (Text × ℕ)
first_of (some u) c later = some (u, length u + 3)
first_of none c none = none
first_of none c (some (u, n)) = if c == 10 then none else some (u, n + 1)

-- `.*?` before it: the URL, and how many characters the match takes. A dot is not a line's end.
unfoldable pub next_url : Text → Option (Text × ℕ)
unfolding link_url
next_url [] = none
next_url (c ∷ s) = first_of (link_url (c ∷ s)) c (next_url s)

abbrev pub link_at : Bool → Option (Text × ℕ) → (ℕ → List Text) → List Text
link_at true (some (u, n)) go = u ∷ go n
link_at _ _ go = go 0

-- `re.findall` with the pattern of a link; the characters of a match are skipped.
unfoldable pub links : Text → ℕ → List Text
unfolding next_url
links [] n = []
links (c ∷ s) (suc n) = links s n
links (c ∷ s) zero = link_at (c == b'[') (next_url s) (links s)

abbrev pub longer : Option (Text × ℕ) → Option (Text × ℕ)
longer none = none
longer (some (u, n)) = some (u, n + 1)

-- After `!`, the rest of an image.
abbrev pub image_after : Option Text → Option (Text × ℕ)
image_after none = none
image_after (some s) = longer (next_url s)

unfoldable pub images : Text → ℕ → List Text
unfolding next_url after_prefix
images [] n = []
images (c ∷ s) (suc n) = images s n
images (c ∷ s) zero = link_at (c == b'!') (image_after (after_prefix (codes "[") s)) (images s)

-- A set, as a list.
unfoldable pub unique_texts : List Text → List Text
unfolding eq_text
unique_texts [] = []
unique_texts (u ∷ us) =
    let rest = unique_texts us in if any (λ v. eq_text v u) us then rest else u ∷ rest

unfoldable pub extract_mirror_urls_from_description : Text → List Text
unfolding images links unique_texts
extract_mirror_urls_from_description d = unique_texts (images d 0 ++ links d 0)

-- What stands after the last slash.
unfoldable pub last_part : Text → Option Text
last_part [] = none
last_part (c ∷ s) = elim (last_part s) [
  | some t ↦ some t
  | none ↦ if c == b'/' then some s else none
]

abbrev pub named : Option Text → Text
named (some (c ∷ s)) = c ∷ s
named _ = codes "attachment"

-- `extract_filename_from_url`, on the path of the URL
unfoldable pub extract_filename_from_path : Text → Text
unfolding last_part
extract_filename_from_path path = named (last_part path)

-- `s.replace(old, new)`, where `old` is not empty
unfoldable pub replace_from : Text → Text → Text → ℕ → Text
unfolding after_prefix
replace_from old new [] n = []
replace_from old new (c ∷ s) (suc n) = replace_from old new s n
replace_from old new (c ∷ s) zero =
    let here = new ++ replace_from old new s (length old - 1) in
    let later = c ∷ replace_from old new s 0 in if starts_with (c ∷ s) old then here else later

unfoldable pub replace_urls_in_description : Text → List (Text × Text) → Text
unfolding replace_from
replace_urls_in_description d [] = d
replace_urls_in_description d ((source, target) ∷ m) =
    replace_urls_in_description (replace_from source target d 0) m
