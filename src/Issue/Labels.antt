-- ===== src/Issue/Labels.antt =====
-- app/core/issue_sync.py: the labels of a mirrored issue, and the label that stops a loop.
pub mod Single
pub mod Loops
use mirror_maestro.Common.{
  ℕ, Bool, true, false, not, ◌&&◌, ◌||◌, Option, none, some, List, [], ◌∷◌, ◌++◌, any, ◌==◌,
  if◌then◌else◌,
}
use mirror_maestro.Text.{
  Text, codes, eq_text, contains, starts_with, strip, is_empty, decimal, split_once,
}
use mirror_maestro.Issue.{Titled, Epic, Assignee, Issue}
use mirror_maestro.Issue.Footer.{footer_marker, or_default, extract_footer}

-- What `urlparse` of the standard library finds in a URL. `port` is `none` when there is none, or
-- when reading it raises; a part that is missing is empty.
pub record ParsedUrl : Type 0 where
  pub scheme : Text
  pub hostname : Text
  pub netloc : Text
  pub port : Option ℕ

-- `MIRROR_FROM_LABEL_PREFIX` and `::`
abbrev pub mirror_prefix : Text
mirror_prefix = codes "Mirrored-From::"

abbrev or_else : Text → Text → Text
or_else s t = if is_empty s then t else s

-- The port that the scheme has by itself.
abbrev standard_port : Text → Option ℕ
standard_port scheme =
    if eq_text scheme (codes "http")
    then some 80
    else if eq_text scheme (codes "https")
    then some 443
    else none

abbrev is_standard : Option ℕ → ℕ → Bool
is_standard none port = false
is_standard (some p) port = port == p

-- `_extract_hostname`. A port of 0 is false in Python.
unfoldable pub extract_hostname : (Text → ParsedUrl) → Text → Text
extract_hostname urlparse url =
    let parsed = urlparse url in
    let hostname = or_else parsed.hostname (or_else parsed.netloc url) in
    let scheme = or_else parsed.scheme (codes "https") in
    elim parsed.port [
      | none ↦ hostname
      | some port ↦
          if not (port == 0) && not (is_standard (standard_port scheme) port)
          then hostname ++ (codes ":" ++ decimal port)
          else hostname
    ]

unfoldable pub get_mirror_from_label : (Text → ParsedUrl) → Text → Text
unfolding extract_hostname
get_mirror_from_label urlparse url = mirror_prefix ++ extract_hostname urlparse url

-- A label `Scope::value` if there is a value.
abbrev scoped : Text → Text → List Text
scoped scope value = if is_empty value then [] else (scope ++ value) ∷ []

abbrev title_labels : Text → Option Titled → List Text
title_labels scope none = []
title_labels scope (some m) = scoped scope (strip (or_default m.title []))

-- An iid of 0 is false in Python.
abbrev epic_labels : Option Epic → List Text
epic_labels none = []
epic_labels (some e) = elim e.epic_iid [
  | none ↦ []
  | some n ↦ if n == 0 then [] else (codes "Epic::&" ++ decimal n) ∷ []
]

abbrev assignee_labels : List Assignee → List Text
assignee_labels [] = []
assignee_labels (a ∷ as') =
    scoped (codes "Assignee::@") (strip (or_default a.username [])) ++ assignee_labels as'

unfoldable pub convert_pm_fields_to_labels :
    Option Titled → Option Titled → Option Epic → List Assignee → List Text
convert_pm_fields_to_labels milestone iteration epic assignees =
    title_labels (codes "Milestone::") milestone
    ++ (title_labels (codes "Iteration::") iteration
        ++ (epic_labels epic ++ assignee_labels assignees))

-- The source labels without those of earlier hops.
abbrev without_mirrored : List Text → List Text
without_mirrored [] = []
without_mirrored (l ∷ ls) =
    let rest = without_mirrored ls in if starts_with l mirror_prefix then rest else l ∷ rest

-- Added only if `config.sync_labels`.
abbrev source_labels : Bool → List Text → List Text
source_labels sync_labels labels = if sync_labels then without_mirrored labels else []

-- `_prepare_labels`: the engine's own label is the first argument.
unfoldable pub prepare_labels : Text → Bool → Issue → List Text
prepare_labels mirror_from_label sync_labels issue =
    mirror_from_label
    ∷ (source_labels sync_labels issue.labels
        ++ convert_pm_fields_to_labels issue.milestone issue.iteration issue.epic issue.assignees)

-- `label in labels`
abbrev pub has_label : Text → List Text → Bool
has_label label = any (λ l. eq_text l label)

-- The footer check of `_sync_issue`: the footer names the target's host.
unfoldable pub footer_names_host : Text → Text → Bool
unfolding extract_footer
footer_names_host target_host description =
    if contains footer_marker description
    then elim (extract_footer (some description)).1 [
      | none ↦ false
      | some footer ↦
          not (is_empty footer)
          && (not (is_empty target_host) && contains (codes "://" ++ target_host) footer)
    ]
    else false

-- Whether `_sync_issue` skips the issue because it came from the target. The labels are the
-- target's, by host and in the old form by id.
unfoldable pub originated_from_target : Text → Text → Text → Issue → Bool
unfolding footer_names_host
originated_from_target target_label legacy_label target_host issue =
    has_label target_label issue.labels
    || has_label legacy_label issue.labels
    || footer_names_host target_host (or_default issue.description [])
