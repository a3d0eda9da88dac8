-- ===== src/Issue/Footer/Hops.antt =====
-- What becomes of a description that is mirrored, once or over several hops.
use mirror_maestro.Common.{ℕ, ◌≡◌, refl, ◌∙◌, ap, false, Option, none, some, List, [], ◌∷◌, ◌++◌}
use mirror_maestro.Text.{
  Text, codes, contains, split_once, split_once-blocked, before, rstrip, rstrip-append, is_space,
  after_prefix,
}
use mirror_maestro.Issue.{Issue}
use mirror_maestro.Issue.Footer.{
  newline, footer_marker, footer_separator, extract_footer, build_footer, or_default,
  prepare_description,
}

-- The rule that is left of the separator when the blanks around it are gone.
abbrev pub rule : Text
rule = newline ∷ newline ∷ codes "---"

separator_split :
    (rest : Text)
    → split_once footer_marker (footer_separator ++ (footer_marker ++ rest))
      ≡ some (footer_separator, rest)
unfolding split_once after_prefix
separator_split rest = refl

split_mirrored :
    (s rest : Text)
    → contains footer_marker s ≡ false
    → split_once footer_marker (s ++ (footer_separator ++ (footer_marker ++ rest)))
      ≡ some (s ++ footer_separator, rest)
split_mirrored s rest e =
    split_once-blocked footer_marker s _ newline refl e ∙ ap (before s) (separator_split rest)

rstrip_mirrored : (s : Text) → rstrip (s ++ footer_separator) ≡ s ++ rule
rstrip_mirrored s = rstrip-append s footer_separator (unfold rstrip is_space in refl)

-- From a text with a footer, `extract_footer` gives all of the footer after its marker and the text
-- above it, but the text keeps the rule of the separator: it is not the text that the footer was
-- put under.
pub extract_footer-mirrored :
    (s rest : Text)
    → contains footer_marker s ≡ false
    → extract_footer (some (s ++ (footer_separator ++ (footer_marker ++ rest))))
      ≡ (s ++ rule, some rest)
unfolding extract_footer
extract_footer-mirrored s rest e = rw (split_mirrored s rest e, extract_footer) (rw rstrip_mirrored)

-- One passing of an issue from an instance to the next: the project's path there, the issue's iid,
-- and the rest of what the source API returns.
pub record Hop : Type 0 where
  pub project_path : Text
  pub number : ℕ
  pub issue : Issue

-- The issue as the hop's source instance returns it, with the description that the hop before left.
abbrev pub seen : Hop → Text → Issue
seen h d = record h.issue { iid = some h.number; description = some d }

abbrev pub relay : Hop → List Hop → Text → Option Text
relay h [] d = prepare_description h.project_path (seen h d)
relay h (next ∷ hops) d = elim (prepare_description h.project_path (seen h d)) [
  | none ↦ none
  | some d' ↦ relay next hops d'
]

abbrev pub rules : List Hop → Text
rules [] = []
rules (h ∷ hops) = rule ++ rules hops

-- The footer of the last hop.
abbrev pub last_footer : Hop → List Hop → Text
last_footer h [] = build_footer h.project_path h.number (or_default h.issue.web_url []) h.issue
last_footer h (next ∷ hops) = last_footer next hops
