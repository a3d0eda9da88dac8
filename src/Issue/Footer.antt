-- ===== src/Issue/Footer.antt =====
-- app/core/issue_sync.py: `extract_footer`, `build_footer` and `_prepare_description`.
pub mod Hops
use mirror_maestro.Common.{
  ℕ, Bool, Option, none, some, List, [], ◌∷◌, ◌++◌, map, ltb, if◌then◌else◌,
}
use mirror_maestro.Text.{Text, codes, split_once, contains, rstrip, decimal, join}
use mirror_maestro.Issue.{Titled, Epic, Assignee, Issue}

abbrev pub newline : ℕ
newline = 10

-- `MIRROR_FOOTER_MARKER`
abbrev pub footer_marker : Text
footer_marker = codes "<!-- MIRROR_MAESTRO_FOOTER -->"

-- `MIRROR_FOOTER_SEPARATOR`
abbrev pub footer_separator : Text
footer_separator = newline ∷ newline ∷ (codes "---" ++ newline ∷ newline ∷ [])

abbrev pub or_default : Option Text → Text → Text
or_default none d = d
or_default (some s) d = s

unfoldable pub extract_footer : Option Text → Text × Option Text
extract_footer none = ([], none)
extract_footer (some description) = elim (split_once footer_marker description) [
  | none ↦ (description, none)
  | some (before, after) ↦ (rstrip before, some after)
]

abbrev unknown : Text
unknown = codes "Unknown"

-- `a.get("name", a.get("username", "Unknown"))`
abbrev assignee_name : Assignee → Text
assignee_name a = or_default a.name (or_default a.username unknown)

abbrev milestone_lines : Option Titled → List Text
milestone_lines none = []
milestone_lines (some m) = (codes "🎯 **Milestone**: " ++ or_default m.title unknown) ∷ []

abbrev iteration_lines : Option Titled → List Text
iteration_lines none = []
iteration_lines (some i) = (codes "🔄 **Iteration**: " ++ or_default i.title unknown) ∷ []

abbrev epic_lines : Option Epic → List Text
epic_lines none = []
epic_lines (some e) =
    let iid : Text = elim e.epic_iid [ none ↦ codes "?" | some n ↦ decimal n ] in
    ((codes "🏔" ++ 0xFE0F ∷ codes " **Epic**: &")
      ++ (iid ++ (codes " " ++ or_default e.epic_title unknown)))
    ∷ []

abbrev assignee_lines : List Assignee → List Text
assignee_lines [] = []
assignee_lines (a ∷ as') =
    (codes "👤 **Assignees**: " ++ join (codes ", ") (map assignee_name (a ∷ as'))) ∷ []

-- The lines after the marker, each with the newline that joins it to the one before.
unfoldable pub footer_body : Text → ℕ → Text → Issue → Text
footer_body project_path issue_iid url issue =
    let source =
      codes "🔗 **Source**: ["
      ++ (project_path
          ++ (codes "#" ++ (decimal issue_iid ++ (codes "](" ++ (url ++ codes ")"))))) in
    join (newline ∷ []) (
      []
      ∷ []
      ∷ codes "### 📋 Mirror Information"
      ∷ []
      ∷ source
      ∷ []
      ∷ (milestone_lines issue.milestone
          ++ (iteration_lines issue.iteration
              ++ (epic_lines issue.epic ++ assignee_lines issue.assignees))))

-- `build_footer`: the marker is the first line.
unfoldable pub build_footer : Text → ℕ → Text → Issue → Text
unfolding footer_body
build_footer project_path issue_iid url issue =
    footer_marker ++ footer_body project_path issue_iid url issue

-- `_prepare_description`; `none` is the `ValueError` for a missing iid.
unfoldable pub prepare_description : Text → Issue → Option Text
unfolding extract_footer build_footer
prepare_description project_path issue = elim issue.iid [
  | none ↦ none
  | some n ↦
      let (main_content, _) = extract_footer issue.description in
      let footer = build_footer project_path n (or_default issue.web_url []) issue in
      some (main_content ++ (footer_separator ++ footer))
]
