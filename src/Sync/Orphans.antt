-- ===== src/Sync/Orphans.antt =====
-- app/core/issue_sync.py: `_find_existing_target_issue`, the search for a mirrored issue that has
-- no mapping.
use mirror_maestro.Common.{
  ℕ, zero, suc, Bool, ◌&&◌, Option, none, some, List, [], ◌∷◌, ◌++◌, if◌then◌else◌,
}
use mirror_maestro.Text.{Text, codes, contains, decimal}
use mirror_maestro.Errors.{Outcome, returned, raised}
use mirror_maestro.Issue.Footer.{footer_marker, or_default}
use mirror_maestro.Sync.Target.{TargetIssue, Outside, World, Action, Engine, ask, pure, ◌>>=◌}

-- `source_ref`
abbrev pub source_ref : Text → ℕ → Text
source_ref path iid = path ++ (codes "#" ++ decimal iid)

abbrev pub matches_source : Text → TargetIssue → Bool
matches_source ref issue =
    let description = or_default issue.description [] in
    contains ref description && contains footer_marker description

-- The first match among the first issues, as many as the limit.
unfoldable pub first_match : Text → ℕ → List TargetIssue → Option TargetIssue
first_match ref limit [] = none
first_match ref zero (i ∷ is) = none
first_match ref (suc limit) (i ∷ is) =
    let rest = first_match ref limit is in if matches_source ref i then some i else rest

module _ (o : Outside) (e : Engine) where
  abbrev pub search_label : Text → Text → Action (Option TargetIssue)
  search_label ref label = ask (λ n. o.get_issues n label) >>= λ issues.
      pure (first_match ref e.max_issues_per_sync issues)

  abbrev pub search_legacy : Text → Option TargetIssue → Action (Option TargetIssue)
  search_legacy ref none = search_label ref e.mirror_from_label_legacy
  search_legacy ref (some i) = pure (some i)

  -- The `except` clause.
  abbrev pub or_none : Outcome (Option TargetIssue) × World → Outcome (Option TargetIssue) × World
  or_none (returned r, w) = (returned r, w)
  or_none (raised x, w) = (returned none, w)

  unfoldable pub find_existing_target_issue : ℕ → Action (Option TargetIssue)
  unfolding first_match
  find_existing_target_issue iid w =
      let ref = source_ref e.source_project_path iid in
      or_none ((search_label ref e.mirror_from_label >>= search_legacy ref) w)
