-- ===== src/Sync/Mistaken.antt =====
-- app/core/issue_sync.py: which mirrored issues `_find_existing_target_issue` takes for the mirror
-- of a source issue. It looks for the reference `path#iid` anywhere in the description.
use mirror_maestro.Common.{ℕ, true, some, [], ◌++◌, append_assoc, ◌≡◌, refl}
use mirror_maestro.Text.{
  Text, codes, contains, contains_self, contains-append_left, contains-append_right, decimal, join,
}
use mirror_maestro.Issue.{Issue}
use mirror_maestro.Issue.Footer.{
  footer_marker, footer_separator, extract_footer, footer_body, build_footer, or_default,
  prepare_description,
}
use mirror_maestro.Issue.Labels.Loops.{footer_head}
use mirror_maestro.Sync.Target.{TargetIssue}
use mirror_maestro.Sync.Orphans.{source_ref, matches_source}

refers_with :
    (path : Text) (n k : ℕ) (more tail : Text)
    → decimal k ≡ decimal n ++ more
    → contains (source_ref path n) (path ++ (codes "#" ++ (decimal k ++ tail))) ≡ true
refers_with path n k more tail e =
    let ref = source_ref path n in
    let here : path ++ (codes "#" ++ (decimal k ++ tail)) ≡ ref ++ (more ++ tail) =
      simp (e, append_assoc) in
    rw here (contains-append_right ref ref (more ++ tail) (contains_self ref))

-- The reference to an issue whose number begins with the digits is in its footer.
body_refers :
    (path url : Text) (n k : ℕ) (more : Text) (issue : Issue)
    → decimal k ≡ decimal n ++ more
    → contains (source_ref path n) (footer_body path k url issue) ≡ true
unfolding footer_body join
body_refers path url n k more issue e =
    let ref = source_ref path n in
    contains-append_left ref footer_head _
      (contains-append_right ref _ _ (refers_with path n k more _ e))

-- Any mirrored issue is a match for every issue of its source project whose number begins the
-- number of its source: its own source, and also issue 1 when the source is issue 12.
pub matches_source-mirrored :
    (path : Text) (n k : ℕ) (more description : Text) (issue : Issue) (target : TargetIssue)
    → issue.iid ≡ some k
    → decimal k ≡ decimal n ++ more
    → prepare_description path issue ≡ some description
    → matches_source (source_ref path n) (record target { description = some description }) ≡ true
unfolding prepare_description build_footer
matches_source-mirrored path n k more description issue target i e d =
    let ref = source_ref path n in
    let body = footer_body path k (or_default issue.web_url []) issue in
    let main = (extract_footer issue.description).0 in
    let made : some (main ++ (footer_separator ++ (footer_marker ++ body))) ≡ some description =
      (rw i at d) in
    let same : description ≡ main ++ (footer_separator ++ (footer_marker ++ body)) = cc in
    let whole = main ++ (footer_separator ++ (footer_marker ++ body)) in
    let refers : contains ref whole ≡ true = contains-append_left ref main _ (
      contains-append_left ref footer_separator _
        (contains-append_left ref footer_marker _ (body_refers path _ n k more issue e))) in
    let marked : contains footer_marker whole ≡ true = contains-append_left footer_marker main _ (
      contains-append_left footer_marker footer_separator _
        (contains-append_right footer_marker footer_marker body (contains_self footer_marker))) in
    rw (same, refers, marked) refl
