-- ===== src/Sync/Returning.antt =====
-- app/core/issue_sync.py: `_sync_issue` on an issue that comes back to where it came from.
use mirror_maestro.Common.{ℕ, ◌+◌, ◌≡◌, refl, ◌∙◌, ap, ◌⊎◌, Bool, true, false, some, List, [], ◌++◌}
use mirror_maestro.Text.{Text, codes, contains, is_empty}
use mirror_maestro.Issue.{Issue}
use mirror_maestro.Issue.Footer.{or_default, prepare_description}
use mirror_maestro.Issue.Labels.{ParsedUrl, extract_hostname, get_mirror_from_label, prepare_labels}
use mirror_maestro.Issue.Labels.Loops.{originated_from_target-mirrored}
use mirror_maestro.Sync.{Stats}
use mirror_maestro.Sync.Target.{Outside, Mapping, World, Engine}
use mirror_maestro.Sync.Batch.{
  skipped, came_from_target, judge_issue, judge, processed, act, sync_issue,
}

-- The engine of a direction whose target is the instance `url`.
abbrev pub targeting : (Text → ParsedUrl) → Text → Engine → Engine
targeting urlparse url e = record e {
  originated_from_target_label = get_mirror_from_label urlparse url;
  target_host = extract_hostname urlparse url;
}

judge-skipped :
    (e : Engine) (ms : List Mapping) (issue : Issue) (i j : ℕ)
    → issue.id ≡ some i
    → issue.iid ≡ some j
    → came_from_target e issue ≡ true
    → judge e ms issue ≡ skipped
unfolding judge
judge-skipped e ms issue i j id iid came =
    ap (λ x. judge_issue e ms issue x issue.iid) id
    ∙ ap (judge_issue e ms issue (some i)) iid
    ∙ rw came refl

-- An issue with an id and an iid that stands on a mirror of the instance `url`, with the labels that
-- `_prepare_labels` gave it, or with the description that `_prepare_description` gave it, unchanged
-- by the rewriting of attachments, where the instance has a host and the web URL of the issue that
-- it was made from contains `://` and that host: `_sync_issue` of any engine whose target is this
-- instance skips it. It makes no call and changes no mapping.
pub sync_issue-mirrored :
    (o : Outside) (e : Engine) (urlparse : Text → ParsedUrl) (url path d : Text)
    (sync_labels : Bool) (issue mirrored : Issue) (i j : ℕ) (s : Stats) (w : World)
    → mirrored.id ≡ some i
    → mirrored.iid ≡ some j
    → prepare_description path issue ≡ some d
    → (mirrored.labels ≡ prepare_labels (get_mirror_from_label urlparse url) sync_labels issue)
      ⊎ ((mirrored.description ≡ some d)
          × (is_empty (extract_hostname urlparse url) ≡ false)
          × (contains (codes "://" ++ extract_hostname urlparse url) (or_default issue.web_url [])
              ≡ true))
    → sync_issue o (targeting urlparse url e) mirrored s w
      ≡ (record (processed s) { issues_skipped = s.issues_skipped + 1 }, w)
unfolding sync_issue
sync_issue-mirrored o e urlparse url path d sync_labels issue mirrored i j s w id iid prepared
      kept =
    ap (λ v. act o (targeting urlparse url e) mirrored v s w)
      (judge-skipped (targeting urlparse url e) w.mappings mirrored i j id iid (
        originated_from_target-mirrored urlparse url path e.originated_from_target_label_legacy d
          sync_labels issue mirrored prepared kept))
