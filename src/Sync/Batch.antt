-- ===== src/Sync/Batch.antt =====
-- app/core/issue_sync.py: `_sync_issue`, and the loop of `sync` over the source issues. What the
-- loop's checkpoints commit is the time only, so the batches leave the same as one pass.
use mirror_maestro.Common.{
  ℕ, ◌+◌, Bool, not, Option, none, some, List, [], ◌∷◌, ◌++◌, ◌==◌, if◌then◌else◌,
}
use mirror_maestro.Text.{Text, codes, eq_text}
use mirror_maestro.Errors.{exception, Error, Outcome, returned, raised}
use mirror_maestro.Database.{Row, no_row, many_rows, one_row, scalar_one_or_none}
use mirror_maestro.Issue.{Issue}
use mirror_maestro.Issue.Footer.{or_default}
use mirror_maestro.Issue.Labels.{originated_from_target}
use mirror_maestro.Sync.{Stats}
use mirror_maestro.Sync.Target.{Outside, Mapping, World, Engine}
use mirror_maestro.Sync.Issues.{create_target_issue, update_target_issue}

-- What `_sync_issue` finds before it calls the target.
pub data Verdict : Type 0 where
  invalid skipped query_error : Verdict
  update : ℕ → ℕ → Mapping → Text → Verdict
  create : ℕ → ℕ → Text → Verdict

abbrev pub digest_of : Engine → Issue → Text
digest_of e issue =
    e.content_hash (or_default issue.title [] ++ (codes "|||" ++ or_default issue.description []))

abbrev pub is_mapped : ℕ → Mapping → Bool
is_mapped id m = m.source_issue_id == id

abbrev pub judge_mapping : Engine → ℕ → ℕ → Text → Row Mapping → Verdict
judge_mapping e id iid digest no_row = create id iid digest
judge_mapping e id iid digest many_rows = query_error
judge_mapping e id iid digest (one_row m) =
    if not e.update_existing
    then skipped
    else if eq_text m.source_content_hash digest
    then skipped
    else update id iid m digest

abbrev pub came_from_target : Engine → Issue → Bool
came_from_target e =
    originated_from_target e.originated_from_target_label e.originated_from_target_label_legacy
      e.target_host

abbrev pub judge_issue : Engine → List Mapping → Issue → Option ℕ → Option ℕ → Verdict
judge_issue e ms issue (some id) (some iid) =
    if came_from_target e issue
    then skipped
    else judge_mapping e id iid (digest_of e issue) (scalar_one_or_none (is_mapped id) ms)
judge_issue e ms issue (some id) none = invalid
judge_issue e ms issue none iid = invalid

unfoldable pub judge : Engine → List Mapping → Issue → Verdict
judge e ms issue = judge_issue e ms issue issue.id issue.iid

abbrev pub processed : Stats → Stats
processed s = record s { issues_processed = s.issues_processed + 1 }

-- The `except` clause of the loop.
abbrev pub failed_issue : Issue → Error → Stats → Stats
failed_issue issue x s = record s {
  issues_failed = s.issues_failed + 1;
  errors = s.errors ++ record { issue_iid = issue.iid; error = x.message } ∷ [];
}

abbrev pub many_rows_error : Error
many_rows_error = record {
  class_of = exception;
  message = codes "Multiple rows were found when one or none was required";
}

-- The statistics after a call, `ok` when it returned.
abbrev pub after_call : Issue → Stats → Stats → Outcome (Unit {0}) × World → Stats × World
after_call issue s ok (returned _, w) = (ok, w)
after_call issue s ok (raised x, w) = (failed_issue issue x s, w)

module _ (o : Outside) (e : Engine) where
  -- `_sync_issue` and the `try` around it.
  abbrev pub act : Issue → Verdict → Stats → World → Stats × World
  act issue invalid s w = (record s { issues_failed = s.issues_failed + 1 }, w)
  act issue skipped s w = (record (processed s) { issues_skipped = s.issues_skipped + 1 }, w)
  act issue query_error s w = (failed_issue issue many_rows_error (processed s), w)
  act issue (update id iid m digest) s w =
      after_call issue (processed s)
        (record (processed s) { issues_updated = s.issues_updated + 1 })
        (update_target_issue o e id iid issue m digest w)
  act issue (create id iid digest) s w =
      after_call issue (processed s)
        (record (processed s) { issues_created = s.issues_created + 1 })
        (create_target_issue o e id iid issue digest w)

  unfoldable pub sync_issue : Issue → Stats → World → Stats × World
  sync_issue issue s w = act issue (judge e w.mappings issue) s w

  -- The loop of `sync`.
  unfoldable pub sync_issues : List Issue → Stats → World → Stats × World
  sync_issues [] s w = (s, w)
  sync_issues (issue ∷ issues) s w = let (s', w') = sync_issue issue s w in sync_issues issues s' w'
