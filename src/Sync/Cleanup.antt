-- ===== src/Sync/Cleanup.antt =====
-- app/core/issue_sync.py: `cleanup_orphaned_resources`, where commits succeed.
pub mod Foreign
mod Tests
use mirror_maestro.Common.{
  ℕ, suc, ◌+◌, Bool, true, false, not, ◌&&◌, ◌||◌, Option, none, some, List, [], ◌∷◌, ◌++◌, any,
  All, length, ◌≡◌, refl, ◌∙◌, sym, ap, inl, inr, Bool-cases, arith, ◌==◌, if◌then◌else◌,
}
use mirror_maestro.Text.{Text, codes}
use mirror_maestro.Errors.{exception, Error, Outcome, returned, raised}
use mirror_maestro.Database.{Row, no_row, one_row, many_rows, scalar_one_or_none}
use mirror_maestro.Sync.Target.{TargetIssue}
use mirror_maestro.Mirrors.Deletion.{
  Rows, IssueMapping, CommentMapping, AttachmentMapping, is_in, delete_where, ids_where,
}
use mirror_maestro.Mirrors.Deletion.Intact.{differs}
use mirror_maestro.Mirrors.Deletion.Others.{rows_of, unlisted}

pub record CleanupStats : Type 0 where
  pub orphaned_issues_found : ℕ
  pub orphaned_comments_found : ℕ
  pub orphaned_attachments_found : ℕ
  pub mappings_deleted : ℕ
  pub errors : List Text

-- The ids of the issues, each once, in order; `seen` are those before.
unfoldable pub unique_ids : List ℕ → List TargetIssue → List ℕ
unique_ids seen [] = []
unique_ids seen (t ∷ ts) = elim t.id [
  | none ↦ unique_ids seen ts
  | some i ↦ elim (is_in seen i) [
    | true ↦ unique_ids seen ts
    | false ↦ i ∷ unique_ids (i ∷ seen) ts
  ]
]

abbrev pub maps_issue : ℕ → ℕ → IssueMapping → Bool
maps_issue config_id i m = m.mirror_issue_config_id == config_id && m.target_issue_id == i

abbrev pub several_rows : Error
several_rows = record {
  class_of = exception;
  message = codes "Multiple rows were found when one or none was required";
}

abbrev pub count_if_missing : Row IssueMapping → ℕ → (ℕ → ℕ × Option Error) → ℕ × Option Error
count_if_missing no_row n next = next (n + 1)
count_if_missing (one_row m) n next = next n
count_if_missing many_rows n next = (n, some several_rows)

-- The issues without a mapping of the configuration, and the exception of a query.
unfoldable pub count_orphans : ℕ → List IssueMapping → List ℕ → ℕ → ℕ × Option Error
count_orphans config_id ms [] n = (n, none)
count_orphans config_id ms (i ∷ is) n =
    count_if_missing (scalar_one_or_none (maps_issue config_id i) ms) n
      (count_orphans config_id ms is)

-- The ids of the configuration's issue mappings.
unfoldable pub own_ids : ℕ → Rows → List ℕ
unfolding ids_where
own_ids config_id r =
    ids_where IssueMapping.id (λ m. m.mirror_issue_config_id == config_id) r.issues

abbrev pub is_foreign : List ℕ → ℕ → Bool
is_foreign own i = not (is_in own i)

-- `NOT IN` does not hold of null.
abbrev pub is_foreign_some : List ℕ → Option ℕ → Bool
is_foreign_some own none = false
is_foreign_some own (some i) = is_foreign own i

abbrev pub found_where : {A : Type 0} → (A → Bool) → List A → ℕ
found_where p xs = length (delete_where (λ x. not (p x)) xs)

abbrev pub cleaned : ℕ → Rows → Rows
cleaned config_id r =
    let own = own_ids config_id r in
    record r {
      comments = delete_where (λ c. is_foreign own c.issue_mapping_id) r.comments;
      attachments = delete_where (λ a. is_foreign_some own a.issue_mapping_id) r.attachments;
    }

abbrev pub cleanup_failed : ℕ → Error → CleanupStats
cleanup_failed n e = record {
  orphaned_issues_found = n;
  orphaned_comments_found = 0;
  orphaned_attachments_found = 0;
  mappings_deleted = 0;
  errors = e.message ∷ [];
}

abbrev pub cleanup_counted : ℕ → Rows → ℕ × Option Error → CleanupStats × Rows
cleanup_counted config_id r (n, some e) = (cleanup_failed n e, r)
cleanup_counted config_id r (n, none) =
    let own = own_ids config_id r in
    let comments =
      found_where (λ (c : CommentMapping). is_foreign own c.issue_mapping_id) r.comments in
    let attachments =
      found_where (λ (a : AttachmentMapping). is_foreign_some own a.issue_mapping_id)
        r.attachments in
    (
      record {
        orphaned_issues_found = n;
        orphaned_comments_found = comments;
        orphaned_attachments_found = attachments;
        mappings_deleted = comments + attachments;
        errors = [];
      },
      cleaned config_id r,
    )

abbrev pub cleanup_fetched :
    ℕ → Rows → Outcome (List TargetIssue) → Outcome (List TargetIssue) → CleanupStats × Rows
cleanup_fetched config_id r (raised e) second = (cleanup_failed 0 e, r)
cleanup_fetched config_id r (returned ts) (raised e) = (cleanup_failed 0 e, r)
cleanup_fetched config_id r (returned ts) (returned us) =
    cleanup_counted config_id r (count_orphans config_id r.issues (unique_ids [] (ts ++ us)) 0)

-- `cleanup_orphaned_resources`, with the issues found by either label.
unfoldable pub cleanup_orphaned_resources :
    ℕ → Outcome (List TargetIssue) → Outcome (List TargetIssue) → Rows → CleanupStats × Rows
unfolding unique_ids count_orphans own_ids
cleanup_orphaned_resources config_id first second r = cleanup_fetched config_id r first second
