-- ===== src/Mirrors/Deletion.antt =====
-- app/api/mirrors.py: `_delete_issue_sync_data_for_mirrors`, and the deletion of mirrors in the
-- database.
pub mod Intact
pub mod Others
pub mod Tests
use mirror_maestro.Common.{
  ℕ, Bool, true, false, not, ◌||◌, Option, none, some, List, [], ◌∷◌, any, map, ◌==◌, if◌then◌else◌,
}

-- The columns of the tables that refer to other rows.
pub record MirrorRow : Type 0 where
  pub id : ℕ

-- `MirrorIssueConfig`
pub record ConfigRow : Type 0 where
  pub id : ℕ
  pub mirror_id : ℕ

pub record IssueMapping : Type 0 where
  pub id : ℕ
  pub mirror_issue_config_id : ℕ
  pub target_issue_id : ℕ

pub record CommentMapping : Type 0 where
  pub id : ℕ
  pub issue_mapping_id : ℕ

-- `LabelMapping` and `IssueSyncJob`
pub record ConfigChild : Type 0 where
  pub id : ℕ
  pub mirror_issue_config_id : ℕ

pub record AttachmentMapping : Type 0 where
  pub id : ℕ
  pub issue_mapping_id : Option ℕ
  pub comment_mapping_id : Option ℕ

pub record Rows : Type 0 where
  pub mirrors : List MirrorRow
  pub configs : List ConfigRow
  pub issues : List IssueMapping
  pub comments : List CommentMapping
  pub labels : List ConfigChild
  pub jobs : List ConfigChild
  pub attachments : List AttachmentMapping

-- `column.in_(ids)`
abbrev pub is_in : List ℕ → ℕ → Bool
is_in ids i = any (λ j. j == i) ids

-- Null is in no list.
abbrev pub is_in_some : List ℕ → Option ℕ → Bool
is_in_some ids none = false
is_in_some ids (some i) = is_in ids i

-- `delete(...).where(...)`
unfoldable pub delete_where : {A : Type 0} → (A → Bool) → List A → List A
delete_where p [] = []
delete_where p (x ∷ xs) = let rest = delete_where p xs in if p x then rest else x ∷ rest

-- The subquery for the ids of the rows that fit.
unfoldable pub ids_where : {A : Type 0} → (A → ℕ) → (A → Bool) → List A → List ℕ
ids_where id_of p [] = []
ids_where id_of p (x ∷ xs) = let rest = ids_where id_of p xs in if p x then id_of x ∷ rest else rest

abbrev pub no_ids : List ℕ → Bool
no_ids [] = true
no_ids (i ∷ is) = false

-- The subqueries, and the rows that hang on them.
unfoldable pub config_ids : List ℕ → Rows → List ℕ
unfolding ids_where
config_ids mirror_ids r = ids_where ConfigRow.id (λ c. is_in mirror_ids c.mirror_id) r.configs

unfoldable pub mapping_ids : List ℕ → Rows → List ℕ
unfolding config_ids
mapping_ids mirror_ids r =
    ids_where IssueMapping.id (λ m. is_in (config_ids mirror_ids r) m.mirror_issue_config_id)
      r.issues

unfoldable pub comment_ids : List ℕ → Rows → List ℕ
unfolding mapping_ids
comment_ids mirror_ids r =
    ids_where CommentMapping.id (λ c. is_in (mapping_ids mirror_ids r) c.issue_mapping_id)
      r.comments

-- `_delete_issue_sync_data_for_mirrors`. A subquery is evaluated when its statement runs; the rows
-- that it reads are deleted only by later statements.
unfoldable pub delete_issue_sync_data_for_mirrors : List ℕ → Rows → Rows
unfolding comment_ids delete_where
delete_issue_sync_data_for_mirrors mirror_ids r =
    if no_ids mirror_ids
    then r
    else let configs = config_ids mirror_ids r in
      let mappings = mapping_ids mirror_ids r in
      let comments = comment_ids mirror_ids r in
      record r {
        configs = delete_where (λ c. is_in mirror_ids c.mirror_id) r.configs;
        issues = delete_where (λ m. is_in configs m.mirror_issue_config_id) r.issues;
        comments = delete_where (λ c. is_in mappings c.issue_mapping_id) r.comments;
        labels = delete_where (λ l. is_in configs l.mirror_issue_config_id) r.labels;
        jobs = delete_where (λ j. is_in configs j.mirror_issue_config_id) r.jobs;
        attachments =
            delete_where (λ a. is_in_some mappings a.issue_mapping_id)
              (delete_where (λ a. is_in_some comments a.comment_mapping_id) r.attachments);
      }

-- The rows after `delete_mirror`, or the deletion of a pair's mirrors.
unfoldable pub delete_mirrors : List ℕ → Rows → Rows
unfolding delete_issue_sync_data_for_mirrors
delete_mirrors mirror_ids r =
    let cleared = delete_issue_sync_data_for_mirrors mirror_ids r in
    record cleared { mirrors = delete_where (λ m. is_in mirror_ids m.id) cleared.mirrors }
