-- ===== src/Sync.antt =====
-- app/core/issue_sync.py, `IssueSyncEngine`: the statistics of a sync and the status it ends with.
pub mod Target
pub mod Orphans
pub mod Mistaken
pub mod Calls
pub mod Issues
pub mod Batch
pub mod Keeps
pub mod Unique
pub mod Again
pub mod Returning
pub mod Counts
pub mod Comments
pub mod Cleanup
pub mod Urls
pub mod Attachments
mod Tests
use mirror_maestro.Common.{ℕ, ◌+◌, Bool, true, false, ◌&&◌, Option, List, [], ltb, if◌then◌else◌}
use mirror_maestro.Text.{Text}

pub record IssueError : Type 0 where
  pub issue_iid : Option ℕ
  pub error : Text

-- The dict `stats` of `sync`.
pub record Stats : Type 0 where
  pub issues_processed : ℕ
  pub issues_created : ℕ
  pub issues_updated : ℕ
  pub issues_skipped : ℕ
  pub issues_failed : ℕ
  pub errors : List IssueError

abbrev pub new_stats : Stats
new_stats = record {
  issues_processed = 0;
  issues_created = 0;
  issues_updated = 0;
  issues_skipped = 0;
  issues_failed = 0;
  errors = [];
}

-- The values of `last_sync_status`.
pub data SyncStatus : Type 0 where
  success partial_success failure : SyncStatus

abbrev pub final_status : Stats → SyncStatus
final_status s =
    if ltb 0 s.issues_failed && ltb 0 (s.issues_created + s.issues_updated)
    then partial_success
    else if ltb 0 s.issues_failed
    then failure
    else success
