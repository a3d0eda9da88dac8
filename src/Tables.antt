-- ===== src/Tables.antt =====
-- app/models.py: the rows of the tables that the schedulers and the mirror endpoints read and
-- write, with the columns that they use. Times are microseconds. Each table is a list of rows, the newest first.
use mirror_maestro.Common.{ℕ, Bool, Option, List}
use mirror_maestro.Text.{Text}
use mirror_maestro.Sync.{IssueError, SyncStatus}

pub data JobStatus : Type 0 where
  pending running completed failed : JobStatus

-- The dicts that `error_details` holds.
pub data Details : Type 0 where
  one_error : Text → Details
  sync_errors : List IssueError → Details

-- `IssueSyncJob`
pub record Job : Type 0 where
  pub job_id : ℕ
  pub config_id : ℕ
  pub status : JobStatus
  pub started_at : Option ℕ
  pub completed_at : Option ℕ
  pub created_at : ℕ
  pub issues_processed : ℕ
  pub issues_created : ℕ
  pub issues_updated : ℕ
  pub issues_failed : ℕ
  pub error_details : Option Details
  pub source_project : ℕ
  pub target_project : ℕ
  pub source_instance : ℕ
  pub target_instance : ℕ

-- `MirrorIssueConfig`
pub record Config : Type 0 where
  pub id : ℕ
  pub mirror_id : ℕ
  pub enabled : Bool
  pub sync_interval_minutes : ℕ
  pub next_sync_at : Option ℕ
  pub last_sync_at : Option ℕ
  pub last_sync_status : Option SyncStatus
  pub last_sync_error : Option Text

-- `Mirror`
pub record Mirror : Type 0 where
  pub id : ℕ
  pub instance_pair_id : ℕ
  pub source_project_id : ℕ
  pub target_project_id : ℕ
  pub source_project_path : Text
  pub target_project_path : Text
  pub mirror_overwrite_diverged : Option Bool
  pub mirror_trigger_builds : Option Bool
  pub only_mirror_protected_branches : Option Bool
  pub mirror_branch_regex : Option Text
  pub issue_sync_enabled : Option Bool
  -- GitLab's id of the remote mirror
  pub mirror_id : Option ℕ
  pub enabled : Bool
  pub last_successful_update : Option ℕ
  pub last_update_at : Option ℕ
  pub last_update_status : Option Text
  pub last_error : Option Text
  pub status_checked_at : Option ℕ
  pub encrypted_mirror_token : Option Text
  pub mirror_token_name : Option Text
  pub mirror_token_expires_at : Option ℕ
  pub gitlab_token_id : Option ℕ
  pub token_project_id : Option ℕ
  pub created_at : ℕ
  pub updated_at : ℕ

-- `InstancePair`
pub record Pair : Type 0 where
  pub id : ℕ
  pub source_instance_id : ℕ
  pub target_instance_id : ℕ
  pub mirror_direction : Text
  pub mirror_overwrite_diverged : Bool
  pub mirror_trigger_builds : Bool
  pub only_mirror_protected_branches : Bool
  pub mirror_branch_regex : Option Text
  pub issue_sync_enabled : Bool

pub record Db : Type 0 where
  pub jobs : List Job
  pub configs : List Config
  pub mirrors : List Mirror
  pub pairs : List Pair
  pub instances : List ℕ
  pub next_job_id : ℕ
