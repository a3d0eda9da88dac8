-- ===== src/Backup/Schema.antt =====
-- app/models.py: the columns of the tables, in the order in which a backup is read back.
use mirror_maestro.Common.{true, false, List, [], ◌∷◌}
use mirror_maestro.Text.{Text, codes}
use mirror_maestro.Backup.{
  Value, integer, boolean, string, time, Kind, integers, booleans, strings, times, documents,
  optional, required, default, Column,
}

-- A table: its columns, and those that the import parses as times.
pub record TableSpec : Type 0 where
  pub table : Text
  pub columns : List Column
  pub time_fields : List Text

abbrev column : Kind → Text → Column
column k n = record { name = n; kind = k; presence = required }

abbrev nullable : Kind → Text → Column
nullable k n = record { name = n; kind = k; presence = optional }

abbrev with_default : Kind → Text → Value → Column
with_default k n v = record { name = n; kind = k; presence = default (λ now. v) }

-- `default=datetime.utcnow`
abbrev stamped : Text → Column
stamped n = record { name = n; kind = times; presence = default time }

abbrev pub users : TableSpec
users = record {
  table = codes "users";
  columns =
      column integers (codes "id")
      ∷ column strings (codes "username")
      ∷ nullable strings (codes "email")
      ∷ column strings (codes "hashed_password")
      ∷ with_default booleans (codes "is_admin") (boolean false)
      ∷ with_default booleans (codes "is_active") (boolean true)
      ∷ stamped (codes "created_at")
      ∷ stamped (codes "updated_at")
      ∷ [];
  time_fields = codes "created_at" ∷ codes "updated_at" ∷ [];
}

abbrev pub gitlab_instances : TableSpec
gitlab_instances = record {
  table = codes "gitlab_instances";
  columns =
      column integers (codes "id")
      ∷ column strings (codes "name")
      ∷ column strings (codes "url")
      ∷ column strings (codes "encrypted_token")
      ∷ nullable integers (codes "api_user_id")
      ∷ nullable strings (codes "api_username")
      ∷ nullable strings (codes "description")
      ∷ nullable strings (codes "gitlab_version")
      ∷ nullable strings (codes "gitlab_edition")
      ∷ nullable booleans (codes "tls_keepalive_enabled")
      ∷ stamped (codes "created_at")
      ∷ stamped (codes "updated_at")
      ∷ [];
  time_fields = codes "created_at" ∷ codes "updated_at" ∷ [];
}

abbrev pub instance_pairs : TableSpec
instance_pairs = record {
  table = codes "instance_pairs";
  columns =
      column integers (codes "id")
      ∷ column strings (codes "name")
      ∷ column integers (codes "source_instance_id")
      ∷ column integers (codes "target_instance_id")
      ∷ with_default strings (codes "mirror_direction") (string (codes "pull"))
      ∷ with_default booleans (codes "mirror_overwrite_diverged") (boolean false)
      ∷ with_default booleans (codes "mirror_trigger_builds") (boolean false)
      ∷ with_default booleans (codes "only_mirror_protected_branches") (boolean false)
      ∷ nullable strings (codes "mirror_branch_regex")
      ∷ with_default booleans (codes "issue_sync_enabled") (boolean false)
      ∷ nullable strings (codes "description")
      ∷ stamped (codes "created_at")
      ∷ stamped (codes "updated_at")
      ∷ [];
  time_fields = codes "created_at" ∷ codes "updated_at" ∷ [];
}

abbrev pub mirrors : TableSpec
mirrors = record {
  table = codes "mirrors";
  columns =
      column integers (codes "id")
      ∷ column integers (codes "instance_pair_id")
      ∷ column integers (codes "source_project_id")
      ∷ column strings (codes "source_project_path")
      ∷ column integers (codes "target_project_id")
      ∷ column strings (codes "target_project_path")
      ∷ nullable booleans (codes "mirror_overwrite_diverged")
      ∷ nullable booleans (codes "mirror_trigger_builds")
      ∷ nullable booleans (codes "only_mirror_protected_branches")
      ∷ nullable strings (codes "mirror_branch_regex")
      ∷ nullable booleans (codes "issue_sync_enabled")
      ∷ nullable integers (codes "mirror_id")
      ∷ nullable times (codes "last_successful_update")
      ∷ nullable times (codes "last_update_at")
      ∷ nullable strings (codes "last_update_status")
      ∷ nullable strings (codes "last_error")
      ∷ nullable times (codes "status_checked_at")
      ∷ with_default booleans (codes "enabled") (boolean true)
      ∷ nullable strings (codes "encrypted_mirror_token")
      ∷ nullable strings (codes "mirror_token_name")
      ∷ nullable times (codes "mirror_token_expires_at")
      ∷ nullable integers (codes "gitlab_token_id")
      ∷ nullable integers (codes "token_project_id")
      ∷ stamped (codes "created_at")
      ∷ stamped (codes "updated_at")
      ∷ [];
  time_fields =
      codes "created_at"
      ∷ codes "updated_at"
      ∷ codes "last_successful_update"
      ∷ codes "mirror_token_expires_at"
      ∷ [];
}

abbrev pub mirror_issue_configs : TableSpec
mirror_issue_configs = record {
  table = codes "mirror_issue_configs";
  columns =
      column integers (codes "id")
      ∷ column integers (codes "mirror_id")
      ∷ with_default booleans (codes "enabled") (boolean true)
      ∷ with_default booleans (codes "sync_comments") (boolean true)
      ∷ with_default booleans (codes "sync_labels") (boolean true)
      ∷ with_default booleans (codes "sync_attachments") (boolean true)
      ∷ with_default booleans (codes "sync_weight") (boolean true)
      ∷ with_default booleans (codes "sync_time_estimate") (boolean true)
      ∷ with_default booleans (codes "sync_time_spent") (boolean true)
      ∷ with_default booleans (codes "sync_closed_issues") (boolean false)
      ∷ with_default booleans (codes "update_existing") (boolean true)
      ∷ with_default booleans (codes "sync_existing_issues") (boolean false)
      ∷ nullable times (codes "last_sync_at")
      ∷ nullable strings (codes "last_sync_status")
      ∷ nullable strings (codes "last_sync_error")
      ∷ nullable times (codes "next_sync_at")
      ∷ with_default integers (codes "sync_interval_minutes") (integer 15)
      ∷ stamped (codes "created_at")
      ∷ stamped (codes "updated_at")
      ∷ [];
  time_fields =
      codes "created_at" ∷ codes "updated_at" ∷ codes "last_sync_at" ∷ codes "next_sync_at" ∷ [];
}

abbrev pub issue_mappings : TableSpec
issue_mappings = record {
  table = codes "issue_mappings";
  columns =
      column integers (codes "id")
      ∷ column integers (codes "mirror_issue_config_id")
      ∷ column integers (codes "source_issue_id")
      ∷ column integers (codes "source_issue_iid")
      ∷ column integers (codes "source_project_id")
      ∷ column integers (codes "target_issue_id")
      ∷ column integers (codes "target_issue_iid")
      ∷ column integers (codes "target_project_id")
      ∷ nullable times (codes "last_synced_at")
      ∷ nullable times (codes "source_updated_at")
      ∷ nullable times (codes "target_updated_at")
      ∷ with_default strings (codes "sync_status") (string (codes "synced"))
      ∷ nullable strings (codes "sync_error")
      ∷ nullable strings (codes "source_content_hash")
      ∷ stamped (codes "created_at")
      ∷ stamped (codes "updated_at")
      ∷ [];
  time_fields =
      codes "created_at"
      ∷ codes "updated_at"
      ∷ codes "last_synced_at"
      ∷ codes "source_updated_at"
      ∷ codes "target_updated_at"
      ∷ [];
}

abbrev pub comment_mappings : TableSpec
comment_mappings = record {
  table = codes "comment_mappings";
  columns =
      column integers (codes "id")
      ∷ column integers (codes "issue_mapping_id")
      ∷ column integers (codes "source_note_id")
      ∷ column integers (codes "target_note_id")
      ∷ nullable times (codes "last_synced_at")
      ∷ nullable strings (codes "source_content_hash")
      ∷ stamped (codes "created_at")
      ∷ stamped (codes "updated_at")
      ∷ [];
  time_fields = codes "created_at" ∷ codes "updated_at" ∷ codes "last_synced_at" ∷ [];
}

abbrev pub label_mappings : TableSpec
label_mappings = record {
  table = codes "label_mappings";
  columns =
      column integers (codes "id")
      ∷ column integers (codes "mirror_issue_config_id")
      ∷ column strings (codes "source_label_name")
      ∷ column strings (codes "target_label_name")
      ∷ with_default strings (codes "mapping_strategy") (string (codes "exact"))
      ∷ with_default booleans (codes "auto_create") (boolean true)
      ∷ stamped (codes "created_at")
      ∷ stamped (codes "updated_at")
      ∷ [];
  time_fields = codes "created_at" ∷ codes "updated_at" ∷ [];
}

abbrev pub attachment_mappings : TableSpec
attachment_mappings = record {
  table = codes "attachment_mappings";
  columns =
      column integers (codes "id")
      ∷ nullable integers (codes "issue_mapping_id")
      ∷ nullable integers (codes "comment_mapping_id")
      ∷ column strings (codes "source_url")
      ∷ column strings (codes "target_url")
      ∷ nullable strings (codes "filename")
      ∷ nullable strings (codes "content_type")
      ∷ nullable integers (codes "file_size")
      ∷ nullable times (codes "uploaded_at")
      ∷ stamped (codes "created_at")
      ∷ [];
  time_fields = codes "created_at" ∷ codes "uploaded_at" ∷ [];
}

abbrev pub issue_sync_jobs : TableSpec
issue_sync_jobs = record {
  table = codes "issue_sync_jobs";
  columns =
      column integers (codes "id")
      ∷ column integers (codes "mirror_issue_config_id")
      ∷ column strings (codes "job_type")
      ∷ with_default strings (codes "status") (string (codes "pending"))
      ∷ nullable integers (codes "source_project_id")
      ∷ nullable integers (codes "target_project_id")
      ∷ nullable integers (codes "source_instance_id")
      ∷ nullable integers (codes "target_instance_id")
      ∷ nullable documents (codes "parameters")
      ∷ with_default integers (codes "issues_processed") (integer 0)
      ∷ with_default integers (codes "issues_created") (integer 0)
      ∷ with_default integers (codes "issues_updated") (integer 0)
      ∷ with_default integers (codes "issues_failed") (integer 0)
      ∷ nullable documents (codes "error_details")
      ∷ nullable times (codes "started_at")
      ∷ nullable times (codes "completed_at")
      ∷ stamped (codes "created_at")
      ∷ nullable strings (codes "idempotency_key")
      ∷ [];
  time_fields = codes "created_at" ∷ codes "started_at" ∷ codes "completed_at" ∷ [];
}

abbrev pub other_tables : List TableSpec
other_tables =
    gitlab_instances ∷ instance_pairs ∷ mirrors ∷ mirror_issue_configs ∷ issue_mappings
    ∷ comment_mappings ∷ label_mappings ∷ attachment_mappings ∷ issue_sync_jobs ∷ []

-- The tables of a backup.
abbrev pub tables : List TableSpec
tables = users ∷ other_tables
