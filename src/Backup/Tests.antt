-- ===== src/Backup/Tests.antt =====
-- app/api/backup.py: backups of concrete tables.
use mirror_maestro.Common.{
  ap, arith, zero, suc, ℕ, ◌+◌, ◌-◌, true, none, some, List, [], ◌∷◌, ◌++◌, All, length, replicate,
  ◌≤◌, ◌≡◌, refl,
}
use mirror_maestro.Text.{Text, codes, eq_text, after_prefix, Dict, lookup, insert}
use mirror_maestro.Http.{internal_error}
use mirror_maestro.Backup.{null, integer, string, boolean, time, Fields, Outer, export_table_data}
use mirror_maestro.Backup.Schema.{tables}
use mirror_maestro.Backup.Import.{row_id, max_id, rows_of_table, reset_sequences, names_of}
use mirror_maestro.Backup.Archive.{safe_tar_extract, validate_members, extracted}
use mirror_maestro.Backup.Restore.{System, Checks, create_backup, restore_backup, ends_with}
use mirror_maestro.Backup.RoundTrip.{IsDatabase, has_unparsed_time, ReadsTimes}
use mirror_maestro.Backup.Returned.{failed_import, restore_backup-create_backup}
use mirror_maestro.Backup.Sequences.{reset_sequences_lem}

-- A label mapping and a mirror, whose status was refreshed.
abbrev label : Fields
label =
    (codes "id", integer 7)
    ∷ (codes "mirror_issue_config_id", integer 1)
    ∷ (codes "source_label_name", string (codes "x"))
    ∷ (codes "target_label_name", string (codes "x"))
    ∷ (codes "mapping_strategy", string (codes "x"))
    ∷ (codes "auto_create", boolean true)
    ∷ (codes "created_at", time 5)
    ∷ (codes "updated_at", time 5)
    ∷ []

abbrev refreshed_mirror : Fields
refreshed_mirror =
    (codes "id", integer 3)
    ∷ (codes "instance_pair_id", integer 1)
    ∷ (codes "source_project_id", integer 1)
    ∷ (codes "source_project_path", string (codes "x"))
    ∷ (codes "target_project_id", integer 1)
    ∷ (codes "target_project_path", string (codes "x"))
    ∷ (codes "mirror_overwrite_diverged", null)
    ∷ (codes "mirror_trigger_builds", null)
    ∷ (codes "only_mirror_protected_branches", null)
    ∷ (codes "mirror_branch_regex", null)
    ∷ (codes "issue_sync_enabled", null)
    ∷ (codes "mirror_id", null)
    ∷ (codes "last_successful_update", null)
    ∷ (codes "last_update_at", time 9)
    ∷ (codes "last_update_status", null)
    ∷ (codes "last_error", null)
    ∷ (codes "status_checked_at", null)
    ∷ (codes "enabled", boolean true)
    ∷ (codes "encrypted_mirror_token", null)
    ∷ (codes "mirror_token_name", null)
    ∷ (codes "mirror_token_expires_at", null)
    ∷ (codes "gitlab_token_id", null)
    ∷ (codes "token_project_id", null)
    ∷ (codes "created_at", time 5)
    ∷ (codes "updated_at", time 5)
    ∷ []

abbrev labels_only : Dict (List Fields)
labels_only =
    (codes "users", [])
    ∷ (codes "gitlab_instances", [])
    ∷ (codes "instance_pairs", [])
    ∷ (codes "mirrors", [])
    ∷ (codes "mirror_issue_configs", [])
    ∷ (codes "issue_mappings", [])
    ∷ (codes "comment_mappings", [])
    ∷ (codes "label_mappings", label ∷ [])
    ∷ (codes "attachment_mappings", [])
    ∷ (codes "issue_sync_jobs", [])
    ∷ []

abbrev with_mirror : Dict (List Fields)
with_mirror =
    (codes "users", [])
    ∷ (codes "gitlab_instances", [])
    ∷ (codes "instance_pairs", [])
    ∷ (codes "mirrors", refreshed_mirror ∷ [])
    ∷ (codes "mirror_issue_configs", [])
    ∷ (codes "issue_mappings", [])
    ∷ (codes "comment_mappings", [])
    ∷ (codes "label_mappings", label ∷ [])
    ∷ (codes "attachment_mappings", [])
    ∷ (codes "issue_sync_jobs", [])
    ∷ []

with_mirror-IsDatabase : IsDatabase tables with_mirror
with_mirror-IsDatabase = (
  refl,
  tt,
  (
    refl,
    tt,
    (
      refl,
      tt,
      (
        refl,
        (
          (
            refl,
            refl,
            (
              refl,
              refl,
              (
                refl,
                refl,
                (
                  refl,
                  refl,
                  (
                    refl,
                    refl,
                    (
                      refl,
                      refl,
                      (
                        refl,
                        refl,
                        (
                          refl,
                          refl,
                          (
                            refl,
                            refl,
                            (
                              refl,
                              refl,
                              (
                                refl,
                                refl,
                                (
                                  refl,
                                  refl,
                                  (
                                    refl,
                                    refl,
                                    (
                                      refl,
                                      refl,
                                      (
                                        refl,
                                        refl,
                                        (
                                          refl,
                                          refl,
                                          (
                                            refl,
                                            refl,
                                            (
                                              refl,
                                              refl,
                                              (
                                                refl,
                                                refl,
                                                (
                                                  refl,
                                                  refl,
                                                  (
                                                    refl,
                                                    refl,
                                                    (
                                                      refl,
                                                      refl,
                                                      (refl, refl, (refl, refl, (refl, refl, tt))),
                                                    ),
                                                  ),
                                                ),
                                              ),
                                            ),
                                          ),
                                        ),
                                      ),
                                    ),
                                  ),
                                ),
                              ),
                            ),
                          ),
                        ),
                      ),
                    ),
                  ),
                ),
              ),
            ),
          ),
          tt,
        ),
        (
          refl,
          tt,
          (
            refl,
            tt,
            (
              refl,
              tt,
              (
                refl,
                (
                  (
                    refl,
                    refl,
                    (
                      refl,
                      refl,
                      (
                        refl,
                        refl,
                        (refl, refl, (refl, refl, (refl, refl, (refl, refl, (refl, refl, tt))))),
                      ),
                    ),
                  ),
                  tt,
                ),
                (refl, tt, (refl, tt, tt)),
              ),
            ),
          ),
        ),
      ),
    ),
  ),
)

-- A time is written in ones; JSON is read as one of two tables.
abbrev outer : Dict (List Fields) → Outer
outer db = record {
  isoformat = λ t. replicate t b'1';
  parse_naive_utc = λ s. some (length s - 1);
  dumps = λ d. [];
  loads = λ s. some db;
  coerced = λ k v. none;
  accepts = λ d. true;
}

abbrev checks : Checks
checks = record { metadata_loads = λ s. true; writes_key = λ k. true }

abbrev system : Dict (List Fields) → System
system db = record {
  tables = db;
  sequences = (codes "label_mappings", 1) ∷ [];
  key = some (codes "key");
}

-- The mirrors are empty, so the sequence of the labels stays.
labels_restored :
    let o = outer (export_table_data (outer []) labels_only) in
    restore_backup o checks 0
      record {
        filename = codes "b.tar.gz";
        members = some (create_backup o checks [] [] (system labels_only));
      }
      (system [])
    ≡ (internal_error, system labels_only)
unfolding restore_backup create_backup export_table_data safe_tar_extract validate_members extracted
    eq_text after_prefix lookup insert names_of
labels_restored = refl

length_ones : (n : ℕ) → length {A = ℕ} (replicate n b'1' ++ b'Z' ∷ []) ≡ n + 1
length_ones zero = refl
length_ones (suc n) = omega (arith, length_ones n)

outer-ReadsTimes : (db : Dict (List Fields)) → ReadsTimes (outer db)
outer-ReadsTimes db = record {
  back = λ n. rw (length_ones n) (ap (λ (k : ℕ). some k) (omega arith));
  no_coercion = λ s. refl;
}

abbrev reading : Outer
reading = outer (export_table_data (outer []) with_mirror)

restore_backup-create_backup_example :
    restore_backup reading checks 0
      record {
        filename = codes "b.tar.gz";
        members = some (create_backup reading checks [] [] (system with_mirror));
      }
      (system [])
    ≡ (failed_import, system [])
unfolding export_table_data ends_with has_unparsed_time eq_text
restore_backup-create_backup_example =
    restore_backup-create_backup reading checks 0 (codes "b.tar.gz") [] [] (system with_mirror)
      (system []) (outer-ReadsTimes _) refl refl refl refl with_mirror-IsDatabase refl

abbrev label_tables : Text
label_tables = codes "label_mappings"

reset_sequences_lem_example :
    let rows = rows_of_table label_tables with_mirror in
    (lookup label_tables
        (reset_sequences (codes "mirrors" ∷ label_tables ∷ codes "users" ∷ []) with_mirror [])
      ≡ some 7)
    × All (λ r. row_id r ≤ max_id rows) rows
unfolding eq_text lookup max_id
reset_sequences_lem_example =
    reset_sequences_lem (codes "mirrors" ∷ []) (codes "users" ∷ []) label_tables with_mirror [] refl
      refl
