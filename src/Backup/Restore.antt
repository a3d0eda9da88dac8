-- ===== src/Backup/Restore.antt =====
-- app/api/backup.py: `create_backup` and `restore_backup`.
use mirror_maestro.Common.{
  is_some, ℕ, Bool, true, ◌&&◌, Option, none, some, List, [], ◌∷◌, if◌then◌else◌,
}
use mirror_maestro.Text.{Text, codes, eq_text, Dict, lookup}
use mirror_maestro.Http.{Reply, reply, refuse, internal_error}
use mirror_maestro.Backup.{Fields, Outer, export_table_data}
use mirror_maestro.Backup.Schema.{tables}
use mirror_maestro.Backup.Import.{import_table_data, reset_sequences, names_of}
use mirror_maestro.Backup.Archive.{
  Member, file, extracted, safe_tar_extract, validate_backup_archive, bad_request,
}

-- What a restore changes: the tables, their sequences and the key file.
pub record System : Type 0 where
  pub tables : Dict (List Fields)
  pub sequences : Dict ℕ
  pub key : Option Text

-- An uploaded file; `members` is none if `tarfile` does not open it.
pub record Upload : Type 0 where
  pub filename : Text
  pub members : Option (List Member)

-- Whether a text is JSON, and whether `mkdir` and `copy2` succeed for a key.
pub record Checks : Type 0 where
  pub metadata_loads : Text → Bool
  pub writes_key : Text → Bool

unfoldable pub ends_with : Text → Text → Bool
unfolding eq_text
ends_with [] p = eq_text [] p
ends_with (c ∷ s) p = let later = ends_with s p in if eq_text (c ∷ s) p then true else later

module _ (o : Outer) (checks : Checks) where
  -- The key of the archive; where there is none, as in tests, another text stands for it.
  abbrev pub key_content : Text → Option Text → Text
  key_content placeholder none = placeholder
  key_content placeholder (some k) = k

  -- `create_backup`: the members of the archive.
  unfoldable pub create_backup : Text → Text → System → List Member
  unfolding export_table_data
  create_backup placeholder metadata s =
      record {
        name = codes "database.json";
        kind = file;
        content = o.dumps (export_table_data o s.tables);
      }
      ∷ record {
        name = codes "encryption.key";
        kind = file;
        content = key_content placeholder s.key;
      }
      ∷ record { name = codes "backup_metadata.json"; kind = file; content = metadata }
      ∷ []

  -- The last step. The class Encryption has no method `_initialize`, so the call after the copy
  -- raises: the request ends in an error, the key is written if the copy succeeds.
  abbrev pub restore_key : Option Text → System → Reply (Unit {0}) × System
  restore_key none s = (reply tt, s)
  restore_key (some k) s =
      (internal_error, if checks.writes_key k then record s { key = some k } else s)

  abbrev pub restore_tables :
      Option Text → System → Option (Dict (List Fields)) → Reply (Unit {0}) × System
  restore_tables key s none = (
    refuse 500
        (codes "Failed to restore database. Please check the backup file integrity and try again."),
    s,
  )
  restore_tables key s (some db) =
      restore_key key
        record s { tables = db; sequences = reset_sequences (names_of tables) db s.sequences }

  abbrev pub has_table : Text → Dict (List Fields) → Bool
  has_table t d = is_some (lookup t d)

  abbrev pub has_required : Dict (List Fields) → Bool
  has_required d =
      has_table (codes "gitlab_instances") d
      && (has_table (codes "instance_pairs") d && has_table (codes "mirrors") d)

  -- The detail names the tables; here it is the same for all.
  abbrev pub restore_given :
      ℕ → Option Text → System → Option (Dict (List Fields)) → Reply (Unit {0}) × System
  restore_given now key s none =
      (bad_request (codes "Invalid or corrupt database backup: JSON parsing failed."), s)
  restore_given now key s (some d) =
      if has_required d
      then restore_tables key s (import_table_data o now d s.tables)
      else (bad_request (codes "Invalid backup. Missing tables"), s)

  abbrev pub restore_extracted : ℕ → List Member → System → Option Text → Reply (Unit {0}) × System
  restore_extracted now ms s none = (internal_error, s)
  restore_extracted now ms s (some database) =
      restore_given now (extracted (codes "encryption.key") ms) s (o.loads database)

  abbrev pub restore_members : ℕ → Option (List Member) → System → Reply (Unit {0}) × System
  restore_members now none s = (internal_error, s)
  restore_members now (some ms) s =
      if safe_tar_extract ms
      then restore_extracted now ms s (extracted (codes "database.json") ms)
      else (bad_request (codes "Invalid backup archive: security validation failed."), s)

  abbrev pub restore_valid : ℕ → Upload → System → Reply (Unit {0}) → Reply (Unit {0}) × System
  restore_valid now u s (refuse status detail) = (refuse status detail, s)
  restore_valid now u s (reply _) = restore_members now u.members s

  -- `restore_backup`. The backup that it may write before is beside its state.
  unfoldable pub restore_backup : ℕ → Upload → System → Reply (Unit {0}) × System
  unfolding ends_with reset_sequences import_table_data
  restore_backup now u s =
      if ends_with u.filename (codes ".tar.gz")
      then restore_valid now u s (validate_backup_archive checks.metadata_loads u.members)
      else (bad_request (codes "Invalid file type. Please upload a .tar.gz backup file."), s)
