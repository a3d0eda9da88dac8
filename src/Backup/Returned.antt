-- ===== src/Backup/Returned.antt =====
-- app/api/backup.py: `restore_backup` of what `create_backup` gives.
use mirror_maestro.Common.{
  is_some, ℕ, Bool, true, false, ◌||◌, Option, none, some, List, [], ◌∷◌, any, map, ◌≡◌, refl, sym,
  ◌∙◌, ap, if◌then◌else◌,
}
use mathlib.Core.Path.{subst}
use mirror_maestro.Text.{Text, codes, eq_text, after_prefix, Dict, lookup}
use mirror_maestro.Http.{Reply, reply, refuse, internal_error}
use mirror_maestro.Backup.{Fields, Outer, model_to_dict, export_table_data}
use mirror_maestro.Backup.Schema.{TableSpec, users, other_tables, tables}
use mirror_maestro.Backup.Import.{import_table_data, reset_sequences, names_of}
use mirror_maestro.Backup.Archive.{
  Member, extracted, safe_tar_extract, validate_members, validate_backup_archive, member_content,
  bad_request,
}
use mirror_maestro.Backup.Restore.{
  System, Upload, Checks, ends_with, key_content, create_backup, restore_tables, has_table,
  has_required, restore_given, restore_extracted, restore_valid, restore_backup,
}
use mirror_maestro.Backup.Checked.{tables-AreSchemas}
use mirror_maestro.Backup.RoundTrip.{
  IsDatabase, has_unparsed_time, TablesDistinct, ReadsTimes, import_all-export,
}

tables-TablesDistinct : TablesDistinct tables
unfolding eq_text
tables-TablesDistinct = (
  (refl, (refl, (refl, (refl, (refl, (refl, (refl, (refl, (refl, tt))))))))),
  (
    (refl, (refl, (refl, (refl, (refl, (refl, (refl, (refl, tt)))))))),
    (
      (refl, (refl, (refl, (refl, (refl, (refl, (refl, tt))))))),
      (
        (refl, (refl, (refl, (refl, (refl, (refl, tt)))))),
        (
          (refl, (refl, (refl, (refl, (refl, tt))))),
          (
            (refl, (refl, (refl, (refl, tt)))),
            ((refl, (refl, (refl, tt))), ((refl, (refl, tt)), ((refl, tt), (tt, tt)))),
          ),
        ),
      ),
    ),
  ),
)

there_or :
    {A : Type 0} (b : Bool) (a : A) (rest : Option A)
    → is_some (if b then some a else rest) ≡ b || is_some rest
there_or true a rest = refl
there_or false a rest = refl

has_table-export :
    (o : Outer) (checks : Checks) (name : Text) (ts : List TableSpec) (db : Dict (List Fields))
    → IsDatabase ts db
    → has_table o checks name (export_table_data o db)
      ≡ any (λ t. eq_text (TableSpec.table t) name) ts
unfolding export_table_data lookup
has_table-export o checks name [] [] i = refl
has_table-export o checks name [] (e ∷ db) i = absurd i
has_table-export o checks name (t ∷ ts) [] i = absurd i
has_table-export o checks name (t ∷ ts) ((k, rows) ∷ db) (n, is, i) =
    subst
      (λ k.
        has_table o checks name ((k, map (model_to_dict o) rows) ∷ export_table_data o db)
        ≡ any (λ t. eq_text (TableSpec.table t) name) (t ∷ ts))
      (sym n)
      (there_or (eq_text t.table name) (map (model_to_dict o) rows)
          (lookup name (export_table_data o db))
        ∙ ap (λ b. eq_text t.table name || b) (has_table-export o checks name ts db i))

module _ (o : Outer) (checks : Checks) (placeholder metadata : Text) (s : System) where
  abbrev archive : List Member
  archive = create_backup o checks placeholder metadata s

  archive-safe : safe_tar_extract archive ≡ true
  unfolding create_backup safe_tar_extract eq_text after_prefix
  archive-safe = refl

  archive_database :
      extracted (codes "database.json") archive ≡ some (o.dumps (export_table_data o s.tables))
  unfolding create_backup extracted eq_text
  archive_database = refl

  archive_key :
      extracted (codes "encryption.key") archive ≡ some (key_content o checks placeholder s.key)
  unfolding create_backup extracted eq_text
  archive_key = refl

  archive_valid :
      checks.metadata_loads metadata ≡ true
      → validate_backup_archive checks.metadata_loads (some archive) ≡ reply tt
  unfolding create_backup validate_members member_content eq_text
  archive_valid h = rw h refl

  export_required :
      IsDatabase tables s.tables → has_required o checks (export_table_data o s.tables) ≡ true
  unfolding eq_text
  export_required i =
      rw
        (
          has_table-export o checks (codes "gitlab_instances") tables s.tables i,
          has_table-export o checks (codes "instance_pairs") tables s.tables i,
          has_table-export o checks (codes "mirrors") tables s.tables i,
        )
        refl

abbrev pub failed_import : Reply (Unit {0})
failed_import =
    refuse 500
      (codes "Failed to restore database. Please check the backup file integrity and try again.")

restored_if :
    (o : Outer) (checks : Checks) (k : Text) (s' : System) (b : Bool) (db : Dict (List Fields))
    → checks.writes_key k ≡ true
    → restore_tables o checks (some k) s' (if b then none else some db) ≡ (
        if b then (failed_import, s') else (
          internal_error,
          record {
            tables = db;
            sequences = reset_sequences (names_of tables) db s'.sequences;
            key = some k;
          },
        ))
restored_if o checks k s' true db a = refl
restored_if o checks k s' false db a = rw a refl

-- A backup of a system whose tables have rows of their columns, restored on any system: if a row has
-- a time in a field that the import does not parse, the restore answers with status 500 and changes
-- nothing; else the tables and the key are those of the backup and the sequences are set again, and
-- still the restore answers with status 500. This holds if the file has the right extension, the
-- JSON of the export and times are read back, the driver takes no text for a time, the metadata is
-- JSON, the key file is written and the database accepts the tables.
pub restore_backup-create_backup :
    (o : Outer) (checks : Checks) (now : ℕ) (filename placeholder metadata : Text) (s s' : System)
    → ReadsTimes o
    → o.loads (o.dumps (export_table_data o s.tables)) ≡ some (export_table_data o s.tables)
    → ends_with filename (codes ".tar.gz") ≡ true
    → checks.metadata_loads metadata ≡ true
    → checks.writes_key (key_content o checks placeholder s.key) ≡ true
    → IsDatabase tables s.tables
    → o.accepts s.tables ≡ true
    → restore_backup o checks now
        record {
          filename = filename;
          members = some (create_backup o checks placeholder metadata s);
        }
        s'
      ≡ (if has_unparsed_time tables s.tables then (failed_import, s') else (
        internal_error,
        record {
          tables = s.tables;
          sequences = reset_sequences (names_of tables) s.tables s'.sequences;
          key = some (key_content o checks placeholder s.key);
        },
      ))
unfolding restore_backup
restore_backup-create_backup o checks now filename placeholder metadata s s' reads back ext meta key
      i a =
    let ms = archive o checks placeholder metadata s in
    let k = key_content o checks placeholder s.key in
    let u : Upload = record { filename = filename; members = some ms } in
    let imported : import_table_data o now (export_table_data o s.tables) s'.tables
        ≡ (if has_unparsed_time tables s.tables then none else some s.tables) =
      import_all-export o now reads users other_tables s.tables s'.tables tables-AreSchemas
        tables-TablesDistinct i a in
    let exported = export_table_data o s.tables in
    let extension = codes "Invalid file type. Please upload a .tar.gz backup file." in
    let security = codes "Invalid backup archive: security validation failed." in
    let missing = codes "Invalid backup. Missing tables" in
    ap
      (λ b.
        if b
        then restore_valid o checks now u s'
            (validate_backup_archive checks.metadata_loads (some ms))
        else (bad_request extension, s'))
      ext
    ∙ ap (restore_valid o checks now u s') (archive_valid o checks placeholder metadata s meta)
    ∙ ap
        (λ b.
          if b
          then restore_extracted o checks now ms s' (extracted (codes "database.json") ms)
          else (bad_request security, s'))
        (archive-safe o checks placeholder metadata s)
    ∙ ap (restore_extracted o checks now ms s') (archive_database o checks placeholder metadata s)
    ∙ ap (λ x. restore_given o checks now x s' (o.loads (o.dumps exported)))
        (archive_key o checks placeholder metadata s)
    ∙ ap (restore_given o checks now (some k) s') back
    ∙ ap
        (λ b.
          if b
          then restore_tables o checks (some k) s' (import_table_data o now exported s'.tables)
          else (bad_request missing, s'))
        (export_required o checks placeholder metadata s i)
    ∙ ap (restore_tables o checks (some k) s') imported
    ∙ restored_if o checks k s' (has_unparsed_time tables s.tables) s.tables key
