-- ===== src/Backup/RoundTrip.antt =====
-- app/api/backup.py: a backup that is restored gives the tables back.
use mathlib.Core.Path.{subst}
use mirror_maestro.Common.{
  or_false, All-both, ℕ, Bool, true, false, ◌||◌, Option, none, some, List, [], ◌∷◌, ◌++◌, any, map,
  All, ◌≡◌, refl, sym, ◌∙◌, ap, inl, inr, Bool-cases, append_assoc, if◌then◌else◌,
}
use mirror_maestro.Text.{Text, codes, eq_text, Dict, lookup}
use mirror_maestro.Backup.{string, times, Fields, Outer, model_to_dict, export_table_data}
use mirror_maestro.Backup.Schema.{TableSpec}
use mirror_maestro.Backup.Import.{
  combined, rows_or_none, users_from, import_rows, rows_in, import_tables, import_users,
  commit_import, import_all,
}
use mirror_maestro.Backup.Rows.{IsRow, has_unparsed, IsSchema, combined-some}
use mirror_maestro.Backup.Columns.{lookup-after, lookup-lacks}
use mirror_maestro.Backup.Stored.{combined-none, import_parsed-export, import_parsed-unparsed}

-- The tables of a database, each with rows of its columns.
abbrev pub IsDatabase : List TableSpec → Dict (List Fields) → Type 0
IsDatabase [] [] = Unit
IsDatabase [] (e ∷ db) = ⊥
IsDatabase (t ∷ ts) [] = ⊥
IsDatabase (t ∷ ts) ((k, rows) ∷ db) = (k ≡ t.table) × All (IsRow t.columns) rows × IsDatabase ts db

-- Whether a row has a time in a field that the import does not parse.
unfoldable pub has_unparsed_time : List TableSpec → Dict (List Fields) → Bool
unfolding has_unparsed
has_unparsed_time (t ∷ ts) ((k, rows) ∷ db) =
    any (has_unparsed t.time_fields) rows || has_unparsed_time ts db
has_unparsed_time _ _ = false

abbrev pub TablesDistinct : List TableSpec → Type 0
TablesDistinct [] = Unit
TablesDistinct (t ∷ ts) =
    All (λ u. eq_text t.table (TableSpec.table u) ≡ false) ts × TablesDistinct ts

-- Reading back what the driver was given, and no text for a time.
pub record ReadsTimes (o : Outer) : Type 0 where
  pub back : (n : ℕ) → o.parse_naive_utc (o.isoformat n ++ codes "Z") ≡ some n
  pub no_coercion : (s : Text) → o.coerced times (string s) ≡ none

module _ (o : Outer) (now : ℕ) (reads : ReadsTimes o) where
  import_rows-export :
      (t : TableSpec) (rows : List Fields)
      → IsSchema t
      → All (IsRow t.columns) rows
      → any (has_unparsed t.time_fields) rows ≡ false
      → import_rows o now t (map (model_to_dict o) rows) ≡ some rows
  unfolding import_rows
  import_rows-export t [] s i h = refl
  import_rows-export t (r ∷ rs) s (i, is) h =
      let (here, later) =
        or_false (has_unparsed t.time_fields r) (any (has_unparsed t.time_fields) rs) h in
      combined-some o reads.back _ _ _ r rs (import_parsed-export o now t r reads.back s i here)
        (import_rows-export t rs s is later)

  import_rows-unparsed :
      (t : TableSpec) (rows : List Fields)
      → IsSchema t
      → All (IsRow t.columns) rows
      → any (has_unparsed t.time_fields) rows ≡ true
      → import_rows o now t (map (model_to_dict o) rows) ≡ none
  unfolding import_rows
  import_rows-unparsed t [] s i h = absurd (let bad = h in cc)
  import_rows-unparsed t (r ∷ rs) s (i, is) h = elim (Bool-cases (has_unparsed t.time_fields r)) [
    | inl e ↦ rw (import_parsed-unparsed o now t r reads.back reads.no_coercion s i e) refl
    | inr e ↦ combined-none _ _ _ (import_rows-unparsed t rs s is (rw e at h))
  ]

  import_rows_lem :
      (t : TableSpec) (rows : List Fields)
      → IsSchema t
      → All (IsRow t.columns) rows
      → import_rows o now t (map (model_to_dict o) rows)
        ≡ (if any (has_unparsed t.time_fields) rows then none else some rows)
  import_rows_lem t rows s i = elim (Bool-cases (any (has_unparsed t.time_fields) rows)) [
    | inl e ↦ rw e (import_rows-unparsed t rows s i e)
    | inr e ↦ rw e (import_rows-export t rows s i e)
  ]

  combined_if :
      {A B C : Type 0} (f : A → B → C) (a b : Bool) (x : A) (y : B)
      → combined f (if a then none else some x) (if b then none else some y)
        ≡ (if a || b then none else some (f x y))
  combined_if f true true x y = refl
  combined_if f true false x y = refl
  combined_if f false true x y = refl
  combined_if f false false x y = refl

  no_tables :
      (ts : List TableSpec) → All (λ t. lookup {V = List Fields} (TableSpec.table t) [] ≡ none) ts
  unfolding lookup
  no_tables [] = tt
  no_tables (t ∷ ts) = (refl, no_tables ts)

  import_tables_lem :
      (ts : List TableSpec) (db pre : Dict (List Fields))
      → All IsSchema ts
      → IsDatabase ts db
      → TablesDistinct ts
      → All (λ t. lookup (TableSpec.table t) pre ≡ none) ts
      → import_tables o now ts (pre ++ export_table_data o db)
        ≡ (if has_unparsed_time ts db then none else some db)
  unfolding import_tables export_table_data has_unparsed_time
  import_tables_lem [] [] pre s i d l = refl
  import_tables_lem [] (e ∷ db) pre s i d l = absurd i
  import_tables_lem (t ∷ ts) [] pre s i d l = absurd i
  import_tables_lem (t ∷ ts) ((k, rows) ∷ db) pre (s, ss) (n, is, i) (d, ds) (l, ls) =
      let exported = map (model_to_dict o) rows in
      let rest = export_table_data o db in
      let given = pre ++ (t.table, exported) ∷ rest in
      let found : lookup t.table given ≡ some exported = lookup-after t.table exported pre rest l in
      let later : import_tables o now ts given
          ≡ (if has_unparsed_time ts db then none else some db) =
        subst (λ x. import_tables o now ts x ≡ (if has_unparsed_time ts db then none else some db))
          (append_assoc pre ((t.table, exported) ∷ []) rest)
          (import_tables_lem ts db (pre ++ (t.table, exported) ∷ []) ss i ds
            (All-both (λ u. lookup-lacks (TableSpec.table u) t.table exported pre) ts ls d)) in
      let f = λ (x : List Fields) (y : Dict (List Fields)). (t.table, x) ∷ y in
      let both : combined f (import_rows o now t (rows_in o given t)) (import_tables o now ts given)
          ≡ (if any (has_unparsed t.time_fields) rows || has_unparsed_time ts db
              then none
              else some ((t.table, rows) ∷ db)) =
        ap
          (λ (x : Option (List Fields)).
            combined f (import_rows o now t (rows_or_none x)) (import_tables o now ts given))
          found
        ∙ rw (import_rows_lem t rows s is, later)
            (combined_if f (any (has_unparsed t.time_fields) rows) (has_unparsed_time ts db) rows
              db) in
      subst
        (λ k. import_tables o now (t ∷ ts) (pre ++ (k, exported) ∷ rest) ≡ (
          if any (has_unparsed t.time_fields) rows || has_unparsed_time ts db
          then none
          else some ((k, rows) ∷ db)))
        (sym n) both

  commit_if :
      (b : Bool) (db : Dict (List Fields))
      → o.accepts db ≡ true
      → commit_import o (if b then none else some db) ≡ (if b then none else some db)
  commit_if true db a = refl
  commit_if false db a = rw a refl

  pub import_all-export :
      (u : TableSpec) (ts : List TableSpec) (db current : Dict (List Fields))
      → All IsSchema (u ∷ ts)
      → TablesDistinct (u ∷ ts)
      → IsDatabase (u ∷ ts) db
      → o.accepts db ≡ true
      → import_all o now u ts (export_table_data o db) current
        ≡ (if has_unparsed_time (u ∷ ts) db then none else some db)
  unfolding import_all export_table_data has_unparsed_time
  import_all-export u ts [] current s d i a = absurd i
  import_all-export u ts ((k, rows) ∷ db) current (s, ss) (d, ds) (n, is, i) a =
      let exported = map (model_to_dict o) rows in
      let given = (u.table, exported) ∷ export_table_data o db in
      let found : lookup u.table given ≡ some exported = lookup-after u.table exported [] _ refl in
      let later = import_tables_lem ts db ((u.table, exported) ∷ []) ss i ds (
        All-both (λ t. lookup-lacks (TableSpec.table t) u.table exported []) ts (no_tables ts) d) in
      let f = λ (x : List Fields) (y : Dict (List Fields)). (u.table, x) ∷ y in
      let b = any (has_unparsed u.time_fields) rows || has_unparsed_time ts db in
      let both : combined f (import_users o now u given current) (import_tables o now ts given)
          ≡ (if b then none else some ((u.table, rows) ∷ db)) =
        ap
          (λ (x : Option (List Fields)).
            combined f (users_from o now u current x) (import_tables o now ts given))
          found
        ∙ rw (import_rows_lem u rows s is, later)
            (combined_if f (any (has_unparsed u.time_fields) rows) (has_unparsed_time ts db) rows
              db) in
      subst
        (λ k.
          o.accepts ((k, rows) ∷ db) ≡ true
          → import_all o now u ts ((k, exported) ∷ export_table_data o db) current
            ≡ (if b then none else some ((k, rows) ∷ db)))
        (sym n) (λ a. ap (commit_import o) both ∙ commit_if b ((u.table, rows) ∷ db) a) a
