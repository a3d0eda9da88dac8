-- ===== src/Backup/Import.antt =====
-- app/api/backup.py: `_import_table_data`, on PostgreSQL. Nothing is commit_import before the end, so an
-- import that fails at any row changes no table.
use mirror_maestro.Common.{
  ℕ, Bool, true, ◌&&◌, Option, none, some, List, [], ◌∷◌, any, ltb, ◌==◌, if◌then◌else◌,
}
use mirror_maestro.Text.{Text, codes, eq_text, is_empty, Dict, lookup, insert}
use mirror_maestro.Backup.{
  Value, null, integer, boolean, string, time, document, Kind, integers, booleans, strings, times,
  documents, Presence, optional, required, default, Column, Fields, Outer,
}
use mirror_maestro.Backup.Schema.{TableSpec, users, other_tables}

-- The first of two results that may fail, then the second.
abbrev pub combined : {A B C : Type 0} → (A → B → C) → Option A → Option B → Option C
combined f (some a) (some b) = some (f a b)
combined f _ _ = none

abbrev pub is_named : Text → Text → Bool
is_named n m = eq_text m n

abbrev pub has_column : List Column → Text → Bool
has_column cs k = any (λ c. eq_text (Column.name c) k) cs

unfoldable pub all_known : List Column → Fields → Bool
unfolding eq_text
all_known cs [] = true
all_known cs ((k, v) ∷ r) = has_column cs k && all_known cs r

abbrev pub rows_or_none : Option (List Fields) → List Fields
rows_or_none none = []
rows_or_none (some rows) = rows

module _ (o : Outer) where
  -- A time is parsed if it is a text that is not empty.
  abbrev pub parse_value : Value → Option Value
  parse_value (string s) =
      if is_empty s
      then some (string s)
      else elim (o.parse_naive_utc s) [ none ↦ none | some t ↦ some (time t) ]
  parse_value v = some v

  abbrev pub parse_field : List Text → Text → Value → Option Value
  parse_field fields k v = if any (is_named k) fields then parse_value v else some v

  unfoldable pub parse_fields : List Text → Fields → Option Fields
  unfolding eq_text
  parse_fields fields [] = some []
  parse_fields fields ((k, v) ∷ r) =
      combined (λ (x : Value) (rest : Fields). (k, x) ∷ rest) (parse_field fields k v)
        (parse_fields fields r)

  -- What the column stores of a value that is not null.
  abbrev pub stored : Kind → Value → Option Value
  stored integers (integer n) = some (integer n)
  stored booleans (boolean b) = some (boolean b)
  stored strings (string s) = some (string s)
  stored times (time t) = some (time t)
  stored documents (document d) = some (document d)
  stored k v = o.coerced k v

  abbrev pub defaulted : Presence → ℕ → Option Value
  defaulted optional now = some null
  defaulted required now = none
  defaulted (default d) now = some (d now)

  -- A value that is null or missing gives way to the default.
  abbrev pub column_value : Column → ℕ → Option Value → Option Value
  column_value c now none = defaulted c.presence now
  column_value c now (some null) = defaulted c.presence now
  column_value c now (some v) = stored c.kind v

  unfoldable pub column_values : ℕ → List Column → Fields → Option Fields
  unfolding lookup
  column_values now [] r = some []
  column_values now (c ∷ cs) r =
      combined (λ (x : Value) (rest : Fields). (c.name, x) ∷ rest)
        (column_value c now (lookup c.name r)) (column_values now cs r)

  -- `Model(**row)` refuses a name that is no column.
  abbrev pub insert_row : ℕ → List Column → Fields → Option Fields
  insert_row now cs r = if all_known cs r then column_values now cs r else none

  abbrev pub import_parsed : ℕ → TableSpec → Option Fields → Option Fields
  import_parsed now t none = none
  import_parsed now t (some r) = insert_row now t.columns r

  unfoldable pub import_rows : ℕ → TableSpec → List Fields → Option (List Fields)
  unfolding parse_fields column_values all_known
  import_rows now t [] = some []
  import_rows now t (r ∷ rs) =
      combined (λ (x : Fields) (rest : List Fields). x ∷ rest)
        (import_parsed now t (parse_fields t.time_fields r)) (import_rows now t rs)

  -- `data.get(table, [])`
  abbrev pub rows_in : Dict (List Fields) → TableSpec → List Fields
  rows_in given t = rows_or_none (lookup t.table given)

  unfoldable pub import_tables :
      ℕ → List TableSpec → Dict (List Fields) → Option (Dict (List Fields))
  unfolding import_rows
  import_tables now [] given = some []
  import_tables now (t ∷ ts) given =
      combined (λ (rows : List Fields) (rest : Dict (List Fields)). (t.table, rows) ∷ rest)
        (import_rows now t (rows_in given t)) (import_tables now ts given)

  abbrev pub users_from :
      ℕ → TableSpec → Dict (List Fields) → Option (List Fields) → Option (List Fields)
  users_from now u db none = some (rows_in db u)
  users_from now u db (some rows) = import_rows now u rows

  -- A backup without users leaves them as they are.
  abbrev pub import_users :
      ℕ → TableSpec → Dict (List Fields) → Dict (List Fields) → Option (List Fields)
  import_users now u given db = users_from now u db (lookup u.table given)

  abbrev pub commit_import : Option (Dict (List Fields)) → Option (Dict (List Fields))
  commit_import none = none
  commit_import (some db) = if o.accepts db then some db else none

  unfoldable pub import_all :
      ℕ
      → TableSpec
      → List TableSpec
      → Dict (List Fields)
      → Dict (List Fields)
      → Option (Dict (List Fields))
  unfolding import_tables
  import_all now u ts given db = commit_import (
      combined (λ (rows : List Fields) (rest : Dict (List Fields)). (u.table, rows) ∷ rest)
        (import_users now u given db) (import_tables now ts given))

  unfoldable pub import_table_data :
      ℕ → Dict (List Fields) → Dict (List Fields) → Option (Dict (List Fields))
  unfolding import_all
  import_table_data now given db = import_all now users other_tables given db

abbrev pub row_id : Fields → ℕ
row_id r = elim (lookup (codes "id") r) [ some (integer n) ↦ n | _ ↦ 0 ]

unfoldable pub max_id : List Fields → ℕ
unfolding lookup
max_id [] = 0
max_id (r ∷ rs) = let rest = max_id rs in if ltb rest (row_id r) then row_id r else rest

abbrev pub rows_of_table : Text → Dict (List Fields) → List Fields
rows_of_table t db = rows_or_none (lookup t db)

-- The reset of the sequences. PostgreSQL refuses to set one to zero, which ends the loop; what was
-- set before stays set.
unfoldable pub reset_sequences : List Text → Dict (List Fields) → Dict ℕ → Dict ℕ
unfolding max_id insert
reset_sequences [] db seqs = seqs
reset_sequences (t ∷ ts) db seqs =
    let rows = rows_of_table t db in
    let rest = reset_sequences ts db (insert t (max_id rows) seqs) in
    if max_id rows == 0 then seqs else rest

unfoldable pub names_of : List TableSpec → List Text
names_of [] = []
names_of (t ∷ ts) = t.table ∷ names_of ts
