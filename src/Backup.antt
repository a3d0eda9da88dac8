-- ===== src/Backup.antt =====
-- app/api/backup.py: the values of a table's rows, and what an export makes of them.
pub mod Schema
pub mod Import
pub mod Archive
pub mod Restore
pub mod Rows
pub mod Columns
pub mod Stored
pub mod Checked
pub mod RoundTrip
pub mod Returned
pub mod Sequences
mod Tests
use mirror_maestro.Common.{ℕ, Bool, true, false, Option, none, some, List, [], ◌∷◌, ◌++◌, map}
use mirror_maestro.Text.{Text, codes, Dict}

-- A column's value, or one of a JSON text, where no time occurs. A document is the value of a
-- column of type JSON.
pub data Value : Type 0 where
  null : Value
  integer time : ℕ → Value
  boolean : Bool → Value
  string document : Text → Value

pub data Kind : Type 0 where
  integers booleans strings times documents : Kind

-- Whether a column may be null, or has a default, which a time gives.
pub data Presence : Type 0 where
  optional required : Presence
  default : (ℕ → Value) → Presence

-- A column of a model.
pub record Column : Type 0 where
  pub name : Text
  pub kind : Kind
  pub presence : Presence

abbrev pub Fields : Type 0
Fields = Dict Value

-- `datetime.isoformat`, `datetime.fromisoformat` without its time zone, `json.dumps` and
-- `json.loads`, what the driver makes of a value that is not of the column's type, and whether the
-- database accepts the tables at the commit.
pub record Outer : Type 0 where
  pub isoformat : ℕ → Text
  pub parse_naive_utc : Text → Option ℕ
  pub dumps : Dict (List Fields) → Text
  pub loads : Text → Option (Dict (List Fields))
  pub coerced : Kind → Value → Option Value
  pub accepts : Dict (List Fields) → Bool

module _ (o : Outer) where
  abbrev pub serialized : Value → Value
  serialized (time t) = string (o.isoformat t ++ codes "Z")
  serialized v = v

  -- `_model_to_dict`
  unfoldable pub model_to_dict : Fields → Fields
  model_to_dict [] = []
  model_to_dict ((k, v) ∷ r) = (k, serialized v) ∷ model_to_dict r

  -- `_export_table_data`; the tables stand in its order, and their rows by their id.
  unfoldable pub export_table_data : Dict (List Fields) → Dict (List Fields)
  unfolding model_to_dict
  export_table_data [] = []
  export_table_data ((t, rows) ∷ tables) = (t, map model_to_dict rows) ∷ export_table_data tables
