-- ===== src/Backup/Rows.antt =====
-- app/api/backup.py: what the import makes of the export of one row.
use mathlib.Core.Path.{subst}
use mirror_maestro.Common.{
  ℕ, Bool, true, false, not, ◌&&◌, ◌||◌, Option, some, List, [], ◌∷◌, ◌++◌, any, All, ◌≡◌, refl,
  sym, ap, inl, inr, Bool-cases, if◌then◌else◌,
}
use mirror_maestro.Text.{Text, codes, eq_text, is_empty}
use mirror_maestro.Backup.{
  Value, null, integer, boolean, string, time, document, Kind, integers, booleans, strings, times,
  documents, Presence, optional, Column, Fields, Outer, serialized, model_to_dict,
}
use mirror_maestro.Backup.Schema.{TableSpec}
use mirror_maestro.Backup.Import.{combined, is_named, parse_value, parse_fields}

-- A value that a column may hold.
abbrev pub has_kind : Kind → Value → Bool
has_kind integers (integer n) = true
has_kind booleans (boolean b) = true
has_kind strings (string s) = true
has_kind times (time t) = true
has_kind documents (document d) = true
has_kind k v = false

abbrev pub is_optional : Presence → Bool
is_optional optional = true
is_optional _ = false

abbrev pub is_stored : Column → Value → Bool
is_stored c null = is_optional c.presence
is_stored c v = has_kind c.kind v

-- A row of a table: a value for each column, in their order.
abbrev pub IsRow : List Column → Fields → Type 0
IsRow [] [] = Unit
IsRow [] (e ∷ r) = ⊥
IsRow (c ∷ cs) [] = ⊥
IsRow (c ∷ cs) ((k, v) ∷ r) = (k ≡ c.name) × (is_stored c v ≡ true) × IsRow cs r

abbrev pub is_time : Value → Bool
is_time (time t) = true
is_time _ = false

-- A time in a field that the import does not parse.
unfoldable pub has_unparsed : List Text → Fields → Bool
unfolding eq_text
has_unparsed fields [] = false
has_unparsed fields ((k, v) ∷ r) =
    is_time v && not (any (is_named k) fields) || has_unparsed fields r

-- What a schema is to have: distinct names, and only times among the fields that are parsed.
abbrev pub is_times : Kind → Bool
is_times times = true
is_times _ = false

abbrev pub IsParsedRight : List Text → Column → Type 0
IsParsedRight fields c = not (any (is_named c.name) fields) || is_times c.kind ≡ true

abbrev pub NamesDistinct : List Column → Type 0
NamesDistinct [] = Unit
NamesDistinct (c ∷ cs) = All (λ d. eq_text c.name (Column.name d) ≡ false) cs × NamesDistinct cs

pub record IsSchema (t : TableSpec) : Type 0 where
  pub distinct : NamesDistinct t.columns
  pub parsed : All (IsParsedRight t.time_fields) t.columns

-- A time that no one parses stays the text of the export.
abbrev pub half_value : Outer → Bool → Value → Value
half_value o b v = if is_time v && not b then serialized o v else v

unfoldable pub half_row : Outer → List Text → Fields → Fields
unfolding eq_text
half_row o fields [] = []
half_row o fields ((k, v) ∷ r) = (k, half_value o (any (is_named k) fields) v) ∷ half_row o fields r

no_text : (k : Kind) (s : Text) → is_times k ≡ true → has_kind k (string s) ≡ true → ⊥
no_text integers s h e = let bad = h in cc
no_text booleans s h e = let bad = h in cc
no_text strings s h e = let bad = h in cc
no_text documents s h e = let bad = h in cc
no_text times s h e = let bad = e in cc

not_empty : (s : Text) (c : ℕ) → is_empty (s ++ c ∷ []) ≡ false
not_empty [] c = refl
not_empty (d ∷ s) c = refl

module _ (o : Outer)
    (times_back : (t : ℕ) → o.parse_naive_utc (o.isoformat t ++ codes "Z") ≡ some t) where
  parse-serialized :
      (b : Bool) (c : Column) (v : Value)
      → not b || is_times c.kind ≡ true
      → is_stored c v ≡ true
      → (if b then parse_value o (serialized o v) else some (serialized o v))
        ≡ some (half_value o b v)
  parse-serialized true c (time t) p e = rw (not_empty (o.isoformat t) b'Z', times_back t) refl
  parse-serialized false c (time t) p e = refl
  parse-serialized true c (string s) p e = absurd (no_text c.kind s p e)
  parse-serialized false c (string s) p e = refl
  parse-serialized true c null p e = refl
  parse-serialized false c null p e = refl
  parse-serialized true c (integer n) p e = refl
  parse-serialized false c (integer n) p e = refl
  parse-serialized true c (boolean x) p e = refl
  parse-serialized false c (boolean x) p e = refl
  parse-serialized true c (document d) p e = refl
  parse-serialized false c (document d) p e = refl

  pub combined-some :
      {A B C : Type 0} (f : A → B → C) (x : Option A) (y : Option B) (a : A) (b : B)
      → x ≡ some a
      → y ≡ some b
      → combined f x y ≡ some (f a b)
  combined-some f x y a b h k = rw (h, k) refl

  pub parse_fields-export :
      (fields : List Text) (cs : List Column) (r : Fields)
      → IsRow cs r
      → All (IsParsedRight fields) cs
      → parse_fields o fields (model_to_dict o r) ≡ some (half_row o fields r)
  unfolding parse_fields model_to_dict half_row
  parse_fields-export fields [] [] i p = refl
  parse_fields-export fields [] (e ∷ r) i p = absurd i
  parse_fields-export fields (c ∷ cs) [] i p = absurd i
  parse_fields-export fields (c ∷ cs) ((k, v) ∷ r) (n, s, i) (p, ps) =
      combined-some (λ (x : Value) (rest : Fields). (k, x) ∷ rest) _ _ _ _
        (parse-serialized (any (is_named k) fields) c v
          (subst (λ x. not (any (is_named x) fields) || is_times c.kind ≡ true) (sym n) p) s)
        (parse_fields-export fields cs r i ps)

  pub half_row_same :
      (fields : List Text) (r : Fields) → has_unparsed fields r ≡ false → half_row o fields r ≡ r
  unfolding half_row has_unparsed
  half_row_same fields [] h = refl
  half_row_same fields ((k, v) ∷ r) h =
      elim (Bool-cases (is_time v && not (any (is_named k) fields))) [
        | inl e ↦ absurd (let bad : true ≡ false = (rw e at h) in cc)
        | inr e ↦ rw e (ap (λ x. (k, v) ∷ x) (half_row_same fields r (rw e at h)))
      ]
