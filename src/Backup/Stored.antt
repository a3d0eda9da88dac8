-- ===== src/Backup/Stored.antt =====
-- app/api/backup.py: the import stores the rows of an export, unless one has a time that it does not
-- parse.
use mathlib.Core.Path.{subst}
use mirror_maestro.Common.{
  All-map, or_true_right, ℕ, Bool, true, false, not, ◌&&◌, Option, none, some, List, [], ◌∷◌, ◌++◌,
  any, All, ◌≡◌, refl, sym, ap, inl, inr, Bool-cases, append_assoc,
}
use mirror_maestro.Text.{Text, codes, eq_text, eq_text_self, lookup}
use mirror_maestro.Backup.{
  Value, null, integer, boolean, string, time, document, Kind, integers, booleans, strings, times,
  documents, Column, Fields, Outer, model_to_dict,
}
use mirror_maestro.Backup.Schema.{TableSpec}
use mirror_maestro.Backup.Import.{
  combined, is_named, has_column, parse_fields, stored, column_value, column_values, all_known,
  import_parsed,
}
use mirror_maestro.Backup.Rows.{
  has_kind, is_stored, IsRow, is_time, has_unparsed, NamesDistinct, IsSchema, half_value, half_row,
  parse_fields-export, half_row_same,
}
use mirror_maestro.Backup.Columns.{lookup-after, lacks-later, column_values_kept}

known_all :
    (all cs : List Column) (r : Fields)
    → IsRow cs r
    → All (λ c. has_column all (Column.name c) ≡ true) cs
    → all_known all r ≡ true
unfolding all_known
known_all all [] [] i k = refl
known_all all [] (e ∷ r) i k = absurd i
known_all all (c ∷ cs) [] i k = absurd i
known_all all (c ∷ cs) ((j, v) ∷ r) (n, s, i) (k, ks) =
    let here : has_column all j ≡ true = subst (λ x. has_column all x ≡ true) (sym n) k in
    rw here (known_all all cs r i ks)

known_self : (cs : List Column) → All (λ c. has_column cs (Column.name c) ≡ true) cs
known_self [] = tt
known_self (c ∷ cs) = (
  rw eq_text_self refl,
  All-map (λ d. or_true_right (eq_text c.name (Column.name d))) cs (known_self cs),
)

-- The rows of an export are rows of the same names.
half_row_known :
    (o : Outer) (fields : List Text) (all : List Column) (r : Fields)
    → all_known all (half_row o fields r) ≡ all_known all r
unfolding all_known half_row
half_row_known o fields all [] = refl
half_row_known o fields all ((k, v) ∷ r) =
    ap (λ b. has_column all k && b) (half_row_known o fields all r)

no_names : (cs : List Column) → All (λ c. lookup {V = Value} (Column.name c) [] ≡ none) cs
unfolding lookup
no_names [] = tt
no_names (c ∷ cs) = (refl, no_names cs)

pub combined-none :
    {A B C : Type 0} (f : A → B → C) (x : Option A) (y : Option B)
    → y ≡ none
    → combined f x y ≡ none
combined-none f none y h = refl
combined-none f (some a) y h = rw h refl

module _ (o : Outer) (now : ℕ) where
  module _ (no_coercion : (s : Text) → o.coerced times (string s) ≡ none) where
    text_for_time :
        (k : Kind) (t : ℕ) (s : Text) → has_kind k (time t) ≡ true → stored o k (string s) ≡ none
    text_for_time times t s h = no_coercion s
    text_for_time integers t s h = absurd (let bad = h in cc)
    text_for_time booleans t s h = absurd (let bad = h in cc)
    text_for_time strings t s h = absurd (let bad = h in cc)
    text_for_time documents t s h = absurd (let bad = h in cc)

    unparsed_fails :
        (b : Bool) (c : Column) (v : Value)
        → is_stored c v ≡ true
        → is_time v && not b ≡ true
        → column_value o c now (some (half_value o b v)) ≡ none
    unparsed_fails false c (time t) s h = text_for_time c.kind t (o.isoformat t ++ codes "Z") s
    unparsed_fails true c (time t) s h = absurd (let bad = h in cc)
    unparsed_fails b c null s h = absurd (let bad = h in cc)
    unparsed_fails b c (integer n) s h = absurd (let bad = h in cc)
    unparsed_fails b c (boolean n) s h = absurd (let bad = h in cc)
    unparsed_fails b c (string n) s h = absurd (let bad = h in cc)
    unparsed_fails b c (document n) s h = absurd (let bad = h in cc)

    column_values_fail :
        (fields : List Text) (cs : List Column) (r pre : Fields)
        → IsRow cs r
        → NamesDistinct cs
        → All (λ c. lookup (Column.name c) pre ≡ none) cs
        → has_unparsed fields r ≡ true
        → column_values o now cs (pre ++ half_row o fields r) ≡ none
    unfolding column_values half_row has_unparsed
    column_values_fail fields [] [] pre i d l h = absurd (let bad = h in cc)
    column_values_fail fields [] (e ∷ r) pre i d l h = absurd i
    column_values_fail fields (c ∷ cs) [] pre i d l h = absurd i
    column_values_fail fields (c ∷ cs) ((k, v) ∷ r) pre (n, s, i) (d, ds) (l, ls) h =
        let b = any (is_named k) fields in
        let x = half_value o b v in
        let row = half_row o fields r in
        let found : lookup c.name (pre ++ (k, x) ∷ row) ≡ some x =
          subst (λ k. lookup c.name (pre ++ (k, x) ∷ row) ≡ some x) (sym n)
            (lookup-after c.name x pre row l) in
        rw found (elim (Bool-cases (is_time v && not b)) [
          | inl e ↦ rw (unparsed_fails b c v s e) refl
          | inr e ↦ combined-none _ (column_value o c now (some x)) _ (
              subst (λ k. column_values o now cs (pre ++ (k, x) ∷ row) ≡ none) (sym n)
                (subst (λ y. column_values o now cs y ≡ none)
                  (append_assoc pre ((c.name, x) ∷ []) row)
                  (column_values_fail fields cs r (pre ++ (c.name, x) ∷ []) i ds
                    (lacks-later o now c cs x pre ls d) (rw e at h))))
        ])

  pub import_parsed-export :
      (t : TableSpec) (r : Fields)
      → ((n : ℕ) → o.parse_naive_utc (o.isoformat n ++ codes "Z") ≡ some n)
      → IsSchema t
      → IsRow t.columns r
      → has_unparsed t.time_fields r ≡ false
      → import_parsed o now t (parse_fields o t.time_fields (model_to_dict o r)) ≡ some r
  import_parsed-export t r back schema i h =
      rw
        (
          parse_fields-export o back t.time_fields t.columns r i schema.parsed,
          half_row_same o back t.time_fields r h,
          known_all t.columns t.columns r i (known_self t.columns),
        )
        (column_values_kept o now t.columns r [] i schema.distinct (no_names t.columns))

  pub import_parsed-unparsed :
      (t : TableSpec) (r : Fields)
      → ((n : ℕ) → o.parse_naive_utc (o.isoformat n ++ codes "Z") ≡ some n)
      → ((s : Text) → o.coerced times (string s) ≡ none)
      → IsSchema t
      → IsRow t.columns r
      → has_unparsed t.time_fields r ≡ true
      → import_parsed o now t (parse_fields o t.time_fields (model_to_dict o r)) ≡ none
  import_parsed-unparsed t r back no_coercion schema i h =
      rw
        (
          parse_fields-export o back t.time_fields t.columns r i schema.parsed,
          half_row_known o t.time_fields t.columns r,
          known_all t.columns t.columns r i (known_self t.columns),
        )
        (column_values_fail no_coercion t.time_fields t.columns r [] i schema.distinct
          (no_names t.columns) h)
