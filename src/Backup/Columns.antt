-- ===== src/Backup/Columns.antt =====
-- app/api/backup.py: which rows of an export the import can store.
use mathlib.Core.Path.{subst}
use mirror_maestro.Common.{
  All-both, ℕ, true, false, none, some, List, [], ◌∷◌, ◌++◌, All, ◌≡◌, refl, sym, inl, inr,
  Bool-cases, append_assoc, arith,
}
use mirror_maestro.Text.{Text, eq_text, eq_text_self, Dict, lookup}
use mirror_maestro.Backup.{
  Value, null, integer, boolean, string, time, document, Kind, Presence, optional, required,
  default, Column, Fields, Outer,
}
use mirror_maestro.Backup.Import.{stored, defaulted, column_value, column_values}
use mirror_maestro.Backup.Rows.{has_kind, is_optional, is_stored, IsRow, NamesDistinct}

-- A key that stands after others is found, if they lack it.
pub lookup-after :
    {V : Type 0} (k : Text) (v : V) (pre post : Dict V)
    → lookup k pre ≡ none
    → lookup k (pre ++ (k, v) ∷ post) ≡ some v
unfolding lookup
lookup-after k v [] post h = rw eq_text_self refl
lookup-after k v ((j, w) ∷ pre) post h = elim (Bool-cases (eq_text j k)) [
  | inl e ↦ absurd (let bad : some w ≡ none = (rw e at h) in cc)
  | inr e ↦ rw e (lookup-after k v pre post (rw e at h))
]

pub lookup-lacks :
    {V : Type 0} (j k : Text) (v : V) (pre : Dict V)
    → lookup j pre ≡ none
    → eq_text k j ≡ false
    → lookup j (pre ++ (k, v) ∷ []) ≡ none
unfolding lookup
lookup-lacks j k v [] h e = rw e refl
lookup-lacks j k v ((i, w) ∷ pre) h e = elim (Bool-cases (eq_text i j)) [
  | inl d ↦ absurd (let bad : some w ≡ none = (rw d at h) in cc)
  | inr d ↦ rw d (lookup-lacks j k v pre (rw d at h) e)
]

module _ (o : Outer) (now : ℕ) where
  stored_kind : (k : Kind) (v : Value) → has_kind k v ≡ true → stored o k v ≡ some v
  stored_kind k v h = ground (arith, h)

  defaulted_null : (p : Presence) → is_optional p ≡ true → defaulted o p now ≡ some null
  defaulted_null optional h = refl
  defaulted_null required h = absurd (let bad = h in cc)
  defaulted_null (default d) h = absurd (let bad = h in cc)

  pub column_value_kept :
      (c : Column) (v : Value) → is_stored c v ≡ true → column_value o c now (some v) ≡ some v
  column_value_kept c null h = defaulted_null c.presence h
  column_value_kept c (integer n) h = stored_kind c.kind (integer n) h
  column_value_kept c (time n) h = stored_kind c.kind (time n) h
  column_value_kept c (boolean b) h = stored_kind c.kind (boolean b) h
  column_value_kept c (string s) h = stored_kind c.kind (string s) h
  column_value_kept c (document s) h = stored_kind c.kind (document s) h

  pub lacks-later :
      (c : Column) (cs : List Column) (v : Value) (pre : Fields)
      → All (λ d. lookup (Column.name d) pre ≡ none) cs
      → All (λ d. eq_text c.name (Column.name d) ≡ false) cs
      → All (λ d. lookup (Column.name d) (pre ++ (c.name, v) ∷ []) ≡ none) cs
  lacks-later c cs v pre l d = All-both (λ d. lookup-lacks (Column.name d) c.name v pre) cs l d

  pub column_values_kept :
      (cs : List Column) (r pre : Fields)
      → IsRow cs r
      → NamesDistinct cs
      → All (λ c. lookup (Column.name c) pre ≡ none) cs
      → column_values o now cs (pre ++ r) ≡ some r
  unfolding column_values
  column_values_kept [] [] pre i d l = refl
  column_values_kept [] (e ∷ r) pre i d l = absurd i
  column_values_kept (c ∷ cs) [] pre i d l = absurd i
  column_values_kept (c ∷ cs) ((k, v) ∷ r) pre (n, s, i) (d, ds) (l, ls) =
      subst (λ k. column_values o now (c ∷ cs) (pre ++ (k, v) ∷ r) ≡ some ((k, v) ∷ r)) (sym n)
        (rw (lookup-after c.name v pre r l, column_value_kept c v s)
          (rw (← append_assoc pre ((c.name, v) ∷ []) r) (
            rw
              (column_values_kept cs r (pre ++ (c.name, v) ∷ []) i ds (lacks-later c cs v pre ls d))
              refl)))
