-- ===== src/Backup/Sequences.antt =====
-- app/api/backup.py: which sequences a restore resets.
use mirror_maestro.Common.{
  or_false, ℕ, ◌≤◌, Bool, false, some, List, [], ◌∷◌, ◌++◌, any, All, ◌≡◌, refl, ◌∙◌, ap, inl, inr,
  Bool-cases, arith, ◌==◌, if◌then◌else◌,
}
use mirror_maestro.Text.{Text, eq_text_self, Dict, lookup, insert, lookup-insert}
use mirror_maestro.Backup.{Fields}
use mirror_maestro.Backup.Import.{row_id, max_id, rows_of_table, reset_sequences, is_named}

abbrev pub is_unused : Dict (List Fields) → Text → Bool
is_unused db t = max_id (rows_of_table t db) == 0

after_insert :
    (t u : Text) (n : ℕ) (seqs : Dict ℕ)
    → is_named u t ≡ false
    → lookup u (insert t n seqs) ≡ lookup u seqs
after_insert t u n seqs h = rw lookup-insert (rw h refl)

-- Tables that are not named leave the sequence alone.
reset_others :
    (ts : List Text) (t : Text) (db : Dict (List Fields)) (seqs : Dict ℕ)
    → any (is_named t) ts ≡ false
    → lookup t (reset_sequences ts db seqs) ≡ lookup t seqs
unfolding reset_sequences
reset_others [] t db seqs h = refl
reset_others (u ∷ ts) t db seqs h =
    let (other, others) = or_false (is_named t u) (any (is_named t) ts) h in
    elim (Bool-cases (is_unused db u)) [
      | inl e ↦ rw e refl
      | inr e ↦ rw e (
          reset_others ts t db _ others ∙ after_insert u t (max_id (rows_of_table u db)) seqs other)
    ]

reset_named :
    (pre post : List Text) (t : Text) (db : Dict (List Fields)) (seqs : Dict ℕ)
    → any (is_named t) pre ≡ false
    → any (is_named t) post ≡ false
    → lookup t (reset_sequences (pre ++ t ∷ post) db seqs) ≡ (
        if any (is_unused db) (pre ++ t ∷ [])
        then lookup t seqs
        else some (max_id (rows_of_table t db)))
unfolding reset_sequences
reset_named [] post t db seqs h k = elim (Bool-cases (is_unused db t)) [
  | inl e ↦ rw e refl
  | inr e ↦ rw e (
      reset_others post t db (insert t (max_id (rows_of_table t db)) seqs) k
      ∙ rw lookup-insert (rw eq_text_self refl))
]
reset_named (u ∷ pre) post t db seqs h k =
    let (other, others) = or_false (is_named t u) (any (is_named t) pre) h in
    elim (Bool-cases (is_unused db u)) [
      | inl e ↦ rw e refl
      | inr e ↦ rw e (
          reset_named pre post t db _ others k
          ∙ ap
              (λ x.
                if any (is_unused db) (pre ++ t ∷ [])
                then x
                else some (max_id (rows_of_table t db)))
              (after_insert u t (max_id (rows_of_table u db)) seqs other))
    ]

weaker :
    (m n : ℕ) (rows : List Fields)
    → m ≤ n
    → All (λ r. row_id r ≤ m) rows
    → All (λ r. row_id r ≤ n) rows
weaker m n [] h k = tt
weaker m n (r ∷ rs) h (k, ks) = (omega (arith, h, k), weaker m n rs h ks)

max_id_bounds : (rows : List Fields) → All (λ r. row_id r ≤ max_id rows) rows
unfolding max_id
max_id_bounds [] = tt
max_id_bounds (r ∷ rs) =
    (ground arith, weaker (max_id rs) (max_id (r ∷ rs)) rs (ground arith) (max_id_bounds rs))

-- The reset sets the sequence of a table, which is named once, to a number that no id of its rows is
-- above, if this table and all that are named before it have a row with an id above zero; else the
-- sequence stays as it was.
pub reset_sequences_lem :
    (pre post : List Text) (t : Text) (db : Dict (List Fields)) (seqs : Dict ℕ)
    → any (is_named t) pre ≡ false
    → any (is_named t) post ≡ false
    → let rows = rows_of_table t db in
      (lookup t (reset_sequences (pre ++ t ∷ post) db seqs)
        ≡ (if any (is_unused db) (pre ++ t ∷ []) then lookup t seqs else some (max_id rows)))
      × All (λ r. row_id r ≤ max_id rows) rows
reset_sequences_lem pre post t db seqs h k =
    (reset_named pre post t db seqs h k, max_id_bounds (rows_of_table t db))
