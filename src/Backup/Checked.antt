-- ===== src/Backup/Checked.antt =====
-- app/models.py and app/api/backup.py: each table has distinct columns, and the fields that the
-- import parses hold times.
use mirror_maestro.Common.{
  Bool, true, false, not, ◌&&◌, ◌||◌, List, [], ◌∷◌, any, All, ◌≡◌, refl, arith,
}
use mirror_maestro.Text.{Text, eq_text}
use mirror_maestro.Backup.{Column}
use mirror_maestro.Backup.Schema.{
  TableSpec, users, gitlab_instances, instance_pairs, mirrors, mirror_issue_configs, issue_mappings,
  comment_mappings, label_mappings, attachment_mappings, issue_sync_jobs, tables,
}
use mirror_maestro.Backup.Import.{is_named}
use mirror_maestro.Backup.Rows.{is_times, IsParsedRight, NamesDistinct, IsSchema}

and_split : (a b : Bool) → a && b ≡ true → (a ≡ true) × (b ≡ true)
and_split a b h = ground arith

lacks_name : Text → List Column → Bool
lacks_name n [] = true
lacks_name n (c ∷ cs) = not (eq_text n c.name) && lacks_name n cs

names_distinct : List Column → Bool
unfolding lacks_name
names_distinct [] = true
names_distinct (c ∷ cs) = lacks_name c.name cs && names_distinct cs

parsed_right : List Text → List Column → Bool
parsed_right fields [] = true
parsed_right fields (c ∷ cs) =
    (not (any (is_named c.name) fields) || is_times c.kind) && parsed_right fields cs

lacks_name_lem :
    (n : Text) (cs : List Column)
    → lacks_name n cs ≡ true
    → All (λ d. eq_text n (Column.name d) ≡ false) cs
unfolding lacks_name
lacks_name_lem n [] h = tt
lacks_name_lem n (c ∷ cs) h =
    let (here, later) = and_split (not (eq_text n c.name)) (lacks_name n cs) h in
    (ground (arith, here), lacks_name_lem n cs later)

names_distinct_lem : (cs : List Column) → names_distinct cs ≡ true → NamesDistinct cs
unfolding names_distinct
names_distinct_lem [] h = tt
names_distinct_lem (c ∷ cs) h =
    let (here, later) = and_split _ _ h in
    (lacks_name_lem c.name cs here, names_distinct_lem cs later)

parsed_right_lem :
    (fields : List Text) (cs : List Column)
    → parsed_right fields cs ≡ true
    → All (IsParsedRight fields) cs
unfolding parsed_right
parsed_right_lem fields [] h = tt
parsed_right_lem fields (c ∷ cs) h =
    let (here, later) = and_split _ _ h in (here, parsed_right_lem fields cs later)

checked :
    (t : TableSpec)
    → names_distinct t.columns ≡ true
    → parsed_right t.time_fields t.columns ≡ true
    → IsSchema t
checked t d p = record {
  distinct = names_distinct_lem t.columns d;
  parsed = parsed_right_lem t.time_fields t.columns p;
}

pub tables-AreSchemas : All IsSchema tables
unfolding names_distinct parsed_right eq_text
tables-AreSchemas = (
  checked users refl refl,
  (
    checked gitlab_instances refl refl,
    (
      checked instance_pairs refl refl,
      (
        checked mirrors refl refl,
        (
          checked mirror_issue_configs refl refl,
          (
            checked issue_mappings refl refl,
            (
              checked comment_mappings refl refl,
              (
                checked label_mappings refl refl,
                (checked attachment_mappings refl refl, (checked issue_sync_jobs refl refl, tt)),
              ),
            ),
          ),
        ),
      ),
    ),
  ),
)
