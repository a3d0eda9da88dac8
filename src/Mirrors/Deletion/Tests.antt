-- ===== src/Mirrors/Deletion/Tests.antt =====
-- app/api/mirrors.py: a deletion on concrete rows.
use mirror_maestro.Common.{All, false, some, none, [], ◌∷◌, ◌≡◌, refl, arith}
use mirror_maestro.Mirrors.Deletion.{
  Rows, ConfigRow, is_in, ids_where, config_ids, mapping_ids, comment_ids, delete_where,
  delete_issue_sync_data_for_mirrors, delete_mirrors,
}
use mirror_maestro.Mirrors.Deletion.Intact.{IsIntact}
use mirror_maestro.Mirrors.Deletion.Others.{SameRows, delete_mirrors_lem}

-- Two mirrors, each with a configuration, an issue, a comment and a file.
abbrev pub rows : Rows
rows = record {
  mirrors = record { id = 1 } ∷ record { id = 2 } ∷ [];
  configs = record { id = 10; mirror_id = 1 } ∷ record { id = 20; mirror_id = 2 } ∷ [];
  issues =
      record { id = 11; mirror_issue_config_id = 10; target_issue_id = 5 }
      ∷ record { id = 21; mirror_issue_config_id = 20; target_issue_id = 6 }
      ∷ [];
  comments =
      record { id = 12; issue_mapping_id = 11 } ∷ record { id = 22; issue_mapping_id = 21 } ∷ [];
  labels = record { id = 13; mirror_issue_config_id = 10 } ∷ [];
  jobs = record { id = 24; mirror_issue_config_id = 20 } ∷ [];
  attachments =
      record { id = 15; issue_mapping_id = none; comment_mapping_id = some 12 }
      ∷ record { id = 25; issue_mapping_id = some 21; comment_mapping_id = none }
      ∷ [];
}

only_second : delete_mirrors (1 ∷ []) rows ≡ record {
  mirrors = record { id = 2 } ∷ [];
  configs = record { id = 20; mirror_id = 2 } ∷ [];
  issues = record { id = 21; mirror_issue_config_id = 20; target_issue_id = 6 } ∷ [];
  comments = record { id = 22; issue_mapping_id = 21 } ∷ [];
  labels = [];
  jobs = record { id = 24; mirror_issue_config_id = 20 } ∷ [];
  attachments = record { id = 25; issue_mapping_id = some 21; comment_mapping_id = none } ∷ [];
}
unfolding delete_mirrors delete_issue_sync_data_for_mirrors config_ids mapping_ids comment_ids
    ids_where delete_where
only_second = refl

rows-IsIntact : IsIntact rows
rows-IsIntact = record {
  configs = (refl, (refl, tt));
  issues = (refl, (refl, tt));
  comments = (refl, (refl, tt));
  labels = (refl, tt);
  jobs = (refl, tt);
  attachments = ((tt, refl), ((refl, tt), tt));
}

second_is_other : All (λ c. ConfigRow.id c ≡ 20 → is_in (1 ∷ []) c.mirror_id ≡ false) rows.configs
second_is_other = (λ h. ground (arith, h), (λ h. refl, tt))

delete_mirrors_lem_example :
    IsIntact (delete_mirrors (1 ∷ []) rows) × SameRows 20 rows (delete_mirrors (1 ∷ []) rows)
delete_mirrors_lem_example = delete_mirrors_lem (1 ∷ []) rows 20 rows-IsIntact second_is_other
