-- ===== src/Sync/Cleanup/Foreign.antt =====
-- app/core/issue_sync.py: what a cleanup does to the rows of other configurations.
use mirror_maestro.Common.{
  ℕ, true, false, Option, none, some, List, [], ◌∷◌, ◌++◌, All, ◌≡◌, refl, ◌∙◌, ap, inl, inr,
  Bool-cases, arith, ◌==◌,
}
use mirror_maestro.Errors.{Error, Outcome, returned, raised}
use mirror_maestro.Sync.Target.{TargetIssue}
use mirror_maestro.Mirrors.Deletion.{Rows, IssueMapping, CommentMapping, is_in, delete_where}
use mirror_maestro.Mirrors.Deletion.Intact.{differs}
use mirror_maestro.Mirrors.Deletion.Others.{rows_of, unlisted}
use mirror_maestro.Sync.Cleanup.{
  unique_ids, count_orphans, own_ids, is_foreign, cleaned, cleanup_counted,
  cleanup_orphaned_resources,
}

flip_eq : (a b : ℕ) → a == b ≡ false → b == a ≡ false
flip_eq a b e = ground arith

flipped_differs :
    (ids : List ℕ) (i j : ℕ) → is_in ids i ≡ true → is_in ids j ≡ false → j == i ≡ false
flipped_differs ids i j g n = flip_eq i j (differs ids i j g n)

module _ (own : List ℕ) where
  rows_gone :
      (i : ℕ) (cs : List CommentMapping)
      → is_in own i ≡ false
      → rows_of CommentMapping.issue_mapping_id i
          (delete_where (λ c. is_foreign own c.issue_mapping_id) cs)
        ≡ []
  unfolding delete_where
  rows_gone i [] n = refl
  rows_gone i (c ∷ cs) n = elim (Bool-cases (is_in own c.issue_mapping_id)) [
    | inr g ↦ rw g (rows_gone i cs n)
    | inl g ↦ rw g (rw (differs own c.issue_mapping_id i g n) (rows_gone i cs n))
  ]

  rows_own :
      (i : ℕ) (cs : List CommentMapping)
      → is_in own i ≡ true
      → rows_of CommentMapping.issue_mapping_id i
          (delete_where (λ c. is_foreign own c.issue_mapping_id) cs)
        ≡ rows_of CommentMapping.issue_mapping_id i cs
  unfolding delete_where
  rows_own i [] n = refl
  rows_own i (c ∷ cs) n = elim (Bool-cases (is_in own c.issue_mapping_id)) [
    | inl g ↦ rw g (elim (Bool-cases (c.issue_mapping_id == i)) [
      | inl e ↦ rw e (ap (λ r. c ∷ r) (rows_own i cs n))
      | inr e ↦ rw e (rows_own i cs n)
    ])
    | inr g ↦ rw g (rw (flipped_differs own i c.issue_mapping_id n g) (rows_own i cs n))
  ]

counted_rows :
    (config_id : ℕ) (r : Rows) (x : ℕ × Option Error)
    → (cleanup_counted config_id r x).0.errors ≡ []
    → (cleanup_counted config_id r x).1 ≡ cleaned config_id r
counted_rows config_id r (n, none) h = refl
counted_rows config_id r (n, some e) h = absurd (let bad = h in cc)

-- What a cleanup has done that reports no error.
cleaned_rows :
    (config_id : ℕ) (first second : Outcome (List TargetIssue)) (r : Rows)
    → (cleanup_orphaned_resources config_id first second r).0.errors ≡ []
    → (cleanup_orphaned_resources config_id first second r).1 ≡ cleaned config_id r
unfolding cleanup_orphaned_resources
cleaned_rows config_id (raised e) second r h = absurd (let bad = h in cc)
cleaned_rows config_id (returned ts) (raised e) r h = absurd (let bad = h in cc)
cleaned_rows config_id (returned ts) (returned us) r h =
    counted_rows config_id r (count_orphans config_id r.issues (unique_ids [] (ts ++ us)) 0) h

-- After a cleanup of a configuration that reports no error: an issue mapping none of whose rows is
-- of this configuration has no comment mapping left; an issue mapping of the configuration has its
-- comment mappings as before; and all issue mappings are as before, the foreign ones too.
pub cleanup_orphaned_resources_lem :
    (config_id : ℕ) (first second : Outcome (List TargetIssue)) (r : Rows) (i j : ℕ)
    → (cleanup_orphaned_resources config_id first second r).0.errors ≡ []
    → All (λ m. IssueMapping.id m ≡ i → m.mirror_issue_config_id == config_id ≡ false) r.issues
    → is_in (own_ids config_id r) j ≡ true
    → let after = (cleanup_orphaned_resources config_id first second r).1 in
      (rows_of CommentMapping.issue_mapping_id i after.comments ≡ [])
      × (rows_of CommentMapping.issue_mapping_id j after.comments
          ≡ rows_of CommentMapping.issue_mapping_id j r.comments)
      × (after.issues ≡ r.issues)
unfolding own_ids
cleanup_orphaned_resources_lem config_id first second r i j h foreign own =
    let done = cleaned_rows config_id first second r h in
    let n =
      unlisted IssueMapping.id (λ (m : IssueMapping). m.mirror_issue_config_id == config_id)
        r.issues i foreign in
    (
      ap (λ (x : Rows). rows_of CommentMapping.issue_mapping_id i x.comments) done
          ∙ rows_gone (own_ids config_id r) i r.comments n,
      ap (λ (x : Rows). rows_of CommentMapping.issue_mapping_id j x.comments) done
          ∙ rows_own (own_ids config_id r) j r.comments own,
      ap (λ (x : Rows). x.issues) done,
    )
