-- ===== src/Mirrors/Deletion/Others.antt =====
-- app/api/mirrors.py: what a deletion of mirrors keeps.
use mathlib.Core.Path.{subst}
use mirror_maestro.Common.{
  ℕ, Bool, false, not, List, [], ◌∷◌, All, ◌≡◌, refl, sym, ap, inl, inr, Bool-cases, ◌==◌,
}
use mirror_maestro.Mirrors.Deletion.{
  ConfigRow, IssueMapping, CommentMapping, ConfigChild, Rows, is_in, delete_where, ids_where,
  config_ids, mapping_ids, comment_ids, delete_issue_sync_data_for_mirrors, delete_mirrors,
}
use mirror_maestro.Mirrors.Deletion.Intact.{
  IsIntact, children, none_gone, differs, elsewhere, configs_kept, attachments_kept,
}

-- The rows that refer to one id.
abbrev pub rows_of : {B : Type 0} → (B → ℕ) → ℕ → List B → List B
rows_of refers i ys = delete_where (λ y. not (refers y == i)) ys

pub unlisted :
    {A : Type 0} (id_of : A → ℕ) (gone : A → Bool) (xs : List A) (i : ℕ)
    → All (λ x. id_of x ≡ i → gone x ≡ false) xs
    → is_in (ids_where id_of gone xs) i ≡ false
unfolding ids_where
unlisted id_of gone [] i h = refl
unlisted id_of gone (x ∷ xs) i (f, h) =
    let later = unlisted id_of gone xs i h in
    elim (Bool-cases (gone x)) [
      | inr g ↦ rw g later
      | inl g ↦
          let other : id_of x == i ≡ false = elsewhere (id_of x) i (gone x) g f in
          rw g (rw other later)
    ]

rows_kept :
    {B : Type 0} (refers : B → ℕ) (ids : List ℕ) (i : ℕ) (ys : List B)
    → is_in ids i ≡ false
    → rows_of refers i (delete_where (λ y. is_in ids (refers y)) ys) ≡ rows_of refers i ys
unfolding delete_where
rows_kept refers ids i [] n = refl
rows_kept refers ids i (y ∷ ys) n =
    let later = rows_kept refers ids i ys n in
    elim (Bool-cases (is_in ids (refers y))) [
      | inl g ↦ rw g (rw (differs ids (refers y) i g n) later)
      | inr g ↦ rw g (elim (Bool-cases (refers y == i)) [
        | inl e ↦ rw e (ap (λ r. y ∷ r) later)
        | inr e ↦ rw e later
      ])
    ]

cleared-IsIntact :
    (id : ℕ) (ids : List ℕ) (r : Rows) → IsIntact r → IsIntact (delete_mirrors (id ∷ ids) r)
unfolding delete_mirrors delete_issue_sync_data_for_mirrors config_ids mapping_ids comment_ids
cleared-IsIntact id ids r h =
    let gone_config = λ (c : ConfigRow). is_in (id ∷ ids) c.mirror_id in
    let gone_issue =
      λ (m : IssueMapping). is_in (config_ids (id ∷ ids) r) m.mirror_issue_config_id in
    let gone_comment =
      λ (c : CommentMapping). is_in (mapping_ids (id ∷ ids) r) c.issue_mapping_id in
    record {
      configs = configs_kept (id ∷ ids) r.mirrors r.configs h.configs;
      issues =
          children ConfigRow.id gone_config IssueMapping.mirror_issue_config_id r.configs r.issues
            h.issues;
      comments =
          children IssueMapping.id gone_issue CommentMapping.issue_mapping_id r.issues r.comments
            h.comments;
      labels =
          children ConfigRow.id gone_config ConfigChild.mirror_issue_config_id r.configs r.labels
            h.labels;
      jobs =
          children ConfigRow.id gone_config ConfigChild.mirror_issue_config_id r.configs r.jobs
            h.jobs;
      attachments =
          attachments_kept gone_issue gone_comment r.issues r.comments r.attachments h.attachments;
    }

delete_no_mirrors : (r : Rows) → delete_mirrors [] r ≡ r
unfolding delete_mirrors delete_issue_sync_data_for_mirrors
delete_no_mirrors r = λ i. record r { mirrors = none_gone r.mirrors i }

all-IsIntact : (ids : List ℕ) (r : Rows) → IsIntact r → IsIntact (delete_mirrors ids r)
all-IsIntact [] r h = subst IsIntact (sym (delete_no_mirrors r)) h
all-IsIntact (id ∷ ids) r h = cleared-IsIntact id ids r h

-- The rows of the configuration with an id.
pub record SameRows (i : ℕ) (before after : Rows) : Type 0 where
  pub same_issues :
      rows_of IssueMapping.mirror_issue_config_id i after.issues
      ≡ rows_of IssueMapping.mirror_issue_config_id i before.issues
  pub same_labels :
      rows_of ConfigChild.mirror_issue_config_id i after.labels
      ≡ rows_of ConfigChild.mirror_issue_config_id i before.labels
  pub same_jobs :
      rows_of ConfigChild.mirror_issue_config_id i after.jobs
      ≡ rows_of ConfigChild.mirror_issue_config_id i before.jobs

others_kept :
    (ids : List ℕ) (r : Rows) (i : ℕ)
    → All (λ c. ConfigRow.id c ≡ i → is_in ids c.mirror_id ≡ false) r.configs
    → SameRows i r (delete_mirrors ids r)
unfolding delete_mirrors delete_issue_sync_data_for_mirrors config_ids
others_kept [] r i h = record { same_issues = refl; same_labels = refl; same_jobs = refl }
others_kept (id ∷ ids) r i h =
    let configs = config_ids (id ∷ ids) r in
    let n = unlisted ConfigRow.id (λ (c : ConfigRow). is_in (id ∷ ids) c.mirror_id) r.configs i h in
    record {
      same_issues = rows_kept IssueMapping.mirror_issue_config_id configs i r.issues n;
      same_labels = rows_kept ConfigChild.mirror_issue_config_id configs i r.labels n;
      same_jobs = rows_kept ConfigChild.mirror_issue_config_id configs i r.jobs n;
    }

-- If every row that a row refers to is there, this is so after the mirrors with the given ids are
-- deleted with their data; and the issue mappings, labels and jobs of a configuration none of whose
-- rows is of a mirror with one of these ids are as before.
pub delete_mirrors_lem :
    (ids : List ℕ) (r : Rows) (i : ℕ)
    → IsIntact r
    → All (λ c. ConfigRow.id c ≡ i → is_in ids c.mirror_id ≡ false) r.configs
    → IsIntact (delete_mirrors ids r) × SameRows i r (delete_mirrors ids r)
delete_mirrors_lem ids r i h k = (all-IsIntact ids r h, others_kept ids r i k)
