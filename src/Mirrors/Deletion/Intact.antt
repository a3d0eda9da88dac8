-- ===== src/Mirrors/Deletion/Intact.antt =====
-- app/api/mirrors.py: a deletion leaves no row that refers to a row that is gone.
use mirror_maestro.Common.{
  ℕ, Bool, true, false, ◌||◌, Option, none, some, List, [], ◌∷◌, any, All, ◌≡◌, refl, sym, ◌∙◌, ap,
  inl, inr, Bool-cases, ◌==◌, arith,
}
use mirror_maestro.Mirrors.Deletion.{
  MirrorRow, ConfigRow, IssueMapping, CommentMapping, AttachmentMapping, Rows, is_in, is_in_some,
  delete_where, ids_where,
}

-- Some row has the id.
abbrev pub Exists : {A : Type 0} → (A → ℕ) → List A → ℕ → Type 0
Exists id_of xs i = any (λ x. id_of x == i) xs ≡ true

abbrev pub ExistsIfSome : {A : Type 0} → (A → ℕ) → List A → Option ℕ → Type 0
ExistsIfSome id_of xs none = Unit
ExistsIfSome id_of xs (some i) = Exists id_of xs i

-- Every row that a row refers to is there.
pub record IsIntact (r : Rows) : Type 0 where
  pub configs : All (λ c. Exists MirrorRow.id r.mirrors c.mirror_id) r.configs
  pub issues : All (λ m. Exists ConfigRow.id r.configs m.mirror_issue_config_id) r.issues
  pub comments : All (λ c. Exists IssueMapping.id r.issues c.issue_mapping_id) r.comments
  pub labels : All (λ l. Exists ConfigRow.id r.configs l.mirror_issue_config_id) r.labels
  pub jobs : All (λ j. Exists ConfigRow.id r.configs j.mirror_issue_config_id) r.jobs
  pub attachments :
      All
        (λ a.
          ExistsIfSome IssueMapping.id r.issues a.issue_mapping_id
          × ExistsIfSome CommentMapping.id r.comments a.comment_mapping_id)
        r.attachments

module _ {A : Type 0} (id_of : A → ℕ) (gone : A → Bool) where
  -- A row whose id is not among those to delete stays.
  stays :
      (xs : List A) (i : ℕ)
      → Exists id_of xs i
      → is_in (ids_where id_of gone xs) i ≡ false
      → Exists id_of (delete_where gone xs) i
  unfolding ids_where delete_where
  stays [] i e n = e
  stays (x ∷ xs) i e n = elim (Bool-cases (gone x)) [
    | inl g ↦
        let kept : (id_of x == i) || is_in (ids_where id_of gone xs) i ≡ false = (rw g at n) in
        let rest : any (λ y. id_of y == i) xs ≡ true = ground (arith, e, kept) in
        let unlisted : is_in (ids_where id_of gone xs) i ≡ false = ground (arith, kept) in
        rw g (stays xs i rest unlisted)
    | inr g ↦
        let kept : is_in (ids_where id_of gone xs) i ≡ false = (rw g at n) in
        elim (Bool-cases (id_of x == i)) [
          | inl h ↦ rw g (rw h refl)
          | inr h ↦
              let rest : any (λ y. id_of y == i) xs ≡ true = ground (arith, e, h) in
              rw g (rw h (stays xs i rest kept))
        ]
  ]

  stays_if_some :
      (xs : List A) (o : Option ℕ)
      → ExistsIfSome id_of xs o
      → is_in_some (ids_where id_of gone xs) o ≡ false
      → ExistsIfSome id_of (delete_where gone xs) o
  stays_if_some xs none e n = tt
  stays_if_some xs (some i) e n = stays xs i e n

-- What holds of the rows that are kept.
delete_where-All :
    {A : Type 0} (P Q : A → Type 0) (gone : A → Bool) (xs : List A)
    → ((x : A) → P x → gone x ≡ false → Q x)
    → All P xs
    → All Q (delete_where gone xs)
unfolding delete_where
delete_where-All P Q gone [] f a = tt
delete_where-All P Q gone (x ∷ xs) f (a, later) = elim (Bool-cases (gone x)) [
  | inl g ↦ rw g (delete_where-All P Q gone xs f later)
  | inr g ↦ rw g (f x a g, delete_where-All P Q gone xs f later)
]

-- Rows that refer to a table, when those are deleted that refer to what is deleted there.
pub children :
    {A B : Type 0} (id_of : A → ℕ) (gone : A → Bool) (refers : B → ℕ) (xs : List A) (ys : List B)
    → All (λ y. Exists id_of xs (refers y)) ys
    → All
        (λ y. Exists id_of (delete_where gone xs) (refers y))
        (delete_where (λ y. is_in (ids_where id_of gone xs) (refers y)) ys)
children id_of gone refers xs ys =
    delete_where-All (λ y. Exists id_of xs (refers y))
      (λ y. Exists id_of (delete_where gone xs) (refers y))
      (λ y. is_in (ids_where id_of gone xs) (refers y)) ys
      (λ y e n. stays id_of gone xs (refers y) e n)

pub none_gone : {A : Type 0} (xs : List A) → delete_where (λ x. false) xs ≡ xs
unfolding delete_where
none_gone [] = refl
none_gone (x ∷ xs) = rw (none_gone xs) refl

pub differs : (ids : List ℕ) (j i : ℕ) → is_in ids j ≡ true → is_in ids i ≡ false → j == i ≡ false
differs ids j i g n = elim (Bool-cases (j == i)) [
  | inr h ↦ h
  | inl h ↦
      let same : j ≡ i = ground (arith, h) in
      let bad : true ≡ false = sym g ∙ (ap (is_in ids) same ∙ n) in cc
]

pub elsewhere : (j i : ℕ) (b : Bool) → b ≡ true → (j ≡ i → b ≡ false) → j == i ≡ false
elsewhere j i b g f = elim (Bool-cases (j == i)) [
  | inr h ↦ h
  | inl h ↦ let same : j ≡ i = ground (arith, h) in let bad : true ≡ false = sym g ∙ f same in cc
]

ids_of_mirrors :
    (ids : List ℕ) (xs : List MirrorRow) (i : ℕ)
    → is_in ids i ≡ false
    → is_in (ids_where MirrorRow.id (λ m. is_in ids m.id) xs) i ≡ false
unfolding ids_where
ids_of_mirrors ids [] i n = refl
ids_of_mirrors ids (m ∷ ms) i n = elim (Bool-cases (is_in ids m.id)) [
  | inl g ↦
      let other : m.id == i ≡ false = differs ids m.id i g n in
      rw g (rw other (ids_of_mirrors ids ms i n))
  | inr g ↦ rw g (ids_of_mirrors ids ms i n)
]

pub configs_kept :
    (ids : List ℕ) (mirrors : List MirrorRow) (configs : List ConfigRow)
    → All (λ c. Exists MirrorRow.id mirrors c.mirror_id) configs
    → All
        (λ c. Exists MirrorRow.id (delete_where (λ m. is_in ids m.id) mirrors) c.mirror_id)
        (delete_where (λ c. is_in ids c.mirror_id) configs)
configs_kept ids mirrors configs =
    delete_where-All (λ c. Exists MirrorRow.id mirrors c.mirror_id)
      (λ c. Exists MirrorRow.id (delete_where (λ m. is_in ids m.id) mirrors) c.mirror_id)
      (λ c. is_in ids c.mirror_id) configs
      (λ c e n.
        stays MirrorRow.id (λ m. is_in ids m.id) mirrors c.mirror_id e
          (ids_of_mirrors ids mirrors c.mirror_id n))

-- Both deletions of attachments.
pub attachments_kept :
    (gone_issue : IssueMapping → Bool) (gone_comment : CommentMapping → Bool)
    (issues : List IssueMapping) (comments : List CommentMapping) (files : List AttachmentMapping)
    → All
        (λ a.
          ExistsIfSome IssueMapping.id issues a.issue_mapping_id
          × ExistsIfSome CommentMapping.id comments a.comment_mapping_id)
        files
    → All
        (λ a.
          ExistsIfSome IssueMapping.id (delete_where gone_issue issues) a.issue_mapping_id
          × ExistsIfSome CommentMapping.id
              (delete_where gone_comment comments)
              a.comment_mapping_id)
        (delete_where
          (λ a. is_in_some (ids_where IssueMapping.id gone_issue issues) a.issue_mapping_id)
          (delete_where
            (λ a.
              is_in_some (ids_where CommentMapping.id gone_comment comments) a.comment_mapping_id)
            files))
attachments_kept gone_issue gone_comment issues comments files all =
    let new_comments = delete_where gone_comment comments in
    let P = λ (a : AttachmentMapping).
      ExistsIfSome IssueMapping.id issues a.issue_mapping_id
      × ExistsIfSome CommentMapping.id comments a.comment_mapping_id in
    let Q = λ (a : AttachmentMapping).
      ExistsIfSome IssueMapping.id issues a.issue_mapping_id
      × ExistsIfSome CommentMapping.id new_comments a.comment_mapping_id in
    let R = λ (a : AttachmentMapping).
      ExistsIfSome IssueMapping.id (delete_where gone_issue issues) a.issue_mapping_id
      × ExistsIfSome CommentMapping.id new_comments a.comment_mapping_id in
    let half =
      delete_where
        (λ (a : AttachmentMapping).
          is_in_some (ids_where CommentMapping.id gone_comment comments) a.comment_mapping_id)
        files in
    delete_where-All Q R
      (λ a. is_in_some (ids_where IssueMapping.id gone_issue issues) a.issue_mapping_id) half
      (λ a (i, c) n. (stays_if_some IssueMapping.id gone_issue issues a.issue_mapping_id i n, c))
      (delete_where-All P Q
        (λ a. is_in_some (ids_where CommentMapping.id gone_comment comments) a.comment_mapping_id)
        files
        (λ a (i, c) n.
          (i, stays_if_some CommentMapping.id gone_comment comments a.comment_mapping_id c n))
        all)
