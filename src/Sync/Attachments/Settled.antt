-- ===== src/Sync/Attachments/Settled.antt =====
-- app/core/issue_sync.py: what the placing of one URL does to the rows.
use mirror_maestro.Common.{
  or_false, ℕ, suc, true, false, Option, none, some, List, [], ◌∷◌, ◌++◌, any, ◌≡◌, refl, sym, ◌∙◌,
  inl, inr, Bool-cases, arith,
}
use mirror_maestro.Text.{Text, eq_text, eq_text_self, eq_text_iff}
use mirror_maestro.Errors.{Outcome, returned, raised}
use mirror_maestro.Errors.Returns.{After}
use mirror_maestro.Database.{Row, no_row, one_row, many_rows, none-any}
use mirror_maestro.Sync.Attachments.{
  Attachment, FileCalls, FileWorld, PlacedUrls, is_synced, find_attachment, full_url, uploaded,
  filename_of, downloaded, place_found,
}

abbrev pub TextsDistinct : List Text → Type 0
TextsDistinct [] = Unit
TextsDistinct (u ∷ us) = (any (eq_text u) us ≡ false) × TextsDistinct us

abbrev pub to_target : Text → Attachment → Text × Text
to_target u a = (u, a.target_url)

-- What the calls answer when all goes well.
abbrev pub IsDownloaded : Outcome (Option (List ℕ)) → Type 0
IsDownloaded (returned (some (b ∷ content))) = Unit
IsDownloaded _ = ⊥

abbrev pub IsUploaded : Outcome (Option Text) → Type 0
IsUploaded (returned (some (c ∷ t))) = Unit
IsUploaded _ = ⊥

pub record AllSucceed (o : FileCalls) : Type 0 where
  pub downloads : (n : ℕ) (u : Text) → IsDownloaded (o.download n u)
  pub uploads : (n : ℕ) (content : List ℕ) (name : Text) → IsUploaded (o.upload n content name)
  pub commits : o.commit ≡ true

pub eq_text_flip : (s t : Text) → eq_text s t ≡ false → eq_text t s ≡ false
eq_text_flip s t e = elim (Bool-cases (eq_text t s)) [
  | inr h ↦ h
  | inl h ↦
      let same : eq_text s t ≡ true = (eq_text_iff s t).1 (sym ((eq_text_iff t s).0 h)) in
      absurd (let bad : true ≡ false = sym same ∙ e in cc)
]

module _ (k : ℕ) where
  abbrev pub look : Text → List Attachment → Row Attachment
  look u r = find_attachment (some (suc k)) u r

  -- The rows have the target of each URL.
  abbrev pub Settles : List Attachment → List Text → List (Text × Text) → Type 0
  Settles r [] m = m ≡ []
  Settles r (u ∷ us) m =
      (a : Attachment) × (rest : List (Text × Text)) × (look u r ≡ one_row a)
      × (m ≡ to_target u a ∷ rest)
      × Settles r us rest

  abbrev pub reused : List (Text × Text) → PlacedUrls
  reused m = record { url_mapping = m; to_add = [] }

  -- What the body of the loop has done.
  pub record Step (u : Text) (r : List Attachment) (a : PlacedUrls) : Type 0 where
    pub others :
        (v : Text) (x : List Attachment) → eq_text u v ≡ false → look v (a.to_add ++ x) ≡ look v x
    pub here :
        (x : List Attachment)
        → look u x ≡ look u r
        → (b : Attachment) × (look u (a.to_add ++ x) ≡ one_row b)
          × (a.url_mapping ≡ to_target u b ∷ [])

  abbrev pub row_of : Text → Text → Text → ℕ → Attachment
  row_of u t name size = record {
    issue_mapping_id = some (suc k);
    source_url = u;
    target_url = t;
    filename = name;
    file_size = size;
  }

  look_other :
      (u v t name : Text) (size : ℕ) (x : List Attachment)
      → eq_text u v ≡ false
      → look v (row_of u t name size ∷ x) ≡ look v x
  unfolding find_attachment
  look_other u v t name size x e =
      let other : is_synced (suc k) v (row_of u t name size) ≡ false = ground (arith, e) in
      rw other refl

  look_new :
      (u t name : Text) (size : ℕ) (x : List Attachment)
      → look u x ≡ no_row
      → look u (row_of u t name size ∷ x) ≡ one_row (row_of u t name size)
  unfolding find_attachment
  look_new u t name size x e =
      let fits : is_synced (suc k) u (row_of u t name size) ≡ true =
        ground (arith, eq_text_self u) in
      let alone = none-any (is_synced (suc k) u) x e in rw fits (rw alone refl)

  -- Nothing to look up is placed.
  kept_step :
      (u : Text) (r : List Attachment) (a : Attachment)
      → look u r ≡ one_row a
      → Step u r (reused (to_target u a ∷ []))
  kept_step u r a e = record { others = λ v x h. refl; here = λ x h. (a, h ∙ e, refl) }

  module _ (o : FileCalls) (u name : Text) (size : ℕ) (r : List Attachment) where
    new_step :
        (t : Text)
        → look u r ≡ no_row
        → Step u r record { url_mapping = (u, t) ∷ []; to_add = row_of u t name size ∷ [] }
    new_step t e = record {
      others = λ v x h. look_other u v t name size x h;
      here = λ x h. (row_of u t name size, look_new u t name size x (h ∙ e), refl);
    }

    uploaded_step :
        (answer : Outcome (Option Text))
        → IsUploaded answer
        → look u r ≡ no_row
        → Step u r (uploaded o (some (suc k)) u name size answer)
    uploaded_step (returned (some (c ∷ t))) h e = new_step (full_url o (some (suc k)) (c ∷ t)) e
    uploaded_step (returned (some [])) h e = absurd h
    uploaded_step (returned none) h e = absurd h
    uploaded_step (raised x) h e = absurd h

  module _ (o : FileCalls) (good : AllSucceed o) where
    downloaded_step :
        (u : Text) (answer : Outcome (Option (List ℕ))) (r : List Attachment) (w : FileWorld)
        → IsDownloaded answer
        → look u r ≡ no_row
        → w.rows ≡ r
        → After (λ a w'. Step u r a × (w'.rows ≡ r)) (downloaded o (some (suc k)) u answer w)
    downloaded_step u (returned (some (b ∷ content))) r w h e s = (
      uploaded_step o u (filename_of o (some (suc k)) u) _ r _
          (good.uploads w.calls (b ∷ content) _) e,
      s,
    )
    downloaded_step u (returned (some [])) r w h e s = absurd h
    downloaded_step u (returned none) r w h e s = absurd h
    downloaded_step u (raised x) r w h e s = absurd h

    pub found_step :
        (u : Text) (found : Row Attachment) (w : FileWorld)
        → look u w.rows ≡ found
        → After
            (λ a w'. Step u w.rows a × (w'.rows ≡ w.rows))
            (place_found o (some (suc k)) u found w)
    found_step u many_rows w e = tt
    found_step u (one_row a) w e = (kept_step u w.rows a e, refl)
    found_step u no_row w e =
        downloaded_step u (o.download w.calls u) w.rows _ (good.downloads w.calls u) e refl

    pub more_settled :
        (u : Text) (r x : List Attachment) (a : PlacedUrls)
        → Step u r a
        → (us : List Text) (m : List (Text × Text)) → any (eq_text u) us ≡ false
        → Settles x us m
        → Settles (a.to_add ++ x) us m
    more_settled u r x a s [] m d h = h
    more_settled u r x a s (v ∷ us) m d (b, rest, e, f, h) =
        let (here, later) = or_false (eq_text u v) (any (eq_text u) us) d in
        (b, rest, s.others v x here ∙ e, f, more_settled u r x a s us rest later h)
