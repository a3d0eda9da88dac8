-- ===== src/Sync/Attachments/Raised.antt =====
-- app/core/issue_sync.py: what a sync of attachments raises.
use mathlib.Core.Path.{subst}
use mirror_maestro.Common.{
  ℕ, false, Option, none, some, List, [], ◌∷◌, ◌≡◌, refl, ◌⊎◌, inl, inr, Bool-cases,
}
use mirror_maestro.Text.{Text}
use mirror_maestro.Errors.{Error, Outcome, returned, raised}
use mirror_maestro.Errors.Action.{continue, pure, ◌>>=◌}
use mirror_maestro.Database.{Row, no_row, one_row, many_rows}
use mirror_maestro.Sync.Cleanup.{several_rows}
use mirror_maestro.Sync.Urls.{extract_mirror_urls_from_description}
use mirror_maestro.Sync.Attachments.{
  Attachment, FileCalls, FileWorld, both, is_skippable, find_attachment, downloaded, place_found,
  place_url, place_urls, replaced, sync_urls, sync_attachments_in_description,
}

module _ (o : FileCalls) where
  -- A query that found several rows, or a download's exception.
  abbrev pub IsPassed : Error → Type 0
  IsPassed e =
      (e ≡ several_rows)
      ⊎ ((n : ℕ) × (u : Text) × (o.download n u ≡ raised e) × (is_skippable e.class_of ≡ false))

  abbrev RaisesPassed : {A : Type 0} → Outcome A × FileWorld → Type 0
  RaisesPassed (returned a, w) = Unit
  RaisesPassed (raised e, w) = IsPassed e

  then-RaisesPassed :
      {A B : Type 0} (f : A → FileWorld → Outcome B × FileWorld) (r : Outcome A × FileWorld)
      → RaisesPassed r
      → ((a : A) (w : FileWorld) → RaisesPassed (f a w))
      → RaisesPassed (continue r.0 f r.1)
  then-RaisesPassed f (returned a, w) h k = k a w
  then-RaisesPassed f (raised e, w) h k = h

  module _ (id : Option ℕ) where
    downloaded-RaisesPassed :
        (n : ℕ) (u : Text) (answer : Outcome (Option (List ℕ))) (w : FileWorld)
        → o.download n u ≡ answer
        → RaisesPassed (downloaded o id u answer w)
    downloaded-RaisesPassed n u (returned none) w h = tt
    downloaded-RaisesPassed n u (returned (some [])) w h = tt
    downloaded-RaisesPassed n u (returned (some (b ∷ content))) w h = tt
    downloaded-RaisesPassed n u (raised e) w h = elim (Bool-cases (is_skippable e.class_of)) [
      | inl k ↦ rw k tt
      | inr k ↦ rw k (inr (n, u, h, k))
    ]

    found-RaisesPassed :
        (u : Text) (found : Row Attachment) (w : FileWorld)
        → RaisesPassed (place_found o id u found w)
    found-RaisesPassed u many_rows w = inl refl
    found-RaisesPassed u (one_row a) w = tt
    found-RaisesPassed u no_row w = downloaded-RaisesPassed w.calls u (o.download w.calls u) _ refl

    place_urls-RaisesPassed : (us : List Text) (w : FileWorld) → RaisesPassed (place_urls o id us w)
    unfolding place_urls
    place_urls-RaisesPassed [] w = tt
    place_urls-RaisesPassed (u ∷ us) w =
        then-RaisesPassed (λ a. place_urls o id us >>= (λ b. pure (both a b))) (place_url o id u w)
          (found-RaisesPassed u (find_attachment id u w.rows) w)
          (λ a w1.
            then-RaisesPassed (λ b. pure (both a b)) (place_urls o id us w1)
              (place_urls-RaisesPassed us w1) (λ b w2. tt))

    sync_urls-RaisesPassed :
        (us : List Text) (d : Text) (w : FileWorld) → RaisesPassed (sync_urls o id us d w)
    unfolding sync_urls
    sync_urls-RaisesPassed [] d w = tt
    sync_urls-RaisesPassed (u ∷ us) d w =
        then-RaisesPassed (replaced o id d) (place_urls o id (u ∷ us) w)
          (place_urls-RaisesPassed (u ∷ us) w) (λ c w1. tt)

  passed :
      {A : Type 0} (r : Outcome A × FileWorld) (e : Error)
      → RaisesPassed r
      → r.0 ≡ raised e
      → IsPassed e
  passed (returned a, w) e h k = absurd (let bad = k in cc)
  passed (raised x, w) e h k = let same : x ≡ e = cc k in subst IsPassed same h

-- A sync of attachments raises only the error of a query that finds several rows for one URL, or an
-- exception of a download that is no ValueError: uploads and the commit, whatever they do, raise
-- nothing that leaves it.
pub sync_attachments_in_description-raised :
    (o : FileCalls) (id : Option ℕ) (order : List Text → List Text) (d : Text) (w : FileWorld)
    (e : Error)
    → (sync_attachments_in_description o id order d w).0 ≡ raised e
    → IsPassed o e
unfolding sync_attachments_in_description
sync_attachments_in_description-raised o id order d w e h =
    let us = order (extract_mirror_urls_from_description d) in
    passed o (sync_urls o id us d w) e (sync_urls-RaisesPassed o id us d w) h
