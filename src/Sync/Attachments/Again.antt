-- ===== src/Sync/Attachments/Again.antt =====
-- app/core/issue_sync.py: a sync of attachments that placed them all leaves nothing to upload.
use mathlib.Core.Path.{subst}
use mirror_maestro.Common.{
  or_false, ℕ, suc, false, some, List, [], ◌∷◌, ◌++◌, any, ◌≡◌, refl, sym, ◌∙◌, ap, append_assoc,
}
use mirror_maestro.Text.{Text, eq_text}
use mirror_maestro.Errors.{Outcome, returned}
use mirror_maestro.Errors.Action.{continue, pure, ◌>>=◌}
use mirror_maestro.Errors.Returns.{After, after_then, after_mono, after_returned}
use mirror_maestro.Database.{one_row}
use mirror_maestro.Sync.Urls.{extract_mirror_urls_from_description}
use mirror_maestro.Sync.Attachments.{
  Attachment, FileCalls, FileWorld, PlacedUrls, both, find_attachment, place_found, place_url,
  place_urls, sync_urls, commit_attachments, replaced, sync_attachments_in_description,
}
use mirror_maestro.Sync.Attachments.Settled.{
  TextsDistinct, to_target, AllSucceed, eq_text_flip, look, Settles, reused, Step, found_step,
  more_settled,
}

module _ (k : ℕ) where
  place_again :
      (o : FileCalls) (u : Text) (a : Attachment) (w : FileWorld)
      → (look k) u w.rows ≡ one_row a
      → place_url o (some (suc k)) u w ≡ (returned ((reused k) (to_target u a ∷ [])), w)
  place_again o u a w e = ap (λ r. place_found o (some (suc k)) u r w) e

  place_urls_again :
      (o : FileCalls) (us : List Text) (m : List (Text × Text)) (w : FileWorld)
      → (Settles k) w.rows us m
      → place_urls o (some (suc k)) us w ≡ (returned ((reused k) m), w)
  unfolding place_urls
  place_urls_again o [] m w h = ap (λ x. (returned ((reused k) x), w)) (sym h)
  place_urls_again o (u ∷ us) m w (a, rest, e, f, h) =
      let id = some (suc k) in
      let later =
        λ (x : PlacedUrls). place_urls o id us >>= (λ (y : PlacedUrls). pure (both x y)) in
      ap (λ (r : Outcome PlacedUrls × FileWorld). continue r.0 later r.1) (place_again o u a w e)
      ∙ ap
          (λ (r : Outcome PlacedUrls × FileWorld).
            continue r.0 (λ y. pure (both ((reused k) (to_target u a ∷ [])) y)) r.1)
          (place_urls_again o us rest w h)
      ∙ ap (λ x. (returned ((reused k) x), w)) (sym f)

  module _ (o : FileCalls) (good : AllSucceed o) where
    record Loop (us : List Text) (r : List Attachment) (c : PlacedUrls) : Type 0 where
      pub others :
          (v : Text) → any (eq_text v) us ≡ false → (look k) v (c.to_add ++ r) ≡ (look k) v r
      pub settles : (Settles k) (c.to_add ++ r) us c.url_mapping

    Loop-step :
        (u : Text) (us : List Text) (r : List Attachment) (a b : PlacedUrls)
        → any (eq_text u) us ≡ false
        → (Step k) u r a
        → Loop us r b
        → Loop (u ∷ us) r (both a b)
    Loop-step u us r a b d s l =
        let assoc = append_assoc a.to_add b.to_add r in
        record {
          others = λ v h.
              let (head, tail) = or_false (eq_text v u) (any (eq_text v) us) h in
              ap ((look k) v) assoc
              ∙ (s.others v (b.to_add ++ r) (eq_text_flip v u head) ∙ l.others v tail);
          settles =
              let (x, e, f) = s.here (b.to_add ++ r) (l.others u d) in
              subst (λ y. (Settles k) y (u ∷ us) (both a b).url_mapping) (sym assoc)
                (
                  x,
                  b.url_mapping,
                  e,
                  ap (λ m. m ++ b.url_mapping) f,
                  more_settled k o good u r (b.to_add ++ r) a s us b.url_mapping d l.settles,
                );
        }

    place_urls_lem :
        (us : List Text) (r : List Attachment) (w : FileWorld)
        → TextsDistinct us
        → w.rows ≡ r
        → After (λ c w'. Loop us r c × (w'.rows ≡ r)) (place_urls o (some (suc k)) us w)
    unfolding place_urls
    place_urls_lem [] r w d e = (record { others = λ v h. refl; settles = refl }, e)
    place_urls_lem (u ∷ us) r w (d, ds) e =
        let id = some (suc k) in
        let Q = λ (c : PlacedUrls) (w' : FileWorld). Loop (u ∷ us) r c × (w'.rows ≡ r) in
        after_then Q (λ a. place_urls o id us >>= (λ b. pure (both a b))) (place_url o id u w)
          (after_mono
            (λ a w1 s.
              after_then Q (λ b. pure (both a b)) (place_urls o id us w1)
                (after_mono
                  (λ b w2 l. (Loop-step u us r a b d (subst (λ x. (Step k) u x a) e s.0) l.0, l.1))
                  (place_urls o id us w1) (place_urls_lem us r w1 ds (s.1 ∙ e))))
            (place_url o id u w) (found_step k o good u (find_attachment id u w.rows) w refl))

    committed_rows :
        (new : List Attachment) (w : FileWorld)
        → (commit_attachments o (some (suc k)) new w).rows ≡ new ++ w.rows
    committed_rows [] w = refl
    committed_rows (a ∷ new) w = rw good.commits refl

    replaced_lem :
        (d : Text) (us : List Text) (r : List Attachment) (c : PlacedUrls) (w : FileWorld)
        → Loop us r c × (w.rows ≡ r)
        → (Settles k) (commit_attachments o (some (suc k)) c.to_add w).rows us c.url_mapping
    replaced_lem d us r c w (l, e) =
        subst (λ x. (Settles k) x us c.url_mapping)
          (sym (committed_rows c.to_add w ∙ ap (λ x. c.to_add ++ x) e)) l.settles

    sync_urls_again :
        (o' : FileCalls) (us : List Text) (d : Text) (w : FileWorld)
        → TextsDistinct us
        → After
            (λ t w'. sync_urls o' (some (suc k)) us d w' ≡ (returned t, w'))
            (sync_urls o (some (suc k)) us d w)
    unfolding sync_urls
    sync_urls_again o' [] d w h = refl
    sync_urls_again o' (u ∷ us) d w h =
        let id = some (suc k) in
        let Q = λ (t : Text) (w' : FileWorld). sync_urls o' id (u ∷ us) d w' ≡ (returned t, w') in
        after_then Q (replaced o id d) (place_urls o id (u ∷ us) w) (
          after_mono
            (λ c w1 l.
              ap (λ (r : Outcome PlacedUrls × FileWorld). continue r.0 (replaced o' id d) r.1)
                (place_urls_again o' (u ∷ us) c.url_mapping (commit_attachments o id c.to_add w1)
                  (replaced_lem d (u ∷ us) w.rows c w1 l)))
            (place_urls o id (u ∷ us) w) (place_urls_lem (u ∷ us) w.rows w h refl))

-- If every download gives content, every upload a URL and the commit succeeds, the set's order has
-- each URL once, and a sync of an issue's attachments, whose mapping has an id above zero, returns:
-- the next one, whatever the calls answer then, gives the same description if the set's order is the
-- same, calls nothing and changes no row.
pub sync_attachments_in_description_again :
    (k : ℕ) (o o' : FileCalls) (order : List Text → List Text) (d t : Text) (w : FileWorld)
    → AllSucceed o
    → TextsDistinct (order (extract_mirror_urls_from_description d))
    → (sync_attachments_in_description o (some (suc k)) order d w).0 ≡ returned t
    → let after = (sync_attachments_in_description o (some (suc k)) order d w).1 in
      sync_attachments_in_description o' (some (suc k)) order d after ≡ (returned t, after)
unfolding sync_attachments_in_description
sync_attachments_in_description_again k o o' order d t w good h e =
    let us = order (extract_mirror_urls_from_description d) in
    after_returned (λ t w'. sync_urls o' (some (suc k)) us d w' ≡ (returned t, w'))
      (sync_urls o (some (suc k)) us d w) t (sync_urls_again k o good o' us d w h) e
