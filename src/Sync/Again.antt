-- ===== src/Sync/Again.antt =====
-- app/core/issue_sync.py: an issue that was mirrored is given to the engine again.
use mathlib.Core.Path.{subst}
use mirror_maestro.Common.{
  not, ◌&&◌, ℕ, ◌+◌, true, false, Option, none, some, List, [], ◌∷◌, any, ◌≡◌, refl, sym, ◌∙◌, ap,
  inl, inr, arith, Bool-cases,
}
use mirror_maestro.Text.{Text, eq_text_self}
use mirror_maestro.Errors.{Outcome, returned, raised}
use mirror_maestro.Errors.Action.{continue}
use mirror_maestro.Database.{scalar_one_or_none, Row, no_row, one_row, many_rows, none-any}
use mirror_maestro.Issue.{Issue}
use mirror_maestro.Sync.{Stats}
use mirror_maestro.Sync.Target.{
  Outside, MappingStatus, synced, partial_sync, Mapping, World, Action, Engine, save, ask, ◌>>=◌,
}
use mirror_maestro.Sync.Issues.{
  when, set_status, roll_back, recover, finish_comments, finish_mapping, create_target_issue,
}
use mirror_maestro.Sync.Batch.{
  skipped, create, digest_of, is_mapped, came_from_target, judge_mapping, judge_issue, judge,
  processed, sync_issue,
}
use mirror_maestro.Sync.Keeps.{
  Keeps, keeps_rules, find_existing_target_issue-Keeps, place_issue-Keeps, sync_time_tracking-Keeps,
}
use mirror_maestro.Sync.Unique.{judge-create}

-- After a return, the rows are those before and one for the issue with the digest.
abbrev Placed : ℕ → Text → List Mapping → Outcome (Unit {0}) × World → Type 0
Placed id d before (raised x, w) = Unit
Placed id d before (returned _, w) =
    (m : Mapping) × (m.source_issue_id ≡ id)
    × (m.source_content_hash ≡ d)
    × (s : MappingStatus) × (w.mappings ≡ set_status id s (m ∷ before))

-- So the action ends if no commit fails.
record Places (id : ℕ) (d : Text) (m : Action Unit) : Type 0 where
  pub placed : (w : World) → w.broken ≡ false → Placed id d w.mappings (m w)

continue-Placed :
    {A : Type 0} (id : ℕ) (d : Text) (r : Outcome A) (f : A → Action Unit) (w : World)
    → w.broken ≡ false
    → ((a : A) → Places id d (f a))
    → Placed id d w.mappings (continue r f w)
continue-Placed id d (returned a) f w b k = (k a).placed w b
continue-Placed id d (raised x) f w b k = tt

bind-Places :
    {A : Type 0} (id : ℕ) (d : Text) (m : Action A) (f : A → Action Unit)
    → Keeps m
    → ((a : A) → Places id d (f a))
    → Places id d (m >>= f)
unfolding ◌>>=◌
bind-Places id d m f h k = record {
  placed = λ w b.
      subst (λ before. Placed id d before (continue (m w).0 f (m w).1)) (h.kept w)
        (continue-Placed id d (m w).0 f (m w).1 (h.whole w ∙ b) k);
}

module _ (o : Outside) (e : Engine) (commits : (n : ℕ) → o.commit n ≡ true) where
  save-eq :
      (f : List Mapping → List Mapping) (w : World)
      → w.broken ≡ false
      → save o f w ≡ (returned tt, record w { calls = w.calls + 1; mappings = f w.mappings })
  unfolding save
  save-eq f w b =
      let goes : not w.broken && o.commit w.calls ≡ true = ground (arith, b, commits w.calls) in
      rw goes refl

  recover-Placed :
      (id : ℕ) (m : Mapping) (before : List Mapping) (r : Outcome (Unit {0})) (w : World)
      → w.broken ≡ false
      → m.source_issue_id ≡ id
      → w.mappings ≡ m ∷ before
      → Placed id m.source_content_hash before
          (recover o e id (continue r (λ _. save o (set_status id synced)) w))
  recover-Placed id m before (returned _) w b p q =
      subst (λ r. Placed id m.source_content_hash before (recover o e id r))
        (sym (save-eq (set_status id synced) w b)) (m, p, refl, synced, ap (set_status id synced) q)
  recover-Placed id m before (raised x) w b p q =
      subst (λ r. Placed id m.source_content_hash before (roll_back o e r))
        (sym (save-eq (set_status id partial_sync) w b))
        (m, p, refl, partial_sync, ap (set_status id partial_sync) q)

  finish-Places :
      (id iid target_iid : ℕ) (m : Mapping)
      → m.source_issue_id ≡ id
      → Places id m.source_content_hash (finish_mapping o e (λ ms. m ∷ ms) id iid target_iid)
  unfolding ◌>>=◌ finish_mapping
  finish-Places id iid target_iid m p =
      let call : Action Unit = when e.sync_comments (ask (λ n. o.comments n iid target_iid)) in
      let keeps : Keeps call = search keeps_rules in
      record {
        placed = λ w b.
            let w' : World = record w { calls = w.calls + 1; mappings = m ∷ w.mappings } in
            subst
              (λ (r : Outcome (Unit {0}) × World).
                Placed id m.source_content_hash w.mappings
                  (recover o e id (continue r.0 (λ _. finish_comments o e id iid target_iid) r.1)))
              (sym (save-eq (λ ms. m ∷ ms) w b))
              (recover-Placed id m w.mappings (call w').0 (call w').1 (keeps.whole w' ∙ b) p
                (keeps.kept w'));
      }

  create-Places :
      (id iid : ℕ) (issue : Issue) (d : Text) → Places id d (create_target_issue o e id iid issue d)
  unfolding create_target_issue
  create-Places id iid issue d =
      bind-Places _ _ _ _ (find_existing_target_issue-Keeps o e iid) (λ found.
        bind-Places _ _ _ _ (place_issue-Keeps o e issue found) (λ ids.
          bind-Places _ _ _ _ (search (keeps_rules, sync_time_tracking-Keeps)) (λ _.
            bind-Places _ _ _ _ (search keeps_rules) (λ _. finish-Places id iid ids.1 _ refl))))

set_status-unmapped :
    (id : ℕ) (s : MappingStatus) (ms : List Mapping)
    → any (is_mapped id) ms ≡ false
    → set_status id s ms ≡ ms
set_status-unmapped id s [] e = refl
set_status-unmapped id s (m ∷ ms) e =
    let here : is_mapped id m ≡ false = ground (arith, e) in
    let rest : any (is_mapped id) ms ≡ false = ground (arith, e) in
    rw here (ap (λ ks. m ∷ ks) (set_status-unmapped id s ms rest))

placed-row :
    (id : ℕ) (s : MappingStatus) (m : Mapping) (ms : List Mapping)
    → m.source_issue_id ≡ id
    → any (is_mapped id) ms ≡ false
    → scalar_one_or_none (is_mapped id) (set_status id s (m ∷ ms))
      ≡ one_row (record m { sync_status = s })
placed-row id s m ms p e =
    let here : is_mapped id m ≡ true = ground (arith, p) in
    rw (set_status-unmapped id s ms e, here, here, e) refl

created-eq :
    (e : Engine) (i n id iid : ℕ) (digest d : Text) (rows : Row Mapping)
    → judge_mapping e i n digest rows ≡ create id iid d
    → (i ≡ id) × (digest ≡ d)
created-eq e i n id iid digest d no_row h = (cc, cc)
created-eq e i n id iid digest d many_rows h = ground (arith, h)
created-eq e i n id iid digest d (one_row m) h = ground (arith, h)

mapped-skipped :
    (e : Engine) (i n : ℕ) (m : Mapping)
    → judge_mapping e i n m.source_content_hash (one_row m) ≡ skipped
mapped-skipped e i n m = ground (arith, eq_text_self m.source_content_hash)

judge-again :
    (e : Engine) (issue : Issue) (before after : List Mapping) (m : Mapping) (oi on : Option ℕ)
    (id iid : ℕ) (d : Text)
    → judge_issue e before issue oi on ≡ create id iid d
    → m.source_content_hash ≡ d
    → scalar_one_or_none (is_mapped id) after ≡ one_row m
    → judge_issue e after issue oi on ≡ skipped
judge-again e issue before after m (some i) (some n) id iid d h p q =
    elim (Bool-cases (came_from_target e issue)) [
      | inl c ↦ let bad : skipped ≡ create id iid d = (rw c at h) in ground (arith, bad)
      | inr c ↦
          let made : judge_mapping e i n (digest_of e issue)
                (scalar_one_or_none (is_mapped i) before)
              ≡ create id iid d =
            (rw c at h) in
          let (same_id, same_digest) = created-eq e i n id iid _ d _ made in
          rw (c, same_id, q, same_digest ∙ sym p) (mapped-skipped e id n m)
    ]
judge-again e issue before after m (some i) none id iid d h p q = ground (arith, h)
judge-again e issue before after m none on id iid d h p q = ground (arith, h)

-- Where no commit fails and no rollback is due, an issue that `_sync_issue` has mirrored without an
-- exception is skipped the next time it is given, with no call and no change to the mappings.
pub sync_issue_again :
    (o : Outside) (e : Engine) (issue : Issue) (id iid : ℕ) (d : Text) (w w' : World) (s : Stats)
    → ((n : ℕ) → o.commit n ≡ true)
    → w.broken ≡ false
    → judge e w.mappings issue ≡ create id iid d
    → create_target_issue o e id iid issue d w ≡ (returned tt, w')
    → sync_issue o e issue s w'
      ≡ (record (processed s) { issues_skipped = s.issues_skipped + 1 }, w')
unfolding sync_issue judge
sync_issue_again o e issue id iid d w w' s commits b j made =
    let fresh = none-any (is_mapped id) w.mappings (judge-create e w.mappings issue id iid d j) in
    let placed : Placed id d w.mappings (returned tt, w') =
      subst (Placed id d w.mappings) made ((create-Places o e commits id iid issue d).placed w b) in
    let (m, same_id, same_digest, status, after) = placed in
    let row =
      ap (scalar_one_or_none (is_mapped id)) after
      ∙ placed-row id status m w.mappings same_id fresh in
    rw (judge-again e issue w.mappings w'.mappings _ issue.id issue.iid id iid d j same_digest row)
      refl
