-- ===== src/Sync/Unique.antt =====
-- app/core/issue_sync.py: a source issue has at most one mapping.
use mirror_maestro.Common.{
  ℕ, not, ◌&&◌, ◌==◌, ◌||◌, false, List, [], ◌∷◌, ◌++◌, map, any, ◌≡◌, refl, sym, ◌∙◌, ap, ◌⊎◌, inl,
  inr, arith, Bool-cases,
}
use mirror_maestro.Text.{Text}
use mirror_maestro.Errors.{Outcome, returned, raised}
use mirror_maestro.Errors.Action.{continue}
use mirror_maestro.Database.{scalar_one_or_none, no_row, none-any}
use mirror_maestro.Issue.{Issue}
use mirror_maestro.Sync.{Stats}
use mirror_maestro.Sync.Target.{
  Outside, MappingStatus, synced, partial_sync, Mapping, World, Action, Engine, save, ◌>>=◌,
}
use mirror_maestro.Sync.Issues.{
  set_status, set_hash, roll_back, recover, finish_comments, finish_mapping, create_target_issue,
  update_target_issue,
}
use mirror_maestro.Sync.Batch.{
  Verdict, invalid, skipped, query_error, update, create, is_mapped, judge, after_call, processed,
  act, sync_issue, sync_issues,
}
use mirror_maestro.Sync.Keeps.{
  Keeps, keeps_rules, find_existing_target_issue-Keeps, place_issue-Keeps, prepare_content-Keeps,
  sync_time_tracking-Keeps, sync_state-Keeps,
}

abbrev pub source_ids : List Mapping → List ℕ
source_ids = map (λ (m : Mapping). m.source_issue_id)

abbrev pub AllDistinct : List ℕ → Type 0
AllDistinct [] = Unit
AllDistinct (i ∷ is) = (any (λ j. j == i) is ≡ false) × AllDistinct is

-- The action adds mappings for these issues, or none.
record Adds {A : Type 0} (extra : List ℕ) (m : Action A) : Type 0 where
  pub added :
      (w : World)
      → (source_ids (m w).1.mappings ≡ source_ids w.mappings)
        ⊎ (source_ids (m w).1.mappings ≡ extra ++ source_ids w.mappings)

continue-added :
    {A B : Type 0} (extra : List ℕ) (r : Outcome A) (f : A → Action B) (w : World)
    → ((a : A) → Adds extra (f a))
    → (source_ids (continue r f w).1.mappings ≡ source_ids w.mappings)
      ⊎ (source_ids (continue r f w).1.mappings ≡ extra ++ source_ids w.mappings)
continue-added extra (returned a) f w k = (k a).added w
continue-added extra (raised x) f w k = inl refl

bind-Adds :
    {A B : Type 0} (extra : List ℕ) (m : Action A) (f : A → Action B)
    → Keeps m
    → ((a : A) → Adds extra (f a))
    → Adds extra (m >>= f)
unfolding ◌>>=◌
bind-Adds extra m f h k = record {
  added = λ w. rw (sym (ap source_ids (h.kept w))) (continue-added extra (m w).0 f (m w).1 k);
}

ids-set_status :
    (i : ℕ) (s : MappingStatus) (ms : List Mapping) → source_ids (set_status i s ms) ≡ source_ids ms
ids-set_status i s [] = refl
ids-set_status i s (m ∷ ms) = elim (Bool-cases (m.source_issue_id == i)) [
  | inl e ↦ rw e (ap (λ is. m.source_issue_id ∷ is) (ids-set_status i s ms))
  | inr e ↦ rw e (ap (λ is. m.source_issue_id ∷ is) (ids-set_status i s ms))
]

ids-set_hash : (i : ℕ) (h : Text) (ms : List Mapping) → source_ids (set_hash i h ms) ≡ source_ids ms
ids-set_hash i h [] = refl
ids-set_hash i h (m ∷ ms) = elim (Bool-cases (m.source_issue_id == i)) [
  | inl e ↦ rw e (ap (λ is. m.source_issue_id ∷ is) (ids-set_hash i h ms))
  | inr e ↦ rw e (ap (λ is. m.source_issue_id ∷ is) (ids-set_hash i h ms))
]

pub judge-create :
    (e : Engine) (ms : List Mapping) (issue : Issue) (id iid : ℕ) (d : Text)
    → judge e ms issue ≡ create id iid d
    → scalar_one_or_none (is_mapped id) ms ≡ no_row
unfolding judge
judge-create e ms issue id iid d h = ground (arith, h)

any-source_ids :
    (i : ℕ) (ms : List Mapping) → any (λ j. j == i) (source_ids ms) ≡ any (is_mapped i) ms
any-source_ids i [] = refl
any-source_ids i (m ∷ ms) = ap (λ b. m.source_issue_id == i || b) (any-source_ids i ms)

kept_distinct :
    (extra before after : List ℕ)
    → AllDistinct before
    → AllDistinct (extra ++ before)
    → (after ≡ before) ⊎ (after ≡ extra ++ before)
    → AllDistinct after
kept_distinct extra before after u v (inl p) = rw p u
kept_distinct extra before after u v (inr p) = rw p v

module _ (o : Outside) (e : Engine) where
  save-ids :
      (f : List Mapping → List Mapping) (extra : List ℕ) (w : World)
      → ((ms : List Mapping) → source_ids (f ms) ≡ extra ++ source_ids ms)
      → (source_ids (save o f w).1.mappings ≡ source_ids w.mappings)
        ⊎ (source_ids (save o f w).1.mappings ≡ extra ++ source_ids w.mappings)
  unfolding save
  save-ids f extra w h = elim (Bool-cases (not w.broken && o.commit w.calls)) [
    | inl c ↦ rw c (inr (h w.mappings))
    | inr c ↦ rw c (inl refl)
  ]

  status-ids :
      (id : ℕ) (s : MappingStatus) (w : World)
      → source_ids (save o (set_status id s) w).1.mappings ≡ source_ids w.mappings
  status-ids id s w = elim (save-ids (set_status id s) [] w (ids-set_status id s)) [
    | inl same ↦ same
    | inr same ↦ same
  ]

  roll_back-ids :
      (r : Outcome (Unit {0})) (w : World)
      → source_ids (roll_back o e (r, w)).1.mappings ≡ source_ids w.mappings
  roll_back-ids (returned _) w = refl
  roll_back-ids (raised x) w = refl

  recover-ids :
      (id : ℕ) (r : Outcome (Unit {0})) (w : World)
      → source_ids (recover o e id (r, w)).1.mappings ≡ source_ids w.mappings
  recover-ids id (returned _) w = refl
  recover-ids id (raised x) w =
      let m = save o (set_status id partial_sync) in
      roll_back-ids (m w).0 (m w).1 ∙ status-ids id partial_sync w

  status-Adds : (id : ℕ) (s : MappingStatus) → Adds [] (save o (set_status id s))
  status-Adds id s = record { added = λ w. inl (status-ids id s w) }

  comments-ids :
      (id iid target_iid : ℕ) (w : World)
      → source_ids (finish_comments o e id iid target_iid w).1.mappings ≡ source_ids w.mappings
  comments-ids id iid target_iid w =
      let adds : Adds [] (finish_comments o e id iid target_iid) =
        bind-Adds _ _ _ (search keeps_rules) (λ _. status-Adds id synced) in
      elim (adds.added w) [ inl same ↦ same | inr same ↦ same ]

  rest-ids :
      (id iid target_iid : ℕ) (r : Outcome (Unit {0})) (w : World)
      → source_ids (continue r (λ _. finish_comments o e id iid target_iid) w).1.mappings
        ≡ source_ids w.mappings
  rest-ids id iid target_iid (returned _) w = comments-ids id iid target_iid w
  rest-ids id iid target_iid (raised x) w = refl

  finish-Adds :
      (change : List Mapping → List Mapping) (extra : List ℕ) (id iid target_iid : ℕ)
      → ((ms : List Mapping) → source_ids (change ms) ≡ extra ++ source_ids ms)
      → Adds extra (finish_mapping o e change id iid target_iid)
  unfolding finish_mapping ◌>>=◌
  finish-Adds change extra id iid target_iid h = record {
    added = λ w.
        let (r, w') = save o change w in
        let (r', w'') = continue r (λ _. finish_comments o e id iid target_iid) w' in
        let later = recover-ids id r' w'' ∙ rest-ids id iid target_iid r w' in
        elim (save-ids change extra w h) [
          | inl same ↦ inl (later ∙ same)
          | inr more ↦ inr (later ∙ more)
        ];
  }

  create-Adds :
      (id iid : ℕ) (issue : Issue) (d : Text)
      → Adds (id ∷ []) (create_target_issue o e id iid issue d)
  unfolding create_target_issue
  create-Adds id iid issue d = bind-Adds _ _ _ (find_existing_target_issue-Keeps o e iid) (λ found.
      bind-Adds _ _ _ (place_issue-Keeps o e issue found) (λ ids.
        bind-Adds _ _ _ (search (keeps_rules, sync_time_tracking-Keeps)) (λ _.
          bind-Adds _ _ _ (search keeps_rules) (λ _. finish-Adds _ _ id iid ids.1 (λ ms. refl)))))

  update-Adds :
      (id iid : ℕ) (issue : Issue) (m : Mapping) (d : Text)
      → Adds [] (update_target_issue o e id iid issue m d)
  unfolding update_target_issue
  update-Adds id iid issue m d = bind-Adds _ _ _ (prepare_content-Keeps o e issue) (λ content.
      bind-Adds _ _ _ (search keeps_rules) (λ _.
        bind-Adds _ _ _ (search (keeps_rules, sync_time_tracking-Keeps)) (λ _.
          bind-Adds _ _ _ (sync_state-Keeps o e issue m.target_issue_iid)
            (λ _. finish-Adds _ _ id iid m.target_issue_iid (ids-set_hash id d)))))

  after_call-world :
      (issue : Issue) (s ok : Stats) (r : Outcome (Unit {0})) (w : World)
      → (after_call issue s ok (r, w)).1 ≡ w
  after_call-world issue s ok (returned _) w = refl
  after_call-world issue s ok (raised x) w = refl

  act-AllDistinct :
      (issue : Issue) (v : Verdict) (s : Stats) (w : World)
      → ((id iid : ℕ) (d : Text) → v ≡ create id iid d → any (is_mapped id) w.mappings ≡ false)
      → AllDistinct (source_ids w.mappings)
      → AllDistinct (source_ids (act o e issue v s w).1.mappings)
  act-AllDistinct issue invalid s w fresh u = u
  act-AllDistinct issue skipped s w fresh u = u
  act-AllDistinct issue query_error s w fresh u = u
  act-AllDistinct issue (update id iid m d) s w fresh u =
      let (r, w') = update_target_issue o e id iid issue m d w in
      rw (after_call-world issue (processed s) _ r w')
        (kept_distinct [] _ _ u u ((update-Adds id iid issue m d).added w))
  act-AllDistinct issue (create id iid d) s w fresh u =
      let (r, w') = create_target_issue o e id iid issue d w in
      rw (after_call-world issue (processed s) _ r w') (
        kept_distinct (id ∷ []) _ _ u (any-source_ids id w.mappings ∙ fresh id iid d refl, u)
          ((create-Adds id iid issue d).added w))

  -- However the calls end, a sync leaves at most one mapping for each source issue if it finds so.
  pub sync_issues-AllDistinct :
      (issues : List Issue) (s : Stats) (w : World)
      → AllDistinct (source_ids w.mappings)
      → AllDistinct (source_ids (sync_issues o e issues s w).1.mappings)
  unfolding sync_issues sync_issue
  sync_issues-AllDistinct [] s w u = u
  sync_issues-AllDistinct (issue ∷ issues) s w u =
      let (s', w') = act o e issue (judge e w.mappings issue) s w in
      sync_issues-AllDistinct issues s' w' (
        act-AllDistinct issue (judge e w.mappings issue) s w
          (λ id iid d h.
            none-any (is_mapped id) w.mappings (judge-create e w.mappings issue id iid d h))
          u)
