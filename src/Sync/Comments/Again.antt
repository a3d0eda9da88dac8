-- ===== src/Sync/Comments/Again.antt =====
-- app/core/issue_sync.py: a sync of comments that returns leaves nothing to do for the next one.
use mathlib.Core.Path.{subst}
use mirror_maestro.Common.{
  or_false, ℕ, ◌+◌, Bool, true, false, Option, none, some, List, [], ◌∷◌, ◌++◌, All, any, ◌≡◌, refl,
  sym, ◌∙◌, ap, inl, inr, Bool-cases, ◌≢◌, append_assoc, arith, ◌==◌,
}
use mirror_maestro.Text.{Text, eq_text_iff}
use mirror_maestro.Errors.Returns.{After, after_then, after_mono, after_returned}
use mirror_maestro.Errors.{Outcome, returned}
use mirror_maestro.Errors.Action.{continue, pure, ◌>>=◌}
use mirror_maestro.Sync.Comments.{
  Note, Comment, NoteCalls, NoteWorld, Changes, find_comment, user_notes, no_changes, joined,
  place_note, sync_note, sync_notes, has_changes, commit_notes, sync_comments,
}
use mirror_maestro.Sync.Comments.Mapped.{is_id, has_note_id, MapsTo, IsMapped, Step, sync_note_lem}

-- The ids of the notes are distinct.
abbrev pub same_as : Option ℕ → Note → Bool
same_as none m = false
same_as (some i) m = has_note_id i m

abbrev pub same_id : Note → Note → Bool
same_id n m = same_as n.id m

abbrev pub IdsDistinct : List Note → Type 0
IdsDistinct [] = Unit
IdsDistinct (n ∷ ns) = (any (same_id n) ns ≡ false) × IdsDistinct ns

-- What the loop does to the rows.
pub record Loop (hash : Text → Text) (ns : List Note) (r : List Comment) (new : Changes)
    (r' : List Comment) : Type 0 where
  pub others :
      (j : ℕ)
      → any (has_note_id j) ns ≡ false
      → find_comment j (new.to_add ++ r') ≡ find_comment j r
  pub mapped : All (λ n. IsMapped hash n (new.to_add ++ r')) ns

any-same_as :
    (j : ℕ) (o : Option ℕ) (ns : List Note)
    → is_id j o ≡ true
    → any (same_as o) ns ≡ any (has_note_id j) ns
any-same_as j none ns h = cc h
any-same_as j (some i) ns h =
    let same : i ≡ j = ground (arith, h) in ap (λ k. any (has_note_id k) ns) same

flipped : (i j : ℕ) → j == i ≡ false → i == j ≡ false
flipped i j e = ground arith

-- Two notes with distinct ids.
apart : (o : Option ℕ) (m : Note) (j : ℕ) → m.id ≡ some j → same_as o m ≡ false → is_id j o ≡ false
apart none m j e h = refl
apart (some i) m j e h = let other : j == i ≡ false = (rw e at h) in flipped i j other

maps_more :
    (digest : Text) (o : Option ℕ) (new X : List Comment)
    → ((j : ℕ) → o ≡ some j → find_comment j (new ++ X) ≡ find_comment j X)
    → MapsTo digest o X
    → MapsTo digest o (new ++ X)
maps_more digest none new X f h = tt
maps_more digest (some i) new X f (c, e, h) = (c, f i refl ∙ e, h)

module _ (hash : Text → Text) (n : Note) (ns : List Note) (a b : Changes)
    (r r1 r2 : List Comment) where
  IsMapped-more :
      (X : List Comment)
      → Step hash n r a r1
      → (ms : List Note) → any (same_id n) ms ≡ false
      → All (λ m. IsMapped hash m X) ms
      → All (λ m. IsMapped hash m (a.to_add ++ X)) ms
  IsMapped-more X s [] d h = tt
  IsMapped-more X s (m ∷ ms) d (h, hs) =
      let (here, later) = or_false (same_id n m) (any (same_id n) ms) d in
      (
        maps_more (hash m.body) m.id a.to_add X (λ j e. s.others_new j X (apart n.id m j e here)) h,
        IsMapped-more X s ms later hs,
      )

  Loop-step :
      any (same_id n) ns ≡ false
      → Step hash n r a r1
      → Loop hash ns r1 b r2
      → Loop hash (n ∷ ns) r (joined a b) r2
  Loop-step d s l = record {
    others = λ j k.
        let here : has_note_id j n ≡ false =
          (or_false (has_note_id j n) (any (has_note_id j) ns) k).0 in
        let rest : any (has_note_id j) ns ≡ false =
          (or_false (has_note_id j n) (any (has_note_id j) ns) k).1 in
        rw (append_assoc a.to_add b.to_add r2)
          (s.others_new j (b.to_add ++ r2) here ∙ (l.others j rest ∙ s.others_rows j here));
    mapped =
        subst (λ Y. All (λ m. IsMapped hash m Y) (n ∷ ns)) (sym (append_assoc a.to_add b.to_add r2))
          (
            s.mapped (b.to_add ++ r2) (λ j h. l.others j (sym (any-same_as j n.id ns h) ∙ d)),
            IsMapped-more (b.to_add ++ r2) s ns d l.mapped,
          );
  }

elim_entries :
    (xs : List Comment) (u : Bool) → (elim xs [ [] ↦ u | y ∷ ys ↦ true ]) ≡ false → xs ≡ []
elim_entries [] u h = refl
elim_entries (x ∷ xs) u h = cc h

module _ (o : NoteCalls) (ids : (n : ℕ) → o.create n ≢ returned none) where
  sync_notes_lem :
      (ns : List Note) (w : NoteWorld)
      → IdsDistinct ns
      → After (λ c w'. Loop o.content_hash ns w.rows c w'.rows) (sync_notes o ns w)
  unfolding sync_notes
  sync_notes_lem [] w d = record { others = λ j e. refl; mapped = tt }
  sync_notes_lem (n ∷ ns) w (d, ds) =
      let Q = λ (c : Changes) (w' : NoteWorld). Loop o.content_hash (n ∷ ns) w.rows c w'.rows in
      after_then Q (λ a. sync_notes o ns >>= (λ b. pure (joined a b))) (sync_note o n w)
        (after_mono
          (λ a w1 s.
            after_then Q (λ b. pure (joined a b)) (sync_notes o ns w1)
              (after_mono (λ b w2 l. Loop-step o.content_hash n ns a b w.rows w1.rows w2.rows d s l)
                (sync_notes o ns w1) (sync_notes_lem ns w1 ds)))
          (sync_note o n w) (sync_note_lem o ids n w))

  no_entries : (c : Changes) → has_changes o c ≡ false → c.to_add ≡ []
  no_entries c h = elim_entries c.to_add c.updated h

  commit_notes_lem :
      (before : List Comment) (ns : List Note) (c : Changes) (w : NoteWorld) (r : List Comment)
      → Loop o.content_hash ns r c w.rows
      → After (λ u w'. All (λ n. IsMapped o.content_hash n w'.rows) ns) (commit_notes o before c w)
  commit_notes_lem before ns c w r l = elim (Bool-cases (has_changes o c)) [
    | inl h ↦ rw h (elim (Bool-cases o.commit) [ inl k ↦ rw k l.mapped | inr k ↦ rw k tt ])
    | inr h ↦ rw h (
        subst (λ x. All (λ n. IsMapped o.content_hash n (x ++ w.rows)) ns) (no_entries c h)
          l.mapped)
  ]

  sync_comments_lem :
      (ns : List Note) (w : NoteWorld)
      → IdsDistinct (user_notes ns)
      → o.get_notes w.calls ≡ returned ns
      → After
          (λ u w'. All (λ n. IsMapped o.content_hash n w'.rows) (user_notes ns))
          (sync_comments o w)
  unfolding sync_comments
  sync_comments_lem ns w d e =
      let started = record w { calls = w.calls + 1 } in
      let Q = λ (u : Unit {0}) (w' : NoteWorld).
        All (λ n. IsMapped o.content_hash n w'.rows) (user_notes ns) in
      let read = λ (xs : List Note). sync_notes o (user_notes xs) >>= commit_notes o w.rows in
      subst (λ r. After Q (continue r read started)) (sym e)
        (after_then Q (commit_notes o w.rows) (sync_notes o (user_notes ns) started) (
          after_mono (λ c w2 l. commit_notes_lem w.rows (user_notes ns) c w2 w.rows l)
            (sync_notes o (user_notes ns) started) (sync_notes_lem (user_notes ns) started d)))

module _ (o : NoteCalls) where
  place_again :
      (i : ℕ) (body : Text) (w : NoteWorld)
      → MapsTo (o.content_hash body) (some i) w.rows
      → place_note o i body (find_comment i w.rows) w ≡ (returned no_changes, w)
  place_again i body w (c, e, h) =
      let same = (eq_text_iff c.source_content_hash (o.content_hash body)).1 h in
      subst (λ m. place_note o i body m w ≡ (returned no_changes, w)) (sym e) (rw same refl)

  note_again :
      (n : Note) (w : NoteWorld)
      → IsMapped o.content_hash n w.rows
      → sync_note o n w ≡ (returned no_changes, w)
  note_again n w h =
      elim n.id
          as (λ m.
            MapsTo (o.content_hash n.body) m w.rows
            → sync_note o record n { id = m } w ≡ (returned no_changes, w)) [
              | none ↦ λ k. refl
              | some i ↦ λ k. place_again i n.body w k
            ]
        h

  notes_again :
      (ns : List Note) (w : NoteWorld)
      → All (λ n. IsMapped o.content_hash n w.rows) ns
      → sync_notes o ns w ≡ (returned no_changes, w)
  unfolding sync_notes
  notes_again [] w h = refl
  notes_again (n ∷ ns) w (h, hs) =
      let later = λ (a : Changes). sync_notes o ns >>= (λ (b : Changes). pure (joined a b)) in
      ap (λ (r : Outcome Changes × NoteWorld). continue r.0 later r.1) (note_again n w h)
      ∙ ap (λ (r : Outcome Changes × NoteWorld). continue r.0 (λ b. pure (joined no_changes b)) r.1)
          (notes_again ns w hs)

  comments_again :
      (ns : List Note) (w : NoteWorld)
      → o.get_notes w.calls ≡ returned ns
      → All (λ n. IsMapped o.content_hash n w.rows) (user_notes ns)
      → sync_comments o w ≡ (returned tt, record w { calls = w.calls + 1 })
  unfolding sync_comments
  comments_again ns w e h =
      let started = record w { calls = w.calls + 1 } in
      let read = λ (xs : List Note). sync_notes o (user_notes xs) >>= commit_notes o w.rows in
      ap (λ (r : Outcome (List Note)). continue r read started) e
      ∙ ap (λ (r : Outcome Changes × NoteWorld). continue r.0 (commit_notes o w.rows) r.1)
          (notes_again (user_notes ns) started h)

-- If each comment that GitLab creates has an id, the source's notes have distinct ids, and a sync of
-- them returns: the next one that is given the same notes returns too, makes no request that writes
-- and changes no row.
pub sync_comments_again :
    (o : NoteCalls) (ns : List Note) (w : NoteWorld)
    → ((n : ℕ) → o.create n ≢ returned none)
    → IdsDistinct (user_notes ns)
    → o.get_notes w.calls ≡ returned ns
    → o.get_notes (sync_comments o w).1.calls ≡ returned ns
    → (sync_comments o w).0 ≡ returned tt
    → let after = (sync_comments o w).1 in
      sync_comments o after ≡ (returned tt, record after { calls = after.calls + 1 })
sync_comments_again o ns w ids d e f r = comments_again o ns (sync_comments o w).1 f (
    after_returned (λ u w'. All (λ n. IsMapped o.content_hash n w'.rows) (user_notes ns))
      (sync_comments o w) tt (sync_comments_lem o ids ns w d e) r)
