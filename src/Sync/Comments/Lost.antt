-- ===== src/Sync/Comments/Lost.antt =====
-- app/core/issue_sync.py: a sync of comments that raises keeps no mapping of what it has created.
use mathlib.Core.Path.{subst}
use mirror_maestro.Common.{
  ℕ, ◌+◌, false, Option, none, some, List, [], ◌∷◌, map, ◌≡◌, refl, sym, ◌∙◌, ap, inl, inr,
  Bool-cases, ◌==◌,
}
use mirror_maestro.Text.{Text, eq_text}
use mirror_maestro.Errors.{Error, Outcome, returned, raised}
use mirror_maestro.Errors.Action.{continue, pure, ◌>>=◌}
use mirror_maestro.Sync.Comments.{
  Note, Comment, create_note, NoteCalls, NoteWorld, Changes, find_comment, set_comment_hash,
  user_notes, joined, updated_note, created_note, place_note, sync_note, sync_notes, has_changes,
  commit_notes, sync_comments,
}

-- The rows answer for an id as before.
abbrev SameIds : List Comment → List Comment → Type 0
SameIds r r' = map Comment.source_note_id r' ≡ map Comment.source_note_id r

set_comment_hash_ids : (i : ℕ) (h : Text) (cs : List Comment) → SameIds cs (set_comment_hash i h cs)
unfolding set_comment_hash
set_comment_hash_ids i h [] = refl
set_comment_hash_ids i h (c ∷ cs) = elim (Bool-cases (c.source_note_id == i)) [
  | inl k ↦ rw k refl
  | inr k ↦ rw k (ap (λ x. c.source_note_id ∷ x) (set_comment_hash_ids i h cs))
]

module _ (o : NoteCalls) where
  created_ids :
      (i : ℕ) (h : Text) (x : Outcome (Option ℕ)) (w : NoteWorld)
      → SameIds w.rows (created_note o i h x w).1.rows
  created_ids i h (raised e) w = refl
  created_ids i h (returned none) w = refl
  created_ids i h (returned (some t)) w = refl

  updated_ids :
      (i : ℕ) (h : Text) (x : Outcome (Unit {0})) (w : NoteWorld)
      → SameIds w.rows (updated_note o i h x w).1.rows
  updated_ids i h (raised e) w = refl
  updated_ids i h (returned u) w = set_comment_hash_ids i h w.rows

  place_note_ids :
      (i : ℕ) (body : Text) (m : Option Comment) (w : NoteWorld)
      → SameIds w.rows (place_note o i body m w).1.rows
  place_note_ids i body none w = created_ids i (o.content_hash body) (o.create w.calls) _
  place_note_ids i body (some c) w =
      elim (Bool-cases (eq_text c.source_content_hash (o.content_hash body))) [
        | inl h ↦ rw h refl
        | inr h ↦ rw h (updated_ids i (o.content_hash body) (o.update w.calls) _)
      ]

  sync_note_ids : (n : Note) (w : NoteWorld) → SameIds w.rows (sync_note o n w).1.rows
  sync_note_ids n w =
      elim n.id as (λ m. SameIds w.rows (sync_note o record n { id = m } w).1.rows) [
        | none ↦ refl
        | some i ↦ place_note_ids i n.body (find_comment i w.rows) w
      ]

  -- An action and what follows it.
  then_ids :
      {A B : Type 0} (r : List Comment) (f : A → NoteWorld → Outcome B × NoteWorld)
      (x : Outcome A × NoteWorld)
      → SameIds r x.1.rows
      → ((a : A) (w : NoteWorld) → SameIds r w.rows → SameIds r (f a w).1.rows)
      → SameIds r (continue x.0 f x.1).1.rows
  then_ids r f (returned a, w) h k = k a w h
  then_ids r f (raised e, w) h k = h

  sync_notes_ids :
      (ns : List Note) (r : List Comment) (w : NoteWorld)
      → SameIds r w.rows
      → SameIds r (sync_notes o ns w).1.rows
  unfolding sync_notes
  sync_notes_ids [] r w h = h
  sync_notes_ids (n ∷ ns) r w h =
      then_ids r (λ a. sync_notes o ns >>= (λ b. pure (joined a b))) (sync_note o n w)
        (sync_note_ids n w ∙ h)
        (λ a w1 k.
          then_ids r (λ b. pure (joined a b)) (sync_notes o ns w1) (sync_notes_ids ns r w1 k)
            (λ b w2 l. l))

  -- Either the ids are as before, or the action has returned.
  abbrev Kept : List Comment → Outcome (Unit {0}) × NoteWorld → Type 0
  Kept r (returned u, w) = Unit
  Kept r (raised e, w) = SameIds r w.rows

  then-Kept :
      {A : Type 0} (r : List Comment) (f : A → NoteWorld → Outcome (Unit {0}) × NoteWorld)
      (x : Outcome A × NoteWorld)
      → SameIds r x.1.rows
      → ((a : A) (w : NoteWorld) → SameIds r w.rows → Kept r (f a w))
      → Kept r (continue x.0 f x.1)
  then-Kept r f (returned a, w) h k = k a w h
  then-Kept r f (raised e, w) h k = h

  commit-Kept : (r : List Comment) (c : Changes) (w : NoteWorld) → Kept r (commit_notes o r c w)
  commit-Kept r c w = elim (Bool-cases (has_changes o c)) [
    | inl h ↦ rw h (elim (Bool-cases o.commit) [ inl k ↦ rw k tt | inr k ↦ rw k refl ])
    | inr h ↦ rw h tt
  ]

  sync_comments-Kept : (w : NoteWorld) → Kept w.rows (sync_comments o w)
  unfolding sync_comments
  sync_comments-Kept w =
      then-Kept w.rows (λ ns. sync_notes o (user_notes ns) >>= commit_notes o w.rows)
        (o.get_notes w.calls, record w { calls = w.calls + 1 }) refl
        (λ ns w1 h.
          then-Kept w.rows (commit_notes o w.rows) (sync_notes o (user_notes ns) w1)
            (sync_notes_ids (user_notes ns) w.rows w1 h) (λ c w2 k. commit-Kept w.rows c w2))

Kept-raised :
    (o : NoteCalls) (r : List Comment) (x : Outcome (Unit {0}) × NoteWorld) (e : Error)
    → Kept o r x
    → x.0 ≡ raised e
    → SameIds r x.1.rows
Kept-raised o r (returned u, w) e k h = absurd (let bad = h in cc)
Kept-raised o r (raised x, w) e k h = k

-- Rows with the same ids have no row for the same ids.
cons_inj : (x y : ℕ) (xs ys : List ℕ) → x ∷ xs ≡ y ∷ ys → (x ≡ y) × (xs ≡ ys)
cons_inj x y xs ys e = (cc e, cc e)

created_requests :
    (o : NoteCalls) (i : ℕ) (h : Text) (x : Outcome (Option ℕ)) (w : NoteWorld)
    → (created_note o i h x w).1.requests ≡ w.requests
created_requests o i h (raised e) w = refl
created_requests o i h (returned none) w = refl
created_requests o i h (returned (some t)) w = refl

place_none_requests :
    (o : NoteCalls) (i : ℕ) (body : Text) (w : NoteWorld)
    → (place_note o i body none w).1.requests ≡ create_note body ∷ w.requests
place_none_requests o i body w = created_requests o i (o.content_hash body) (o.create w.calls) _

find-SameIds :
    (i : ℕ) (r r' : List Comment)
    → SameIds r r'
    → find_comment i r ≡ none
    → find_comment i r' ≡ none
unfolding find_comment
find-SameIds i [] [] s e = refl
find-SameIds i [] (c ∷ cs) s e = absurd (let bad = s in cc)
find-SameIds i (d ∷ ds) [] s e = refl
find-SameIds i (d ∷ ds) (c ∷ cs) s e =
    let (head, tail) = cons_inj c.source_note_id d.source_note_id _ _ s in
    elim (Bool-cases (d.source_note_id == i)) [
      | inl k ↦ absurd (let bad = (rw k at e) in cc)
      | inr k ↦
          let other : c.source_note_id == i ≡ false = rw head k in
          rw other (find-SameIds i ds cs tail (rw k at e))
    ]

-- If a sync of comments raises, a note with an id that had no mapping before has none after it,
-- whether or not its comment was created: a further sync creates the comment.
pub created_again :
    (o : NoteCalls) (w : NoteWorld) (e : Error) (n : Note) (i : ℕ)
    → (sync_comments o w).0 ≡ raised e
    → n.id ≡ some i
    → find_comment i w.rows ≡ none
    → let after = (sync_comments o w).1 in
      (find_comment i after.rows ≡ none)
      × ((sync_note o n after).1.requests ≡ create_note n.body ∷ after.requests)
created_again o w e n i r k f =
    let after = (sync_comments o w).1 in
    let none_left =
      find-SameIds i w.rows after.rows
        (Kept-raised o w.rows (sync_comments o w) e (sync_comments-Kept o w) r) f in
    let placed =
      subst (λ m. (place_note o i n.body m after).1.requests ≡ create_note n.body ∷ after.requests)
        (sym none_left) (place_none_requests o i n.body after) in
    (
      none_left,
      subst
          (λ m.
            (sync_note o record n { id = m } after).1.requests
            ≡ create_note n.body ∷ after.requests)
          (sym k) placed,
    )
