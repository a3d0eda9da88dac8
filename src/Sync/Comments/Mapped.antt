-- ===== src/Sync/Comments/Mapped.antt =====
-- app/core/issue_sync.py: what the body of the loop over the notes does to the rows.
use mirror_maestro.Common.{
  some_inj, ℕ, Bool, true, false, Option, none, some, List, [], ◌∷◌, ◌++◌, ◌≡◌, refl, ◌∙◌, ap, inl,
  inr, Bool-cases, Option-cases, ◌≢◌, arith, ◌==◌, if◌then◌else◌,
}
use mirror_maestro.Text.{Text, eq_text, eq_text_iff}
use mirror_maestro.Errors.Returns.{After}
use mirror_maestro.Errors.{Outcome, returned, raised}
use mirror_maestro.Sync.Comments.{
  Note, Comment, NoteCalls, NoteWorld, Changes, find_comment, set_comment_hash, no_changes,
  updated_note, created_note, place_note, sync_note,
}

abbrev pub is_id : ℕ → Option ℕ → Bool
is_id j none = false
is_id j (some i) = i == j

abbrev pub has_note_id : ℕ → Note → Bool
has_note_id j n = is_id j n.id

-- The row of the id, if any, is of the note's content.
abbrev pub MapsTo : Text → Option ℕ → List Comment → Type 0
MapsTo digest none rows = Unit
MapsTo digest (some i) rows =
    (c : Comment) × (find_comment i rows ≡ some c) × (c.source_content_hash ≡ digest)

abbrev pub IsMapped : (Text → Text) → Note → List Comment → Type 0
IsMapped hash n rows = MapsTo (hash n.body) n.id rows

find-set_comment_hash :
    (i : ℕ) (h : Text) (c : Comment) (cs : List Comment)
    → find_comment i cs ≡ some c
    → find_comment i (set_comment_hash i h cs) ≡ some (record c { source_content_hash = h })
unfolding find_comment set_comment_hash
find-set_comment_hash i h c [] e = cc e
find-set_comment_hash i h c (d ∷ cs) e = elim (Bool-cases (d.source_note_id == i)) [
  | inl k ↦
      let same : d ≡ c = some_inj d c (rw k at e) in
      rw k (rw k (ap (λ (x : Comment). some (record x { source_content_hash = h })) same))
  | inr k ↦ rw k (rw k (find-set_comment_hash i h c cs (rw k at e)))
]

find-set_comment_hash_other :
    (i j : ℕ) (h : Text) (cs : List Comment)
    → i == j ≡ false
    → find_comment j (set_comment_hash i h cs) ≡ find_comment j cs
unfolding find_comment set_comment_hash
find-set_comment_hash_other i j h [] n = refl
find-set_comment_hash_other i j h (d ∷ cs) n = elim (Bool-cases (d.source_note_id == i)) [
  | inl k ↦ let other : d.source_note_id == j ≡ false = ground (arith, k, n) in rw k (rw other refl)
  | inr k ↦ rw k (
      ap (λ r. if d.source_note_id == j then some d else r)
        (find-set_comment_hash_other i j h cs n))
]

-- What the step for a note does to the rows, where `X` are the rows and the entries to add that
-- come later.
pub record Step (hash : Text → Text) (n : Note) (r : List Comment) (new : Changes)
    (r' : List Comment) : Type 0 where
  pub others_rows : (j : ℕ) → has_note_id j n ≡ false → find_comment j r' ≡ find_comment j r
  pub others_new :
      (j : ℕ) (X : List Comment)
      → has_note_id j n ≡ false
      → find_comment j (new.to_add ++ X) ≡ find_comment j X
  pub mapped :
      (X : List Comment)
      → ((j : ℕ) → has_note_id j n ≡ true → find_comment j X ≡ find_comment j r')
      → IsMapped hash n (new.to_add ++ X)

eq_refl : (i : ℕ) → i == i ≡ true
eq_refl i = ground arith

other_id : (n : Note) (i j : ℕ) → n.id ≡ some i → has_note_id j n ≡ false → i == j ≡ false
other_id n i j e k = (rw e at k)

has_id_of : (n : Note) (i : ℕ) → n.id ≡ some i → has_note_id i n ≡ true
has_id_of n i e = rw e (eq_refl i)

module _ (o : NoteCalls) where
  -- A note whose mapping is up to date.
  same_note :
      (n : Note) (i : ℕ) (c : Comment) (r : List Comment)
      → n.id ≡ some i
      → find_comment i r ≡ some c
      → c.source_content_hash ≡ o.content_hash n.body
      → Step o.content_hash n r no_changes r
  same_note n i c r e f h = record {
    others_rows = λ j k. refl;
    others_new = λ j X k. refl;
    mapped = λ X same. rw e (c, (same i (has_id_of n i e)) ∙ f, h);
  }

  updated_step :
      (n : Note) (i : ℕ) (c : Comment) (r : List Comment)
      → n.id ≡ some i
      → find_comment i r ≡ some c
      → Step o.content_hash n r
          record { to_add = []; updated = true }
          (set_comment_hash i (o.content_hash n.body) r)
  updated_step n i c r e f = record {
    others_rows =
        λ j k. find-set_comment_hash_other i j (o.content_hash n.body) r (other_id n i j e k);
    others_new = λ j X k. refl;
    mapped = λ X same. rw e (
      record c { source_content_hash = o.content_hash n.body },
      (same i (has_id_of n i e)) ∙ find-set_comment_hash i (o.content_hash n.body) c r f,
      refl,
    );
  }

  created_step :
      (n : Note) (i t : ℕ) (r : List Comment)
      → n.id ≡ some i
      → Step o.content_hash n r
          record {
            to_add =
                record {
                  source_note_id = i;
                  target_note_id = t;
                  source_content_hash = o.content_hash n.body;
                }
                ∷ [];
            updated = false;
          }
          r
  unfolding find_comment
  created_step n i t r e = record {
    others_rows = λ j k. refl;
    others_new = λ j X k. rw (other_id n i j e k) refl;
    mapped = λ X same. rw e (
      record {
        source_note_id = i;
        target_note_id = t;
        source_content_hash = o.content_hash n.body;
      },
      rw (eq_refl i) refl,
      refl,
    );
  }

  module _ (ids : (n : ℕ) → o.create n ≢ returned none) where
    created_after :
        (n : Note) (i : ℕ) (w : NoteWorld) (x : Outcome (Option ℕ))
        → n.id ≡ some i
        → x ≢ returned none
        → After
            (λ new w'. Step o.content_hash n w.rows new w'.rows)
            (created_note o i (o.content_hash n.body) x w)
    created_after n i w (raised x) e k = tt
    created_after n i w (returned none) e k = elim (k refl) [ ]
    created_after n i w (returned (some t)) e k = created_step n i t w.rows e

    updated_after :
        (n : Note) (i : ℕ) (c : Comment) (w : NoteWorld) (x : Outcome (Unit {0}))
        → n.id ≡ some i
        → find_comment i w.rows ≡ some c
        → After
            (λ new w'. Step o.content_hash n w.rows new w'.rows)
            (updated_note o i (o.content_hash n.body) x w)
    updated_after n i c w (raised x) e f = tt
    updated_after n i c w (returned u) e f = updated_step n i c w.rows e f

    placed_after :
        (n : Note) (i : ℕ) (w : NoteWorld) (m : Option Comment)
        → n.id ≡ some i
        → find_comment i w.rows ≡ m
        → After (λ new w'. Step o.content_hash n w.rows new w'.rows) (place_note o i n.body m w)
    placed_after n i w none e f = created_after n i _ (o.create w.calls) e (ids w.calls)
    placed_after n i w (some c) e f =
        elim (Bool-cases (eq_text c.source_content_hash (o.content_hash n.body))) [
          | inl h ↦ rw h (same_note n i c w.rows e f ((eq_text_iff _ _).0 h))
          | inr h ↦ rw h (updated_after n i c _ (o.update w.calls) e f)
        ]

    no_id : (n : Note) (r : List Comment) → n.id ≡ none → Step o.content_hash n r no_changes r
    no_id n r e = record {
      others_rows = λ j k. refl;
      others_new = λ j X k. refl;
      mapped = λ X same. rw e tt;
    }

    pub sync_note_lem :
        (n : Note) (w : NoteWorld)
        → After (λ new w'. Step o.content_hash n w.rows new w'.rows) (sync_note o n w)
    sync_note_lem n w = elim (Option-cases n.id) [
      | inl e ↦ rw e (no_id record n { id = none } w.rows refl)
      | inr (i, e) ↦
          rw e (placed_after record n { id = some i } i w (find_comment i w.rows) refl refl)
    ]
