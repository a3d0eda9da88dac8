-- ===== src/Sync/Comments.antt =====
-- app/core/issue_sync.py: `_sync_comments`, on the comment mappings of one issue. The rows are those
-- of the session; a call is one `_execute_gitlab_api_call`.
pub mod Mapped
pub mod Again
pub mod Lost
mod Tests
use mirror_maestro.Common.{
  ℕ, ◌+◌, Bool, true, false, not, ◌||◌, Option, none, some, List, [], ◌∷◌, ◌++◌, ◌==◌,
  if◌then◌else◌,
}
use mirror_maestro.Text.{Text, codes, eq_text}
use mirror_maestro.Errors.{exception, Error, Outcome, returned, raised}
use mirror_maestro.Errors.Action.{Action, pure, raise, continue, ◌>>=◌}

-- A comment of the source; a body that is missing is empty.
pub record Note : Type 0 where
  pub id : Option ℕ
  pub system : Bool
  pub body : Text

-- `CommentMapping`, of one issue mapping
pub record Comment : Type 0 where
  pub source_note_id : ℕ
  pub target_note_id : ℕ
  pub source_content_hash : Text

pub data NoteRequest : Type 0 where
  update_note : ℕ → Text → NoteRequest
  create_note : Text → NoteRequest

-- `compute_content_hash`, the calls by their number, and whether the commit succeeds. A note that is
-- created without an id gives none.
pub record NoteCalls : Type 0 where
  pub content_hash : Text → Text
  pub get_notes : ℕ → Outcome (List Note)
  pub update : ℕ → Outcome (Unit {0})
  pub create : ℕ → Outcome (Option ℕ)
  pub commit : Bool

pub record NoteWorld : Type 0 where
  pub calls : ℕ
  pub requests : List NoteRequest
  pub rows : List Comment

-- `mappings_to_add`, and whether `mappings_to_update` has an entry.
pub record Changes : Type 0 where
  pub to_add : List Comment
  pub updated : Bool

unfoldable pub find_comment : ℕ → List Comment → Option Comment
find_comment i [] = none
find_comment i (c ∷ cs) =
    let rest = find_comment i cs in if c.source_note_id == i then some c else rest

unfoldable pub set_comment_hash : ℕ → Text → List Comment → List Comment
set_comment_hash i h [] = []
set_comment_hash i h (c ∷ cs) =
    let rest = set_comment_hash i h cs in
    if c.source_note_id == i then record c { source_content_hash = h } ∷ cs else c ∷ rest

-- The notes that no one wrote are left out.
abbrev pub user_notes : List Note → List Note
user_notes [] = []
user_notes (n ∷ ns) = let rest = user_notes ns in if n.system then rest else n ∷ rest

abbrev pub no_changes : Changes
no_changes = record { to_add = []; updated = false }

abbrev pub joined : Changes → Changes → Changes
joined a b = record { to_add = a.to_add ++ b.to_add; updated = a.updated || b.updated }

module _ (o : NoteCalls) where
  abbrev pub updated_note : ℕ → Text → Outcome (Unit {0}) → Action NoteWorld Changes
  updated_note i h (raised e) w = (raised e, w)
  updated_note i h (returned u) w = (
    returned record { to_add = []; updated = true },
    record w { rows = set_comment_hash i h w.rows },
  )

  abbrev pub created_note : ℕ → Text → Outcome (Option ℕ) → Action NoteWorld Changes
  created_note i h (raised e) w = (raised e, w)
  created_note i h (returned none) w = (returned no_changes, w)
  created_note i h (returned (some t)) w = (
    returned record {
      to_add = record { source_note_id = i; target_note_id = t; source_content_hash = h } ∷ [];
      updated = false;
    },
    w,
  )

  abbrev pub requested : NoteRequest → NoteWorld → NoteWorld
  requested r w = record w { calls = w.calls + 1; requests = r ∷ w.requests }

  -- A note, by its mapping.
  abbrev pub place_note : ℕ → Text → Option Comment → Action NoteWorld Changes
  place_note i body none w =
      created_note i (o.content_hash body) (o.create w.calls) (requested (create_note body) w)
  place_note i body (some c) w =
      if eq_text c.source_content_hash (o.content_hash body)
      then (returned no_changes, w)
      else updated_note i (o.content_hash body) (o.update w.calls)
          (requested (update_note c.target_note_id body) w)

  -- The body of the loop.
  abbrev pub sync_note : Note → Action NoteWorld Changes
  sync_note n w = elim n.id [
    | none ↦ (returned no_changes, w)
    | some i ↦ place_note i n.body (find_comment i w.rows) w
  ]

  unfoldable pub sync_notes : List Note → Action NoteWorld Changes
  sync_notes [] = pure no_changes
  sync_notes (n ∷ ns) =
      sync_note n >>= (λ (a : Changes). sync_notes ns >>= (λ (b : Changes). pure (joined a b)))

  abbrev pub has_changes : Changes → Bool
  has_changes c = elim c.to_add [ [] ↦ c.updated | x ∷ xs ↦ true ]

  abbrev pub commit_failed : Error
  commit_failed = record { class_of = exception; message = codes "commit failed" }

  -- The commit at the end; `before` are the rows of the database.
  abbrev pub commit_notes : List Comment → Changes → Action NoteWorld Unit
  commit_notes before c w =
      if has_changes c
      then if o.commit
        then (returned tt, record w { rows = c.to_add ++ w.rows })
        else (raised commit_failed, record w { rows = before })
      else (returned tt, w)

  abbrev pub get_all : Action NoteWorld (List Note)
  get_all w = (o.get_notes w.calls, record w { calls = w.calls + 1 })

  -- `_sync_comments`
  unfoldable pub sync_comments : Action NoteWorld Unit
  unfolding sync_notes
  sync_comments w =
      (get_all >>= (λ (ns : List Note). sync_notes (user_notes ns) >>= commit_notes w.rows)) w
