-- ===== src/Sync/Comments/Tests.antt =====
-- app/core/issue_sync.py: `_sync_comments` on concrete notes.
use mirror_maestro.Common.{
  ℕ, ◌+◌, true, false, if◌then◌else◌, ◌==◌, none, some, List, [], ◌∷◌, ◌≡◌, refl, ◌≢◌,
}
use mirror_maestro.Text.{codes, eq_text}
use mirror_maestro.Errors.{exception, Error, returned, raised}
use mirror_maestro.Sync.Comments.{
  Note, Comment, create_note, update_note, NoteCalls, NoteWorld, find_comment, set_comment_hash,
  sync_note, sync_notes, sync_comments,
}
use mirror_maestro.Sync.Comments.Again.{sync_comments_again}
use mirror_maestro.Sync.Comments.Lost.{created_again}

-- A note of the system, a changed comment and a new one.
abbrev changed : Note
changed = record { id = some 2; system = false; body = codes "changed" }

abbrev new : Note
new = record { id = some 3; system = false; body = codes "new" }

abbrev notes : List Note
notes = record { id = some 1; system = true; body = codes "closed" } ∷ changed ∷ new ∷ []

-- The content is its own hash.
abbrev answering : NoteCalls
answering = record {
  content_hash = λ t. t;
  get_notes = λ n. returned notes;
  update = λ n. returned tt;
  create = λ n. returned (some (100 + n));
  commit = true;
}

abbrev old : Comment
old = record { source_note_id = 2; target_note_id = 52; source_content_hash = codes "old" }

abbrev start : NoteWorld
start = record { calls = 0; requests = []; rows = old ∷ [] }

one_of_each : sync_comments answering start ≡ (
  returned tt,
  record {
    calls = 3;
    requests = create_note (codes "new") ∷ update_note 52 (codes "changed") ∷ [];
    rows =
        record { source_note_id = 3; target_note_id = 102; source_content_hash = codes "new" }
        ∷ record { source_note_id = 2; target_note_id = 52; source_content_hash = codes "changed" }
        ∷ [];
  },
)
unfolding sync_comments sync_notes find_comment set_comment_hash eq_text
one_of_each = refl

ids_given : (n : ℕ) → answering.create n ≢ returned none
ids_given n h = let bad = h in cc

sync_comments_again_example :
    let after = (sync_comments answering start).1 in
    sync_comments answering after ≡ (returned tt, record after { calls = after.calls + 1 })
unfolding sync_comments sync_notes find_comment set_comment_hash eq_text
sync_comments_again_example =
    sync_comments_again answering notes start ids_given (refl, (refl, tt)) refl refl refl

-- Two new comments, the second of which cannot be created.
abbrev first : Note
first = record { id = some 2; system = false; body = codes "first" }

abbrev gitlab_down : Error
gitlab_down = record { class_of = exception; message = codes "gitlab_down" }

abbrev failing : NoteCalls
failing = record {
  content_hash = λ t. t;
  get_notes = λ n. returned (first ∷ new ∷ []);
  update = λ n. returned tt;
  create = λ n. if n == 1 then returned (some 100) else raised gitlab_down;
  commit = true;
}

abbrev unmapped : NoteWorld
unmapped = record { calls = 0; requests = []; rows = [] }

created_again_example :
    let after = (sync_comments failing unmapped).1 in
    (find_comment 2 after.rows ≡ none)
    × ((sync_note failing first after).1.requests ≡ create_note first.body ∷ after.requests)
unfolding sync_comments sync_notes find_comment
created_again_example = created_again failing unmapped gitlab_down first 2 refl refl refl
