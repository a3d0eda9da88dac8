-- ===== src/Backup/Archive.antt =====
-- app/api/backup.py: the archive of a backup, its check and its extraction.
use mirror_maestro.Common.{
  ℕ, Bool, true, false, not, ◌&&◌, ◌||◌, Option, none, some, List, [], ◌∷◌, any, ◌==◌,
  if◌then◌else◌,
}
use mirror_maestro.Text.{Text, codes, eq_text, starts_with, is_empty}
use mirror_maestro.Http.{Reply, reply, refuse}

pub data MemberKind : Type 0 where
  file : MemberKind
  link : Text → MemberKind

-- A member of a tar archive. A link, symbolic or hard, has its target's name, and as its content
-- what it leads to.
pub record Member : Type 0 where
  pub name : Text
  pub kind : MemberKind
  pub content : Text

-- `Path(name).parts`, without the root: the parts between slashes, blank ones and dots left out.
abbrev pub keep_part : Text → List Text → List Text
keep_part p rest = if is_empty p || eq_text p (codes ".") then rest else p ∷ rest

abbrev pub add_code : ℕ → List Text → List Text
add_code c [] = (c ∷ []) ∷ []
add_code c (p ∷ ps) = (c ∷ p) ∷ ps

-- `split("/")`
unfoldable pub split_slashes : Text → List Text
split_slashes [] = [] ∷ []
split_slashes (c ∷ s) =
    let rest = split_slashes s in if c == b'/' then [] ∷ rest else add_code c rest

unfoldable pub kept_parts : List Text → List Text
unfolding eq_text
kept_parts [] = []
kept_parts (p ∷ ps) = keep_part p (kept_parts ps)

abbrev pub parts : Text → List Text
parts name = kept_parts (split_slashes name)

abbrev pub is_absolute : Text → Bool
is_absolute name = starts_with name (codes "/")

abbrev pub is_up : Text → Bool
is_up p = eq_text p (codes "..")

abbrev pub goes_up : Text → Bool
goes_up name = is_absolute name || any is_up (parts name)

abbrev pub link_goes_up : MemberKind → Bool
link_goes_up file = false
link_goes_up (link target) = goes_up target

-- `_safe_tar_extract`: the checks of all members, before any is extracted. The directory is new, so
-- a path that does not go up cannot leave it by a link, and its own test passes.
unfoldable pub safe_tar_extract : List Member → Bool
unfolding split_slashes kept_parts
safe_tar_extract [] = true
safe_tar_extract (m ∷ ms) = not (goes_up m.name || link_goes_up m.kind) && safe_tar_extract ms

abbrev pub has_member : Text → List Member → Bool
has_member name ms = any (λ m. eq_text (Member.name m) name) ms

-- The content of the last member that fits: a later one overwrites an earlier one.
unfoldable pub last_content : (Member → Bool) → List Member → Option Text
last_content p [] = none
last_content p (m ∷ ms) = elim (last_content p ms) [
  | some c ↦ some c
  | none ↦ if p m then some m.content else none
]

-- What stands in a file of the directory after the extraction.
abbrev pub is_only : Text → List Text → Bool
is_only name (p ∷ []) = eq_text p name
is_only name _ = false

unfoldable pub extracted : Text → List Member → Option Text
unfolding split_slashes kept_parts last_content
extracted name ms = last_content (λ m. is_only name (parts (Member.name m))) ms

-- `tar.extractfile`
unfoldable pub member_content : Text → List Member → Option Text
unfolding eq_text last_content
member_content name ms = last_content (λ m. eq_text (Member.name m) name) ms

abbrev pub bad_request : {A : Type 0} → Text → Reply A
bad_request detail = refuse 400 detail

-- `_validate_backup_archive`, on the members of an archive that opens; `metadata_loads` tells
-- whether the text of the metadata is JSON.
abbrev pub check_metadata : (Text → Bool) → Option Text → Reply (Unit {0})
check_metadata metadata_loads none = reply tt
check_metadata metadata_loads (some m) =
    if metadata_loads m
    then reply tt
    else bad_request
        (codes "Failed to validate backup. Please check the file format and try again.")

unfoldable pub validate_members : (Text → Bool) → List Member → Reply (Unit {0})
unfolding member_content
validate_members metadata_loads ms =
    let has_v2 = has_member (codes "database.json") ms in
    let has_v1 = has_member (codes "mirrors.db") ms in
    if not (has_member (codes "encryption.key") ms)
    then bad_request (codes "Invalid backup archive. Missing encryption.key")
    else if not has_v2 && not has_v1
    then bad_request (codes "Invalid backup archive. Missing database file (database.json)")
    else if has_v1 && not has_v2
    then bad_request (
        codes
          "This backup is from an older SQLite-based version and cannot be restored. Please create a new backup from the current version.")
    else check_metadata metadata_loads (member_content (codes "backup_metadata.json") ms)

abbrev pub validate_backup_archive : (Text → Bool) → Option (List Member) → Reply (Unit {0})
validate_backup_archive metadata_loads none =
    bad_request (codes "Invalid or corrupt backup archive. Please check the file format.")
validate_backup_archive metadata_loads (some ms) = validate_members metadata_loads ms
