-- ===== src/Mirrors/Create.antt =====
-- app/api/mirrors.py: `_create_mirror_internal`, which makes a token and a mirror on GitLab and then
-- the row. The calls of GitLab are recorded with their answers, the newest first.
pub mod Accounted
pub mod Sound
use mirror_maestro.Common.{
  ℕ, zero, suc, ◌+◌, Bool, true, false, not, ◌&&◌, ◌||◌, Option, none, some, is_some, List, [], ◌∷◌,
  ◌++◌, length, ◌==◌, if◌then◌else◌,
}
use mirror_maestro.Text.{Text, codes, eq_text, is_empty}
use mirror_maestro.Errors.{Error, exception, Outcome, returned, raised}
use mirror_maestro.Database.{Row, no_row, many_rows, one_row, scalar_one_or_none}
use mirror_maestro.Tables.{Mirror, Pair}
use mirror_maestro.Mirrors.Op.{Raise, http, other, Result, ok, thrown, execute_gitlab_op}
use mirror_maestro.Mirrors.Url.{ParsedInstance, build_authenticated_url}
use mirror_maestro.Mirrors.Settings.{push, pull, is_push, or_pair, or_maybe}
use mirror_maestro.Mirrors.Client.{PushData, PullData}
use mirror_maestro.Mirrors.Calls.{
  Call, Instance, MirrorCreate, MirrorInfo, Outside, Place, TokenInfo, create_pull, create_push,
  create_token, delete_pull, delete_push, delete_token, read_pull, token_place,
}
use mirror_maestro.Mirrors.Tokens.{
  Token, decrypted, decrypted_value, drop_token, encrypted_token, has_url, id_of, incomplete,
  no_attribute, read_info, read_token, read_value,
}

abbrev pub push_data_of : Pair → MirrorCreate → PushData
push_data_of p d = record {
  enabled = some d.enabled;
  only_protected_branches =
      some (or_pair d.only_mirror_protected_branches p.only_mirror_protected_branches);
  keep_divergent_refs =
      some (not (or_pair d.mirror_overwrite_diverged p.mirror_overwrite_diverged));
  mirror_branch_regex = none;
}

abbrev pub pull_data_of : Pair → MirrorCreate → PullData
pull_data_of p d = record {
  enabled = some d.enabled;
  only_mirror_protected_branches =
      some (or_pair d.only_mirror_protected_branches p.only_mirror_protected_branches);
  mirror_overwrites_diverged_branches =
      some (or_pair d.mirror_overwrite_diverged p.mirror_overwrite_diverged);
  mirror_trigger_builds = some (or_pair d.mirror_trigger_builds p.mirror_trigger_builds);
  mirror_branch_regex = or_maybe d.mirror_branch_regex p.mirror_branch_regex;
}

abbrev pub pull_conflict : Raise
pull_conflict = http 409 (
    codes
      "Target project already has a pull mirror configured in GitLab. GitLab allows only one pull mirror per project. Remove the existing pull mirror first.")

module _ (o : Outside) (p : Pair) (source target : Instance) (d : MirrorCreate) where
  abbrev pub place : Place
  place = token_place p source target d

  abbrev pub push_mirror : Text → List Call → Result (Option ℕ) × List Call
  push_mirror url calls =
      let r = execute_gitlab_op o.push_outcome in
      (id_of r, create_push source.id d.source_project_id url (push_data_of p d) r ∷ calls)

  abbrev pub after_read :
      Text
      → Option (Text × Text)
      → Option ℕ
      → List Call
      → Result (Option MirrorInfo)
      → Result (Option ℕ) × List Call
  after_read url login token calls (thrown x) = (thrown x, calls)
  after_read url login token calls (ok info) =
      let r = execute_gitlab_op o.pull_outcome in
      if has_url info then (thrown pull_conflict, drop_token place token calls) else (
        id_of r,
        create_pull target.id d.target_project_id url login (pull_data_of p d) r ∷ calls,
      )

  abbrev pub pull_mirror :
      Text → Option (Text × Text) → Option ℕ → List Call → Result (Option ℕ) × List Call
  pull_mirror url login token calls =
      let r = execute_gitlab_op o.read_outcome in
      after_read url login token (read_pull target.id d.target_project_id r ∷ calls) r

  abbrev pub new_row : Token → Option ℕ → Mirror
  new_row t mirror_id = record {
    id = o.row_id;
    instance_pair_id = d.instance_pair_id;
    source_project_id = d.source_project_id;
    target_project_id = d.target_project_id;
    source_project_path = d.source_project_path;
    target_project_path = d.target_project_path;
    mirror_overwrite_diverged = d.mirror_overwrite_diverged;
    mirror_trigger_builds = d.mirror_trigger_builds;
    only_mirror_protected_branches = d.only_mirror_protected_branches;
    mirror_branch_regex = d.mirror_branch_regex;
    issue_sync_enabled = d.issue_sync_enabled;
    mirror_id = mirror_id;
    enabled = d.enabled;
    last_successful_update = none;
    last_update_at = none;
    last_update_status = some (codes "pending");
    last_error = none;
    status_checked_at = none;
    encrypted_mirror_token = t.encrypted;
    mirror_token_name = some o.token_name;
    mirror_token_expires_at = elim t.encrypted [
      | none ↦ none
      | some e ↦ if is_empty e then none else some o.expires_at
    ];
    gitlab_token_id = t.id;
    token_project_id = some place.project_id;
    created_at = o.now;
    updated_at = o.now;
  }

  -- The deletion of the mirror when the commit has failed. An id of 0 is false in Python.
  abbrev pub drop_push : Option ℕ → List Call → List Call
  drop_push none calls = calls
  drop_push (some zero) calls = calls
  drop_push (some (suc i)) calls = delete_push source.id d.source_project_id (suc i) ∷ calls

  abbrev pub drop_mirror : Option ℕ → List Call → List Call
  drop_mirror i calls =
      if is_push p.mirror_direction
      then drop_push i calls
      else delete_pull target.id d.target_project_id ∷ calls

  -- From the `try` around the mirror on.
  abbrev pub finish : Token → Result (Option ℕ) × List Call → Result Mirror × List Call
  finish t (thrown (http status detail), calls) =
      (thrown (http status detail), drop_token place t.id calls)
  finish t (thrown (other e), calls) = (
    thrown (http 500 (codes "Failed to create mirror in GitLab. Check server logs for details.")),
    drop_token place t.id calls,
  )
  finish t (ok i, calls) = if o.commits then (ok (new_row t i), calls) else (
    thrown (
        http 500
          (codes "Failed to save mirror to database. GitLab resources have been cleaned up.")),
    drop_token place t.id (drop_mirror i calls),
  )

  -- The name is used only where there is a value.
  abbrev pub login : Option Text → Option (Text × Text)
  login none = none
  login (some value) = some (o.token_name, value)

  abbrev pub url_for : Option Text → Result Text
  url_for none = build_authenticated_url o.urlparse place.instance.url place.project_path none none
  url_for (some value) =
      build_authenticated_url o.urlparse place.instance.url place.project_path (some o.token_name)
        (some value)

  abbrev pub with_url : Token → Option Text → List Call → Result Text → Result Mirror × List Call
  with_url t value calls (thrown x) = (thrown x, calls)
  with_url t value calls (ok url) = finish t (
      if is_push p.mirror_direction
      then push_mirror url calls
      else pull_mirror url (login value) t.id calls)

  abbrev pub with_value : Token → List Call → Result (Option Text) → Result Mirror × List Call
  with_value t calls (thrown x) = (thrown x, calls)
  with_value t calls (ok value) = with_url t value calls (url_for value)

  abbrev pub with_token : List Call → Result Token → Result Mirror × List Call
  with_token calls (thrown x) = (thrown x, calls)
  with_token calls (ok t) = with_value t calls (decrypted o t.encrypted)

  abbrev pub make : Result Mirror × List Call
  make =
      let r = execute_gitlab_op o.token_outcome in
      with_token (create_token place.instance.id place.project_id o.token_name place.scopes r ∷ [])
        (read_token o r)

abbrev pub same_projects : MirrorCreate → Mirror → Bool
same_projects d m =
    m.instance_pair_id == d.instance_pair_id
    && (m.source_project_id == d.source_project_id && m.target_project_id == d.target_project_id)

abbrev pub is_direction : Text → Bool
is_direction direction = eq_text direction push || eq_text direction pull

abbrev pub many_results : Error
many_results = record {
  class_of = exception;
  message = codes "Multiple rows were found when one or none was required";
}

-- The check for a duplicate, and what follows.
abbrev pub if_new : Bool → Row Mirror → Result Mirror × List Call → Result Mirror × List Call
if_new true row next = next
if_new false no_row next = next
if_new false (one_row m) next =
    (thrown (http 409 (codes "Mirror already exists for this project pair")), [])
if_new false many_rows next = (thrown (other many_results), [])

-- `_create_mirror_internal`, with the rows of the mirrors.
unfoldable pub create_mirror_internal :
    Outside
    → Pair
    → Instance
    → Instance
    → MirrorCreate
    → Bool
    → List Mirror
    → Result Mirror × List Call
create_mirror_internal o p source target d skip_duplicate_check rows =
    if_new skip_duplicate_check (scalar_one_or_none (same_projects d) rows) (
      if is_direction p.mirror_direction then make o p source target d else (
        thrown (
            http 400 (
              codes "Invalid mirror direction: "
              ++ (p.mirror_direction ++ codes ". Must be 'push' or 'pull'"))),
        [],
      ))
