-- ===== src/Mirrors/Refresh.antt =====
-- app/api/mirrors.py: `_refresh_mirror_status`, which takes over what GitLab tells of a mirror.
pub mod Cycle
pub mod Kept
pub mod Broken
mod Tests
use mirror_maestro.Common.{
  ℕ, ◌+◌, Bool, true, false, not, ◌&&◌, Option, none, some, List, [], ◌∷◌, ◌++◌, any, ◌==◌,
  if◌then◌else◌,
}
use mirror_maestro.Text.{Text, codes, eq_text, is_empty}
use mirror_maestro.Errors.{exception, Error, Outcome, returned, raised}
use mirror_maestro.Database.{Row, no_row, one_row, many_rows, scalar_one_or_none}
use mirror_maestro.Tables.{Mirror, Pair}
use mirror_maestro.Sync.Cleanup.{several_rows}
use mirror_maestro.Mirrors.Op.{Raise, http, other, Result, ok, thrown, execute_gitlab_op}
use mirror_maestro.Mirrors.Settings.{pull, is_push}
use mirror_maestro.Mirrors.Verify.{verify_direction}

-- What GitLab tells of a mirror; the times are texts.
pub record Status : Type 0 where
  pub id : Option ℕ
  pub update_status : Option Text
  pub last_update_at : Option Text
  pub last_successful_update_at : Option Text
  pub last_error : Option Text
  pub enabled : Option Bool

-- `RefreshStatusResult`: the new values, or the error.
pub data RefreshResult : Type 0 where
  refreshed : Option Text → Option ℕ → Option ℕ → Option Text → RefreshResult
  not_refreshed : Text → RefreshResult

-- The rows that do not change, the calls by their number, instance and project, the clock and
-- `fromisoformat`, and whether a commit succeeds.
pub record Around : Type 0 where
  pub pairs : List Pair
  pub instances : List ℕ
  pub get_project_mirrors : ℕ → ℕ → ℕ → Outcome (List Status)
  pub get_pull_mirror : ℕ → ℕ → ℕ → Outcome (Option Status)
  pub now : ℕ → ℕ
  pub parse_time : Text → Option ℕ
  pub commit : ℕ → Bool

-- `broken`: the session waits for a rollback.
pub record RefreshWorld : Type 0 where
  pub calls : ℕ
  pub mirrors : List Mirror
  pub broken : Bool

unfoldable pub status_of : Text → Text
unfolding eq_text
status_of s =
    if eq_text s (codes "finished")
    then codes "success"
    else if eq_text s (codes "started")
    then codes "syncing"
    else if eq_text s (codes "none")
    then codes "pending"
    else s

abbrev pub status_of_some : Option Text → Option Text
status_of_some none = none
status_of_some (some s) = some (status_of s)

abbrev pub is_mirror_of : Option ℕ → Option ℕ → Bool
is_mirror_of (some i) (some j) = i == j
is_mirror_of none none = true
is_mirror_of _ _ = false

-- The first mirror with the id.
unfoldable pub find_status : Option ℕ → List Status → Option Status
find_status i [] = none
find_status i (g ∷ gs) = let rest = find_status i gs in if is_mirror_of g.id i then some g else rest

abbrev pub in_list : Option ℕ → Outcome (List Status) → Outcome (Option Status)
in_list i (raised e) = raised e
in_list i (returned gs) = returned (find_status i gs)

abbrev pub detail_of : Raise → Text
detail_of (http status detail) = detail
detail_of (other e) = e.message

-- The columns that a refresh writes.
abbrev pub or_enabled : Option Bool → Bool → Bool
or_enabled none b = b
or_enabled (some a) b = a

module _ (o : Around) where
  abbrev pub time_of : Option Text → Option ℕ
  time_of none = none
  time_of (some s) = if is_empty s then none else o.parse_time s

  abbrev pub refreshed_row : ℕ → Status → Mirror → Mirror
  refreshed_row now g m = record m {
    enabled = or_enabled g.enabled m.enabled;
    last_update_status = status_of_some g.update_status;
    last_update_at = time_of g.last_update_at;
    last_successful_update = time_of g.last_successful_update_at;
    last_error = g.last_error;
    status_checked_at = some now;
    updated_at = now;
  }

  unfoldable pub set_mirror : ℕ → (Mirror → Mirror) → List Mirror → List Mirror
  set_mirror i f [] = []
  set_mirror i f (m ∷ ms) = let rest = set_mirror i f ms in (if m.id == i then f m else m) ∷ rest

  abbrev pub commit_failed : Error
  commit_failed = record { class_of = exception; message = codes "commit failed" }

  -- The update, which sets `updated_at` too by its `onupdate`, and its commit. One that fails leaves the session broken.
  unfoldable pub store_status :
      Mirror → Status → RefreshWorld → Outcome RefreshResult × RefreshWorld
  unfolding set_mirror status_of
  store_status m g w =
      if o.commit w.calls
      then (
        returned (
            refreshed (status_of_some g.update_status) (time_of g.last_update_at)
              (time_of g.last_successful_update_at) g.last_error),
        record w { mirrors = set_mirror m.id (refreshed_row (o.now w.calls) g) w.mirrors },
      )
      else (raised commit_failed, record w { broken = true })

  abbrev pub store_answer :
      Mirror → Result (Option Status) → RefreshWorld → Outcome RefreshResult × RefreshWorld
  store_answer m (thrown x) w =
      (returned (not_refreshed (codes "Failed to fetch GitLab mirror status: " ++ detail_of x)), w)
  store_answer m (ok none) w =
      (returned (not_refreshed (codes "Mirror not found on GitLab (may be orphaned)")), w)
  store_answer m (ok (some g)) w = store_status m g w

  unfoldable pub fetch_status : Mirror → Pair → ℕ → Outcome (Option Status)
  unfolding find_status
  fetch_status m p n =
      if is_push (verify_direction p)
      then in_list m.mirror_id (o.get_project_mirrors n p.source_instance_id m.source_project_id)
      else o.get_pull_mirror n p.target_instance_id m.target_project_id

  abbrev pub has_instances : Pair → Bool
  has_instances p =
      any (λ i. i == p.source_instance_id) o.instances
      && any (λ i. i == p.target_instance_id) o.instances

  abbrev pub refresh_created : Mirror → Pair → RefreshWorld → Outcome RefreshResult × RefreshWorld
  refresh_created m p w =
      if has_instances p
      then store_answer m (execute_gitlab_op (fetch_status m p w.calls))
          record w { calls = w.calls + 1 }
      else (returned (not_refreshed (codes "Source or target instance not found")), w)

  abbrev pub not_created : Text
  not_created = codes "Mirror has not been created on GitLab yet"

  abbrev pub refresh_paired :
      Mirror → Row Pair → RefreshWorld → Outcome RefreshResult × RefreshWorld
  refresh_paired m many_rows w = (raised several_rows, w)
  refresh_paired m no_row w = (returned (not_refreshed (codes "Instance pair not found")), w)
  refresh_paired m (one_row p) w = elim m.mirror_id [
    | some i ↦ refresh_created m p w
    | none ↦
        if eq_text (verify_direction p) pull
        then refresh_created m p w
        else (returned (not_refreshed not_created), w)
  ]

  abbrev pub rollback_error : Error
  rollback_error = record { class_of = exception; message = codes "rollback needed" }

  -- `_refresh_mirror_status`. The queries of a broken session raise.
  unfoldable pub refresh_mirror_status :
      Mirror → RefreshWorld → Outcome RefreshResult × RefreshWorld
  unfolding store_status fetch_status
  refresh_mirror_status m w =
      if w.broken
      then (raised rollback_error, w)
      else refresh_paired m (scalar_one_or_none (λ (p : Pair). p.id == m.instance_pair_id) o.pairs)
          w
