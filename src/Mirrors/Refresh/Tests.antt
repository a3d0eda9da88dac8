-- ===== src/Mirrors/Refresh/Tests.antt =====
-- app/api/mirrors.py and app/core/mirror_status_scheduler.py: rounds of refreshes on concrete rows.
use mirror_maestro.Common.{ℕ, true, false, none, some, map, [], ◌∷◌, length, ◌+◌, ◌==◌, ◌≡◌, refl}
use mirror_maestro.Text.{codes, eq_text, lower}
use mirror_maestro.Errors.{returned}
use mirror_maestro.Tables.{Mirror, Pair}
use mirror_maestro.Mirrors.Refresh.{Status, Around, RefreshWorld, refresh_mirror_status}
use mirror_maestro.Mirrors.Refresh.Cycle.{LastRefresh, refresh_cycle}
use mirror_maestro.Mirrors.Refresh.Kept.{SameSettings, refresh_cycle-SameSettings}
use mirror_maestro.Mirrors.Refresh.Broken.{refresh_cycle-broken}

abbrev pair : Pair
pair = record {
  id = 1;
  source_instance_id = 3;
  target_instance_id = 4;
  mirror_direction = codes "pull";
  mirror_overwrite_diverged = false;
  mirror_trigger_builds = false;
  only_mirror_protected_branches = false;
  mirror_branch_regex = none;
  issue_sync_enabled = false;
}

abbrev mirror : ℕ → Mirror
mirror i = record {
  id = i;
  instance_pair_id = 1;
  source_project_id = 30 + i;
  target_project_id = 40 + i;
  source_project_path = codes "a/b";
  target_project_path = codes "c/d";
  mirror_overwrite_diverged = none;
  mirror_trigger_builds = none;
  only_mirror_protected_branches = none;
  mirror_branch_regex = none;
  issue_sync_enabled = none;
  mirror_id = none;
  enabled = true;
  last_successful_update = none;
  last_update_at = none;
  last_update_status = none;
  last_error = none;
  status_checked_at = none;
  encrypted_mirror_token = none;
  mirror_token_name = none;
  mirror_token_expires_at = none;
  gitlab_token_id = none;
  token_project_id = none;
  created_at = 1;
  updated_at = 1;
}

-- GitLab has paused the mirrors.
abbrev paused : Status
paused = record {
  id = some 9;
  update_status = some (codes "failed");
  last_update_at = some (codes "2024");
  last_successful_update_at = none;
  last_error = some (codes "refused");
  enabled = some false;
}

abbrev answering : Around
answering = record {
  pairs = pair ∷ [];
  instances = 3 ∷ 4 ∷ [];
  get_project_mirrors = λ n i p. returned [];
  get_pull_mirror = λ n i p. returned (some paused);
  now = λ n. 100 + n;
  parse_time = λ t. some (length t);
  commit = λ n. n == 1;
}

abbrev two_mirrors : RefreshWorld
two_mirrors = record { calls = 0; mirrors = mirror 1 ∷ mirror 2 ∷ []; broken = false }

first_stored :
    map Mirror.status_checked_at (refresh_mirror_status answering (mirror 1) two_mirrors).1.mirrors
    ≡ some 101 ∷ none ∷ []
unfolding refresh_mirror_status eq_text lower
first_stored = refl

abbrev before : LastRefresh
before = record { total = 2; success = 2; errors = 0 }

refresh_cycle-SameSettings_example :
    SameSettings two_mirrors.mirrors
      (refresh_cycle answering (λ n. true) before two_mirrors.mirrors two_mirrors).1.mirrors
refresh_cycle-SameSettings_example =
    refresh_cycle-SameSettings answering (λ n. true) before two_mirrors.mirrors two_mirrors

-- The first commit fails.
abbrev failing : Around
failing = record answering { commit = λ n. false }

refresh_cycle-broken_example :
    let (shown_then, w') =
      refresh_cycle failing (λ n. true) before (mirror 1 ∷ mirror 2 ∷ []) two_mirrors in
    (shown_then ≡ before)
    × (w'.mirrors ≡ two_mirrors.mirrors)
    × (w'.calls ≡ (refresh_mirror_status failing (mirror 1) two_mirrors).1.calls)
unfolding refresh_mirror_status eq_text lower
refresh_cycle-broken_example =
    refresh_cycle-broken failing (λ n. true) before (mirror 1) (mirror 2 ∷ []) two_mirrors refl refl
