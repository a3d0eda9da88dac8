-- ===== src/Scheduler/Tests.antt =====
-- app/core/issue_scheduler.py: the properties at concrete rows.
use mirror_maestro.Common.{ℕ, List, true, false, none, some, [], ◌∷◌, ◌≡◌, refl, arith}
use mirror_maestro.Text.{codes}
use mirror_maestro.Errors.{returned}
use mirror_maestro.Sync.{new_stats}
use mirror_maestro.Scheduler.{
  Config, Mirror, Pair, Db, minutes, is_stale, cleanup_stale_jobs, decide, start,
  check_bidirectional_sync_conflict, new_job, apply_verdict, fail_stale,
}
use mirror_maestro.Scheduler.Run.{sync_config, finish_sync, finish_job}
use mirror_maestro.Scheduler.Exclusive.{IsExclusive}
use mirror_maestro.Scheduler.Manual.{ran, check_trigger, trigger_sync, wake_sync, end_manual_sync}
use mirror_maestro.Scheduler.Steps.{
  Event, cleanup, begin, finish, trigger, wake, end_manual, step, begin_sync, AllInTime, run,
  run-IsExclusive,
}
use mirror_maestro.Scheduler.Races.{race, race_lem}
use mirror_maestro.Scheduler.Window.{IsMissed, since_of, updated_after_lem}
use mirror_maestro.Scheduler.Outcomes.{find_config}

-- Two mirrors between the projects 7 and 8, one each way, and a configuration for each.
abbrev config_of : ℕ → Config
config_of i = record {
  id = i;
  mirror_id = i;
  enabled = true;
  sync_interval_minutes = 5;
  next_sync_at = none;
  last_sync_at = none;
  last_sync_status = none;
  last_sync_error = none;
}

abbrev pub there : Mirror
there = record {
  id = 1;
  instance_pair_id = 1;
  source_project_id = 7;
  target_project_id = 8;
  source_project_path = codes "g/x";
  target_project_path = codes "g/y";
  mirror_overwrite_diverged = none;
  mirror_trigger_builds = none;
  only_mirror_protected_branches = none;
  mirror_branch_regex = none;
  issue_sync_enabled = none;
  mirror_id = some 70;
  enabled = true;
  last_successful_update = none;
  last_update_at = none;
  last_update_status = none;
  last_error = none;
  status_checked_at = none;
  encrypted_mirror_token = none;
  mirror_token_name = none;
  mirror_token_expires_at = none;
  gitlab_token_id = none;
  token_project_id = none;
  created_at = 1;
  updated_at = 1;
}

abbrev back : Mirror
back = record there {
  id = 2;
  instance_pair_id = 2;
  source_project_id = 8;
  target_project_id = 7;
  issue_sync_enabled = some true;
}

abbrev pub pair_there : Pair
pair_there = record {
  id = 1;
  source_instance_id = 3;
  target_instance_id = 4;
  mirror_direction = codes "push";
  mirror_overwrite_diverged = false;
  mirror_trigger_builds = false;
  only_mirror_protected_branches = true;
  mirror_branch_regex = none;
  issue_sync_enabled = true;
}

abbrev pair_back : Pair
pair_back = record pair_there {
  id = 2;
  source_instance_id = 4;
  target_instance_id = 3;
  issue_sync_enabled = false;
}

abbrev idle_db : Db
idle_db = record {
  jobs = [];
  configs = config_of 1 ∷ config_of 2 ∷ [];
  mirrors = there ∷ back ∷ [];
  pairs = pair_there ∷ pair_back ∷ [];
  instances = 3 ∷ 4 ∷ [];
  next_job_id = 1;
}

starts_there : decide (config_of 1) idle_db ≡ start there pair_there
unfolding decide check_bidirectional_sync_conflict
starts_there = refl

starts_back : decide (config_of 2) idle_db ≡ start back pair_back
unfolding decide check_bidirectional_sync_conflict
starts_back = refl

abbrev busy_db : Db
busy_db = record idle_db { jobs = new_job 0 1 (config_of 1) there pair_there ∷ []; next_job_id = 2 }

one_stale : (cleanup_stale_jobs 999 0 busy_db).0 ≡ 1
unfolding cleanup_stale_jobs is_stale
one_stale = refl

-- A scheduled sync, a manual one the other way, and cleanups.
abbrev events : List Event
events =
    begin 1 (config_of 1)
    ∷ trigger 2 2
    ∷ finish 3 1 1 (returned new_stats)
    ∷ trigger 4 2
    ∷ wake 5 2
    ∷ cleanup 6 60
    ∷ end_manual 7 2 2 (ran (returned new_stats))
    ∷ []

events-AllInTime : AllInTime events idle_db
unfolding step begin_sync decide apply_verdict check_bidirectional_sync_conflict trigger_sync
    check_trigger finish_sync finish_job wake_sync cleanup_stale_jobs fail_stale is_stale
    end_manual_sync
events-AllInTime = (tt, (tt, (tt, (tt, (refl, (tt, (tt, tt)))))))

run-IsExclusive_example : IsExclusive (run events idle_db).jobs
run-IsExclusive_example = run-IsExclusive events idle_db tt events-AllInTime

-- The cleanup fails a job whose task has not begun; when it begins, another job is running.
woken_late :
    ¬ IsExclusive
      (run
        (trigger 1 1
          ∷ cleanup (minutes 61) 60
          ∷ begin (minutes 61) (config_of 1)
          ∷ wake (minutes 62) 1
          ∷ [])
        idle_db).jobs
unfolding run step begin_sync decide apply_verdict check_bidirectional_sync_conflict trigger_sync
    check_trigger wake_sync cleanup_stale_jobs fail_stale is_stale
woken_late h = let (clash, rest) = h in cc clash

race_example : ¬ IsExclusive (race 1 2 (config_of 1) (config_of 2) idle_db).jobs
race_example =
    race_lem 1 2 (config_of 1) (config_of 2) there back pair_there pair_back idle_db starts_there
      starts_back refl refl refl refl

updated_after_example : IsMissed 15 (
    since_of 60 false
      (find_config 1 (sync_config 10 20 (returned new_stats) (config_of 1) idle_db).configs))
updated_after_example =
    updated_after_lem 10 20 60 15 (returned new_stats) (config_of 1) there pair_there idle_db refl
      starts_there (omega arith)
