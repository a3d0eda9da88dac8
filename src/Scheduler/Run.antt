-- ===== src/Scheduler/Run.antt =====
-- app/core/issue_scheduler.py: `_sync_config` from the job's commit to its end, and a round of the
-- scheduler. The engine's run is its outcome: the statistics, or the exception.
use mirror_maestro.Common.{
  ℕ, ◌+◌, Bool, true, ◌&&◌, Option, none, some, List, [], ◌∷◌, any, leb, ◌==◌, if◌then◌else◌,
}
use mirror_maestro.Text.{codes}
use mirror_maestro.Errors.{value_error_of, Outcome, returned, raised}
use mirror_maestro.Sync.{Stats, final_status, failure}
use mirror_maestro.Scheduler.{
  completed, failed, Job, Config, Pair, Db, minutes, one_error, sync_errors, Details,
  scalar_one_or_none, no_row, one_row, many_rows, cleanup_stale_jobs, Verdict, skip, postpone,
  query_error, start, decide, apply_verdict, update_config,
}

abbrev errors_of : Stats → Option Details → Option Details
errors_of stats before = elim stats.errors [ [] ↦ before | e ∷ es ↦ some (sync_errors (e ∷ es)) ]

-- What the job's row becomes.
unfoldable pub finish_job : ℕ → Outcome Stats → Job → Job
finish_job now (returned stats) j = record j {
  status = completed;
  completed_at = some now;
  issues_processed = stats.issues_processed;
  issues_created = stats.issues_created;
  issues_updated = stats.issues_updated;
  issues_failed = stats.issues_failed;
  error_details = errors_of stats j.error_details;
}
finish_job now (raised e) j = record j {
  status = failed;
  completed_at = some now;
  error_details = some (one_error e.message);
}

-- What the configuration's row becomes. On success the engine has written the status.
abbrev pub finish_config : ℕ → Outcome Stats → Config → Config
finish_config now (returned stats) c = record c {
  last_sync_at = some now;
  last_sync_status = some (final_status stats);
  last_sync_error = none;
  next_sync_at = some (now + minutes c.sync_interval_minutes);
}
finish_config now (raised e) c = record c {
  last_sync_at = some now;
  last_sync_status = some failure;
  last_sync_error = some e.message;
  next_sync_at = some (now + minutes c.sync_interval_minutes);
}

abbrev pub update_job : ℕ → (Job → Job) → List Job → List Job
update_job i f [] = []
update_job i f (j ∷ js) = if j.job_id == i then f j ∷ js else j ∷ update_job i f js

unfoldable pub finish_sync : ℕ → ℕ → ℕ → Outcome Stats → Db → Db
finish_sync now config_id job_id o db = record db {
  jobs = update_job job_id (finish_job now o) db.jobs;
  configs = update_config config_id (finish_config now o) db.configs;
}

-- The engine runs if both instances are there.
abbrev pub engine_outcome : Pair → List ℕ → Outcome Stats → Outcome Stats
engine_outcome p instances o =
    if any (λ i. i == p.source_instance_id) instances
      && any (λ i. i == p.target_instance_id) instances
    then o
    else raised (value_error_of (codes "Source or target instance not found"))

abbrev pub after_verdict : ℕ → ℕ → Outcome Stats → Config → Verdict → Db → Db
after_verdict now later o c (start m p) db =
    let started = apply_verdict now c (start m p) db in
    finish_sync later c.id db.next_job_id (engine_outcome p db.instances o) started
after_verdict now later o c skip db = apply_verdict now c skip db
after_verdict now later o c postpone db = apply_verdict now c postpone db
after_verdict now later o c query_error db = apply_verdict now c query_error db

-- `_sync_config`, from `now` to `later`, while no other task writes.
unfoldable pub sync_config : ℕ → ℕ → Outcome Stats → Config → Db → Db
sync_config now later o c db = after_verdict now later o c (decide c db) db

-- Whether the session works after the engine, `usable` where the engine runs.
abbrev pub session_after : Bool → Pair → List ℕ → Bool
session_after usable p instances =
    if any (λ i. i == p.source_instance_id) instances
      && any (λ i. i == p.target_instance_id) instances
    then usable
    else true

abbrev pub after_engine : Bool → ℕ → ℕ → Outcome Stats → Config → Verdict → Db → Db
after_engine usable now later o c (start m p) db =
    if session_after usable p db.instances
    then after_verdict now later o c (start m p) db
    else apply_verdict now c (start m p) db
after_engine usable now later o c skip db = after_verdict now later o c skip db
after_engine usable now later o c postpone db = after_verdict now later o c postpone db
after_engine usable now later o c query_error db = after_verdict now later o c query_error db

-- `_sync_config`, where the engine may leave the session in need of a rollback, as it does when its
-- last commit fails: then the handler's reads and its commit raise, and nothing more is written.
unfoldable pub sync_config_on : Bool → ℕ → ℕ → Outcome Stats → Config → Db → Db
sync_config_on usable now later o c db = after_engine usable now later o c (decide c db) db

abbrev pub due_at : ℕ → Option ℕ → Bool
due_at now none = true
due_at now (some t) = leb t now

-- `enabled == True` and due.
abbrev pub is_due : ℕ → Config → Bool
is_due now c = c.enabled && due_at now c.next_sync_at

-- The configurations for which a task is made.
abbrev pub due_configs : ℕ → List Config → List Config
due_configs now [] = []
due_configs now (c ∷ cs) = let rest = due_configs now cs in if is_due now c then c ∷ rest else rest

-- `_check_and_sync`: the configurations to sync, and the database after the cleanup.
unfoldable pub check_and_sync : ℕ → ℕ → Db → List Config × Db
check_and_sync now timeout_minutes db =
    let (failures, cleaned) = cleanup_stale_jobs now timeout_minutes db in
    (due_configs now cleaned.configs, cleaned)

-- `_sync_config_wrapper`, which reads the configuration again.
unfoldable pub sync_config_wrapper : ℕ → ℕ → Outcome Stats → ℕ → Db → Db
sync_config_wrapper now later o config_id db =
    elim (scalar_one_or_none (λ (c : Config). c.id == config_id) db.configs) [
      | no_row ↦ db
      | many_rows ↦ db
      | one_row c ↦ sync_config now later o c db
    ]
