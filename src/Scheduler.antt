-- ===== src/Scheduler.antt =====
-- app/core/issue_scheduler.py, on the tables of app/models.py that it reads and writes.
pub mod Run
pub mod Manual
pub mod Triggered
pub mod Stale
pub mod Exclusive
pub mod Steps
pub mod Races
pub mod Outcomes
pub mod Window
pub mod Tests
use mirror_maestro.Common.{
  ℕ, suc, ◌+◌, ◌*◌, ◌^◌, Bool, true, false, not, ◌&&◌, ◌||◌, Option, none, some, List, [], ◌∷◌,
  ◌++◌, map, any, leb, ltb, ◌==◌, if◌then◌else◌,
}
pub use mirror_maestro.Tables.{
  JobStatus, pending, running, completed, failed, Details, one_error, sync_errors, Job, Config,
  Mirror, Pair, Db,
}
pub use mirror_maestro.Database.{Row, no_row, many_rows, one_row, scalar_one_or_none}
use mirror_maestro.Text.{Text, codes, decimal}
use mirror_maestro.Sync.{IssueError, SyncStatus}

abbrev pub minutes : ℕ → ℕ
minutes n = n * (60 * 10 ^ 6)

-- `status.in_(["pending", "running"])`
abbrev pub is_active : Job → Bool
is_active j = elim j.status [ pending ↦ true | running ↦ true | _ ↦ false ]

-- The age test, `t < now - timeout`, with the timeout on the other side.
abbrev older : ℕ → ℕ → Option ℕ → Bool
older now timeout none = false
older now timeout (some t) = ltb (t + timeout) now

unfoldable pub is_stale : ℕ → ℕ → Job → Bool
is_stale now timeout j = elim j.status [
  | running ↦ older now timeout j.started_at
  | pending ↦ older now timeout (some j.created_at)
  | _ ↦ false
]

abbrev stale_error : ℕ → Details
stale_error timeout_minutes = one_error (
    codes "Job marked as stale after "
    ++ decimal timeout_minutes
    ++ codes " minutes. "
    ++ codes "This usually indicates the application crashed or restarted during sync.")

unfoldable pub fail_stale : ℕ → ℕ → Job → Job
fail_stale now timeout_minutes j =
    if is_stale now (minutes timeout_minutes) j
    then record j {
      status = failed;
      completed_at = some now;
      error_details = some (stale_error timeout_minutes);
    }
    else j

abbrev pub count : {A : Type 0} → (A → Bool) → List A → ℕ
count p [] = 0
count p (x ∷ xs) = if p x then suc (count p xs) else count p xs

-- `cleanup_stale_jobs`, with `stale_job_timeout_minutes`.
unfoldable pub cleanup_stale_jobs : ℕ → ℕ → Db → ℕ × Db
cleanup_stale_jobs now timeout_minutes db = (
  count (is_stale now (minutes timeout_minutes)) db.jobs,
  record db { jobs = map (fail_stale now timeout_minutes) db.jobs },
)

-- Whether the job runs the other way between the same two projects.
abbrev pub opposes : ℕ → ℕ → ℕ → ℕ → Job → Bool
opposes source_project target_project source_instance target_instance j =
    j.source_project == target_project
    && (j.target_project == source_project
        && (j.source_instance == target_instance && j.target_instance == source_instance))

-- `exclude_config_id`
abbrev not_excluded : Option ℕ → Job → Bool
not_excluded none j = true
not_excluded (some c) j = not (j.config_id == c)

abbrev pub conflicts : ℕ → ℕ → ℕ → ℕ → Option ℕ → Job → Bool
conflicts source_project target_project source_instance target_instance exclude j =
    is_active j
    && (opposes source_project target_project source_instance target_instance j
        && not_excluded exclude j)

unfoldable pub check_bidirectional_sync_conflict : ℕ → ℕ → ℕ → ℕ → Option ℕ → List Job → Row Job
check_bidirectional_sync_conflict sp tp si ti exclude jobs =
    scalar_one_or_none (conflicts sp tp si ti exclude) jobs

-- The query of the configuration's own jobs.
abbrev pub is_existing : ℕ → Job → Bool
is_existing config_id j = j.config_id == config_id && is_active j

abbrev pub effective_issue_sync : Mirror → Pair → Bool
effective_issue_sync m p = elim m.issue_sync_enabled [ none ↦ p.issue_sync_enabled | some b ↦ b ]

-- What `_sync_config` finds before it writes: nothing to do, try again in a minute, start, or an
-- exception of a query.
pub data Verdict : Type 0 where
  skip postpone query_error : Verdict
  start : Mirror → Pair → Verdict

abbrev pub judge_conflict : Mirror → Pair → Row Job → Verdict
judge_conflict m p no_row = start m p
judge_conflict m p (one_row j) = postpone
judge_conflict m p many_rows = query_error

abbrev pub judge_existing : Row Job → Verdict → Verdict
judge_existing no_row v = v
judge_existing (one_row j) v = skip
judge_existing many_rows v = query_error

abbrev pub judge_pair : Config → Mirror → List Job → Row Pair → Verdict
judge_pair c m jobs no_row = skip
judge_pair c m jobs many_rows = query_error
judge_pair c m jobs (one_row p) =
    if effective_issue_sync m p
    then judge_existing (scalar_one_or_none (is_existing c.id) jobs) (
        judge_conflict m p (
          check_bidirectional_sync_conflict m.source_project_id m.target_project_id
            p.source_instance_id p.target_instance_id (some c.id) jobs))
    else skip

-- The reading part of `_sync_config`.
unfoldable pub decide : Config → Db → Verdict
decide c db = elim (scalar_one_or_none (λ (m : Mirror). m.id == c.mirror_id) db.mirrors) [
  | no_row ↦ skip
  | many_rows ↦ query_error
  | one_row m ↦
      judge_pair c m db.jobs
        (scalar_one_or_none (λ (p : Pair). p.id == m.instance_pair_id) db.pairs)
]

abbrev pub update_config : ℕ → (Config → Config) → List Config → List Config
update_config i f [] = []
update_config i f (c ∷ cs) = if c.id == i then f c ∷ cs else c ∷ update_config i f cs

abbrev pub new_job : ℕ → ℕ → Config → Mirror → Pair → Job
new_job now i c m p = record {
  job_id = i;
  config_id = c.id;
  status = running;
  started_at = some now;
  completed_at = none;
  created_at = now;
  issues_processed = 0;
  issues_created = 0;
  issues_updated = 0;
  issues_failed = 0;
  error_details = none;
  source_project = m.source_project_id;
  target_project = m.target_project_id;
  source_instance = p.source_instance_id;
  target_instance = p.target_instance_id;
}

-- The writing part up to the job's commit: the next check in a minute, or the new job.
unfoldable pub apply_verdict : ℕ → Config → Verdict → Db → Db
apply_verdict now c postpone db = record db {
  configs = update_config c.id (λ k. record k { next_sync_at = some (now + minutes 1) }) db.configs;
}
apply_verdict now c (start m p) db = record db {
  jobs = new_job now db.next_job_id c m p ∷ db.jobs;
  next_job_id = db.next_job_id + 1;
}
apply_verdict now c _ db = db
