-- ===== src/Scheduler/Manual.antt =====
-- app/api/issue_mirrors.py: `trigger_sync`, and the task `run_sync` that it makes.
use mirror_maestro.Common.{ℕ, ◌+◌, Bool, ◌&&◌, none, some, ◌∷◌, ◌++◌, any, ◌==◌, if◌then◌else◌}
use mirror_maestro.Text.{Text, codes, decimal}
use mirror_maestro.Errors.{Outcome, returned, raised}
use mirror_maestro.Http.{Reply, reply, refuse, internal_error}
use mirror_maestro.Sync.{Stats, failure}
use mirror_maestro.Scheduler.{
  JobStatus, pending, running, completed, failed, Job, Config, Mirror, Pair, Db, one_error, Row,
  no_row, one_row, many_rows, scalar_one_or_none, is_existing, check_bidirectional_sync_conflict,
  new_job, update_config,
}
use mirror_maestro.Scheduler.Run.{finish_job, finish_config, update_job}

abbrev pub has_instance : Db → ℕ → Bool
has_instance db i = any (λ j. j == i) db.instances

abbrev pub if_idle : {A : Type 0} → Row Job → (Job → Text) → Reply A → Reply A
if_idle no_row detail next = next
if_idle (one_row j) detail next = refuse 409 (detail j)
if_idle many_rows detail next = internal_error

abbrev pub status_name : JobStatus → Text
status_name pending = codes "pending"
status_name running = codes "running"
status_name completed = codes "completed"
status_name failed = codes "failed"

abbrev in_progress : Job → Text
in_progress j =
    codes "Sync already in progress (job ID: "
    ++ (decimal j.job_id ++ (codes ", status: " ++ (status_name j.status ++ codes ")")))

abbrev in_conflict : Job → Text
in_conflict j =
    codes "Bidirectional sync conflict: A reverse sync job (ID: "
    ++ (decimal j.job_id
        ++ (codes ") is in progress syncing "
            ++ (decimal j.source_project
                ++ (codes "→"
                    ++ (decimal j.target_project
                        ++ codes
                            ". Please wait for it to complete before triggering this sync.")))))

-- `f"{what} {id} not found"`
abbrev not_found : Text → ℕ → Text
not_found what i = what ++ (codes " " ++ (decimal i ++ codes " not found"))

-- What `trigger_sync` starts: the rows of the new job.
pub record Trigger : Type 0 where
  pub config : Config
  pub mirror : Mirror
  pub pair : Pair

abbrev pub trigger_pair : Db → Config → Mirror → Row Pair → Reply Trigger
trigger_pair db c m no_row = refuse 404 (not_found (codes "Instance pair") m.instance_pair_id)
trigger_pair db c m many_rows = internal_error
trigger_pair db c m (one_row p) =
    if has_instance db p.source_instance_id && has_instance db p.target_instance_id
    then if_idle (scalar_one_or_none (is_existing c.id) db.jobs) in_progress (
        if_idle
          (check_bidirectional_sync_conflict m.source_project_id m.target_project_id
            p.source_instance_id p.target_instance_id (some c.id) db.jobs)
          in_conflict (reply record { config = c; mirror = m; pair = p }))
    else refuse 404 (codes "Source or target instance not found")

abbrev pub trigger_mirror : Db → Config → Row Mirror → Reply Trigger
trigger_mirror db c no_row = refuse 404 (not_found (codes "Mirror") c.mirror_id)
trigger_mirror db c many_rows = internal_error
trigger_mirror db c (one_row m) =
    trigger_pair db c m (scalar_one_or_none (λ (p : Pair). p.id == m.instance_pair_id) db.pairs)

abbrev pub trigger_config : ℕ → Db → Row Config → Reply Trigger
trigger_config config_id db no_row =
    refuse 404 (not_found (codes "Issue mirror configuration") config_id)
trigger_config config_id db many_rows = internal_error
trigger_config config_id db (one_row c) =
    if c.enabled
    then trigger_mirror db c (scalar_one_or_none (λ (m : Mirror). m.id == c.mirror_id) db.mirrors)
    else refuse 400 (codes "Cannot trigger sync for disabled configuration")

-- The checks of `trigger_sync`.
unfoldable pub check_trigger : ℕ → Db → Reply Trigger
unfolding check_bidirectional_sync_conflict
check_trigger config_id db =
    trigger_config config_id db (scalar_one_or_none (λ (c : Config). c.id == config_id) db.configs)

-- The new job waits for its task.
abbrev pub manual_job : ℕ → ℕ → Trigger → Job
manual_job now i t = record (new_job now i t.config t.mirror t.pair) {
  status = pending;
  started_at = none;
}

abbrev pub trigger_checked : ℕ → Db → Reply Trigger → Reply ℕ × Db
trigger_checked now db (refuse status detail) = (refuse status detail, db)
trigger_checked now db (reply t) = (
  reply db.next_job_id,
  record db { jobs = manual_job now db.next_job_id t ∷ db.jobs; next_job_id = db.next_job_id + 1 },
)

-- `trigger_sync`: the id of the job, and the database.
unfoldable pub trigger_sync : ℕ → ℕ → Db → Reply ℕ × Db
unfolding check_trigger
trigger_sync now config_id db = trigger_checked now db (check_trigger config_id db)

-- The first commit of `run_sync`. Whatever its status was, the job is running.
abbrev pub set_running : ℕ → Job → Job
set_running now j = record j { status = running; started_at = some now }

unfoldable pub wake_sync : ℕ → ℕ → Db → Db
wake_sync now job_id db = record db { jobs = update_job job_id (set_running now) db.jobs }

-- How `run_sync` ends: the configuration or the mirror is gone, or the engine has run.
pub data ManualEnd : Type 0 where
  gone : Text → ManualEnd
  ran : Outcome Stats → ManualEnd

abbrev pub end_job : ℕ → ManualEnd → Job → Job
end_job now (gone message) j = record j {
  status = failed;
  completed_at = some now;
  error_details = some (one_error message);
}
end_job now (ran o) j = finish_job now o j

-- After an exception the next sync stays as it was.
abbrev pub end_config : ℕ → ManualEnd → Config → Config
end_config now (gone message) c = c
end_config now (ran (returned stats)) c = finish_config now (returned stats) c
end_config now (ran (raised e)) c = record c {
  last_sync_at = some now;
  last_sync_status = some failure;
  last_sync_error = some e.message;
}

unfoldable pub end_manual_sync : ℕ → ℕ → ℕ → ManualEnd → Db → Db
unfolding finish_job
end_manual_sync now config_id job_id e db = record db {
  jobs = update_job job_id (end_job now e) db.jobs;
  configs = update_config config_id (end_config now e) db.configs;
}
