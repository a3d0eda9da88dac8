-- ===== src/Scheduler/Steps.antt =====
-- app/core/issue_scheduler.py and app/api/issue_mirrors.py: what the tasks of the scheduler and the
-- manual trigger of a sync do to the database, as steps.
use mirror_maestro.Common.{ℕ, true, List, [], ◌∷◌, ◌≡◌, refl, arith}
use mirror_maestro.Errors.{Outcome}
use mirror_maestro.Sync.{Stats}
use mirror_maestro.Scheduler.{
  Config, Mirror, Pair, Db, cleanup_stale_jobs, check_bidirectional_sync_conflict,
  effective_issue_sync, is_existing, scalar_one_or_none, no_row, decide, apply_verdict, Verdict,
  skip, postpone, query_error, start,
}
use mirror_maestro.Http.{Reply, reply, refuse}
use mirror_maestro.Scheduler.Run.{finish_sync, finish_job}
use mirror_maestro.Scheduler.Triggered.{conflict_rows, MayTrigger, check_trigger-reply}
use mirror_maestro.Scheduler.Manual.{
  Trigger, trigger_checked, check_trigger, trigger_sync, set_running, wake_sync, ManualEnd, end_job,
  end_manual_sync,
}
use mirror_maestro.Database.{none-any}
use mirror_maestro.Scheduler.Exclusive.{
  IsExclusive, AllSettled-IsExclusive, update_job-Settled, cleanup-Settled, conflicting,
  any-new_job-clashes, is_waiting, update_active-Settled, set_running-Settled, finish_job-Settled,
  end_job-Settled,
}

-- `begin` is `_sync_config` up to the job's commit, `finish` is its end; `trigger` is `trigger_sync`,
-- `wake` the first commit of its task, and `end_manual` the task's end.
pub data Event : Type 0 where
  cleanup : ℕ → ℕ → Event
  begin : ℕ → Config → Event
  finish : ℕ → ℕ → ℕ → Outcome Stats → Event
  trigger : ℕ → ℕ → Event
  wake : ℕ → ℕ → Event
  end_manual : ℕ → ℕ → ℕ → ManualEnd → Event

unfoldable pub begin_sync : ℕ → Config → Db → Db
begin_sync now c db = apply_verdict now c (decide c db) db

unfoldable pub step : Event → Db → Db
step (cleanup now timeout) db = (cleanup_stale_jobs now timeout db).1
step (begin now c) db = begin_sync now c db
step (finish now config_id job_id o) db = finish_sync now config_id job_id o db
step (trigger now config_id) db = (trigger_sync now config_id db).1
step (wake now job_id) db = wake_sync now job_id db
step (end_manual now config_id job_id e) db = end_manual_sync now config_id job_id e db

-- A job that a task sets to running is still active: no cleanup has failed it before.
abbrev pub InTime : Event → Db → Type 0
InTime (wake now job_id) db = is_waiting job_id db.jobs ≡ true
InTime (cleanup now timeout) db = Unit
InTime (begin now c) db = Unit
InTime (finish now config_id job_id o) db = Unit
InTime (trigger now config_id) db = Unit
InTime (end_manual now config_id job_id e) db = Unit

unfoldable pub run : List Event → Db → Db
run [] db = db
run (e ∷ es) db = run es (step e db)

-- Each step is in time.
abbrev pub AllInTime : List Event → Db → Type 0
AllInTime [] db = Unit
AllInTime (e ∷ es) db = InTime e db × AllInTime es (step e db)

-- What a start says of the database.
pub record MayStart (c : Config) (m : Mirror) (p : Pair) (db : Db) : Type 0 where
  pub enabled_pair : effective_issue_sync m p ≡ true
  pub none_existing : scalar_one_or_none (is_existing c.id) db.jobs ≡ no_row
  pub none_conflicting : conflict_rows c m p db.jobs ≡ no_row

pub decide-start :
    (c : Config) (m : Mirror) (p : Pair) (db : Db) → decide c db ≡ start m p → MayStart c m p db
unfolding decide
decide-start c m p db e = ground (arith, e)

apply_verdict-IsExclusive :
    (now : ℕ) (c : Config) (v : Verdict) (db : Db)
    → ((m : Mirror) (p : Pair) → v ≡ start m p → MayStart c m p db)
    → IsExclusive db.jobs
    → IsExclusive (apply_verdict now c v db).jobs
unfolding apply_verdict check_bidirectional_sync_conflict
apply_verdict-IsExclusive now c skip db may x = x
apply_verdict-IsExclusive now c postpone db may x = x
apply_verdict-IsExclusive now c query_error db may x = x
apply_verdict-IsExclusive now c (start m p) db may x =
    let ok = may m p refl in
    (
      any-new_job-clashes now db.next_job_id c m p db.jobs
          (none-any (is_existing c.id) db.jobs ok.none_existing)
          (none-any (conflicting now db.next_job_id c m p) db.jobs ok.none_conflicting),
      x,
    )

trigger_checked-IsExclusive :
    (now : ℕ) (db : Db) (r : Reply Trigger)
    → ((t : Trigger) → r ≡ reply t → MayTrigger t db)
    → IsExclusive db.jobs
    → IsExclusive (trigger_checked now db r).1.jobs
unfolding check_bidirectional_sync_conflict
trigger_checked-IsExclusive now db (refuse status detail) may x = x
trigger_checked-IsExclusive now db (reply t) may x =
    let ok = may t refl in
    (
      any-new_job-clashes now db.next_job_id t.config t.mirror t.pair db.jobs
          (none-any (is_existing t.config.id) db.jobs ok.no_existing)
          (none-any (conflicting now db.next_job_id t.config t.mirror t.pair) db.jobs
            ok.no_conflicting),
      x,
    )

pub step-IsExclusive :
    (e : Event) (db : Db) → InTime e db → IsExclusive db.jobs → IsExclusive (step e db).jobs
unfolding step begin_sync cleanup_stale_jobs finish_sync trigger_sync wake_sync end_manual_sync
step-IsExclusive (cleanup now timeout) db w x =
    AllSettled-IsExclusive db.jobs _ (cleanup-Settled now timeout db.jobs) x
step-IsExclusive (begin now c) db w x =
    apply_verdict-IsExclusive now c (decide c db) db (λ m p. decide-start c m p db) x
step-IsExclusive (finish now config_id job_id o) db w x =
    AllSettled-IsExclusive db.jobs _
      (update_job-Settled job_id (finish_job now o) (finish_job-Settled now o) db.jobs) x
step-IsExclusive (trigger now config_id) db w x =
    trigger_checked-IsExclusive now db (check_trigger config_id db)
      (check_trigger-reply config_id db) x
step-IsExclusive (wake now job_id) db w x =
    AllSettled-IsExclusive db.jobs _
      (update_active-Settled job_id (set_running now) (set_running-Settled now) db.jobs w) x
step-IsExclusive (end_manual now config_id job_id e) db w x =
    AllSettled-IsExclusive db.jobs _
      (update_job-Settled job_id (end_job now e) (end_job-Settled now e) db.jobs) x

-- If no two jobs clash and each job that the task of a manual sync sets to running is still active,
-- none do after any sequence of the steps, a decision and its write being one step.
pub run-IsExclusive :
    (es : List Event) (db : Db)
    → IsExclusive db.jobs
    → AllInTime es db
    → IsExclusive (run es db).jobs
unfolding run
run-IsExclusive [] db x w = x
run-IsExclusive (e ∷ es) db x (w, ws) =
    run-IsExclusive es (step e db) (step-IsExclusive e db w x) ws
