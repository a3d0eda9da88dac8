-- ===== src/Scheduler/Window.antt =====
-- app/core/issue_sync.py and app/core/issue_scheduler.py: from which time on a sync fetches the
-- source issues, and the time that the sync before it has left.
use mirror_maestro.Common.{ℕ, ◌<◌, Bool, true, false, Option, none, some, ◌≡◌}
use mirror_maestro.Errors.{Outcome, returned, raised}
use mirror_maestro.Sync.{Stats}
use mirror_maestro.Scheduler.{Config, Mirror, Pair, Db, decide, start, apply_verdict}
use mirror_maestro.Scheduler.Run.{finish_sync, finish_config, engine_outcome, sync_config}
use mirror_maestro.Scheduler.Outcomes.{find_config, find-update}

-- `updated_after` of `sync`, with `sync_existing_issues` and `last_sync_at`; `none` fetches all.
unfoldable pub updated_after : ℕ → Bool → Option ℕ → Option ℕ
updated_after now true last_sync_at = none
updated_after now false (some t) = some t
updated_after now false none = some now

-- The issue is older than the time from which the issues are fetched.
abbrev pub IsMissed : ℕ → Option ℕ → Type 0
IsMissed t none = ⊥
IsMissed t (some since) = t < since

abbrev pub since_of : ℕ → Bool → Option Config → Option ℕ
since_of now existing none = none
since_of now existing (some c) = updated_after now existing c.last_sync_at

finish_config-since :
    (later next t : ℕ) (o : Outcome Stats) (c : Config)
    → t < later
    → IsMissed t (since_of next false (some (finish_config later o c)))
unfolding updated_after
finish_config-since later next t (returned stats) c h = h
finish_config-since later next t (raised x) c h = h

-- After a sync of a configuration, the row of its id, that is started at `now` and ends at `later`,
-- well or not, the next incremental sync fetches from `later` on: what happened to the source
-- issues before `later`, also while the sync ran and also if it failed for them, is not fetched.
pub updated_after_lem :
    (now later next t : ℕ) (o : Outcome Stats) (c : Config) (m : Mirror) (p : Pair) (db : Db)
    → find_config c.id db.configs ≡ some c
    → decide c db ≡ start m p
    → t < later
    → IsMissed t (since_of next false (find_config c.id (sync_config now later o c db).configs))
unfolding sync_config apply_verdict finish_sync
updated_after_lem now later next t o c m p db e d b =
    let o' = engine_outcome p db.instances o in
    rw (d, find-update later c o' c db.configs e) (finish_config-since later next t o' c b)
