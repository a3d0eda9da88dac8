-- ===== src/Scheduler/Races.antt =====
-- app/core/issue_scheduler.py: two tasks of `_sync_config` that both query the jobs before either
-- has committed its own. Between the queries and the commit a task awaits the database.
use mirror_maestro.Common.{ℕ, ◌≡◌, arith}
use mirror_maestro.Scheduler.{Config, Mirror, Pair, Db, start, decide, apply_verdict}
use mirror_maestro.Scheduler.Exclusive.{IsExclusive}

-- Both tasks decide on the same jobs, then both write.
unfoldable pub race : ℕ → ℕ → Config → Config → Db → Db
race now later c d db = apply_verdict later d (decide d db) (apply_verdict now c (decide c db) db)

-- Two tasks that both decide on the same jobs to start, in opposite directions between the same
-- projects, leave jobs that clash.
pub race_lem :
    (now later : ℕ) (c d : Config) (m n : Mirror) (p q : Pair) (db : Db)
    → decide c db ≡ start m p
    → decide d db ≡ start n q
    → n.source_project_id ≡ m.target_project_id
    → n.target_project_id ≡ m.source_project_id
    → q.source_instance_id ≡ p.target_instance_id
    → q.target_instance_id ≡ p.source_instance_id
    → ¬ IsExclusive (race now later c d db).jobs
unfolding race apply_verdict
race_lem now later c d m n p q db e f a1 a2 a3 a4 =
    rw (e, f) (λ (h, rest). ground (arith, h, a1, a2, a3, a4))
