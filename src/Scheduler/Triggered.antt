-- ===== src/Scheduler/Triggered.antt =====
-- app/api/issue_mirrors.py: what the checks of a manual trigger have found when it is carried out.
use mathlib.Core.Path.{subst}
use mirror_maestro.Common.{ℕ, true, false, ◌&&◌, some, List, ◌≡◌, refl, Bool, if◌then◌else◌, ◌==◌}
use mirror_maestro.Text.{Text}
use mirror_maestro.Scheduler.{
  Job, Config, Mirror, Pair, Db, check_bidirectional_sync_conflict, is_existing, scalar_one_or_none,
  Row, no_row, one_row, many_rows,
}
use mirror_maestro.Http.{Reply, reply, refuse}
use mirror_maestro.Scheduler.Manual.{
  Trigger, has_instance, if_idle, trigger_pair, trigger_mirror, trigger_config, check_trigger,
}

abbrev pub conflict_rows : Config → Mirror → Pair → List Job → Row Job
conflict_rows c m p =
    check_bidirectional_sync_conflict m.source_project_id m.target_project_id p.source_instance_id
      p.target_instance_id (some c.id)

-- What a trigger that is carried out says of the database.
pub record MayTrigger (t : Trigger) (db : Db) : Type 0 where
  pub no_existing : scalar_one_or_none (is_existing t.config.id) db.jobs ≡ no_row
  pub no_conflicting : conflict_rows t.config t.mirror t.pair db.jobs ≡ no_row

if_idle-reply :
    {A : Type 0} (row : Row Job) (detail : Job → Text) (next : Reply A) (a : A)
    → if_idle row detail next ≡ reply a
    → (row ≡ no_row) × (next ≡ reply a)
if_idle-reply no_row detail next a e = (refl, e)
if_idle-reply (one_row j) detail next a e = cc e
if_idle-reply many_rows detail next a e = cc e

reply_value : (u t : Trigger) → reply u ≡ reply t → u ≡ t
reply_value u t e = cc e

allowed-reply :
    {A : Type 0} (b : Bool) (r : Reply A) (status : ℕ) (detail : Text) (a : A)
    → (if b then r else refuse status detail) ≡ reply a
    → r ≡ reply a
allowed-reply true r status detail a e = e
allowed-reply false r status detail a e = cc e

trigger_pair-reply :
    (db : Db) (c : Config) (m : Mirror) (r : Row Pair) (t : Trigger)
    → trigger_pair db c m r ≡ reply t
    → MayTrigger t db
trigger_pair-reply db c m no_row t e = cc e
trigger_pair-reply db c m many_rows t e = cc e
trigger_pair-reply db c m (one_row p) t e =
    let both = has_instance db p.source_instance_id && has_instance db p.target_instance_id in
    let (first, e1) = if_idle-reply _ _ _ t (allowed-reply both _ _ _ t e) in
    let (second, e2) = if_idle-reply _ _ _ t e1 in
    let same = reply_value record { config = c; mirror = m; pair = p } t e2 in
    subst (λ u. MayTrigger u db) same record { no_existing = first; no_conflicting = second }

trigger_mirror-reply :
    (db : Db) (c : Config) (r : Row Mirror) (t : Trigger)
    → trigger_mirror db c r ≡ reply t
    → MayTrigger t db
trigger_mirror-reply db c no_row t e = cc e
trigger_mirror-reply db c many_rows t e = cc e
trigger_mirror-reply db c (one_row m) t e =
    trigger_pair-reply db c m
      (scalar_one_or_none (λ (p : Pair). p.id == m.instance_pair_id) db.pairs) t e

trigger_config-reply :
    (config_id : ℕ) (db : Db) (r : Row Config) (t : Trigger)
    → trigger_config config_id db r ≡ reply t
    → MayTrigger t db
trigger_config-reply i db no_row t e = cc e
trigger_config-reply i db many_rows t e = cc e
trigger_config-reply i db (one_row c) t e =
    let found = scalar_one_or_none (λ (m : Mirror). m.id == c.mirror_id) db.mirrors in
    trigger_mirror-reply db c found t (allowed-reply c.enabled _ _ _ t e)

pub check_trigger-reply :
    (config_id : ℕ) (db : Db) (t : Trigger) → check_trigger config_id db ≡ reply t → MayTrigger t db
unfolding check_trigger
check_trigger-reply config_id db =
    trigger_config-reply config_id db
      (scalar_one_or_none (λ (c : Config). c.id == config_id) db.configs)
