-- ===== src/Mirrors/Refresh/Cycle.antt =====
-- app/core/mirror_status_scheduler.py: `_refresh_cycle`.
use mirror_maestro.Common.{ℕ, ◌+◌, Bool, List, [], ◌∷◌, length, if◌then◌else◌}
use mirror_maestro.Text.{codes, contains}
use mirror_maestro.Errors.{Outcome, returned, raised}
use mirror_maestro.Tables.{Mirror}
use mirror_maestro.Mirrors.Refresh.{
  Around, RefreshWorld, RefreshResult, refreshed, not_refreshed, rollback_error,
  refresh_mirror_status,
}

pub record Tally : Type 0 where
  pub success_count : ℕ
  pub error_count : ℕ
  pub skipped_count : ℕ

-- The numbers that the scheduler shows.
pub record LastRefresh : Type 0 where
  pub total : ℕ
  pub success : ℕ
  pub errors : ℕ

abbrev pub counted_result : Outcome RefreshResult → Tally → Tally
counted_result (raised e) t = record t { error_count = t.error_count + 1 }
counted_result (returned (refreshed status at successful error)) t = record t {
  success_count = t.success_count + 1;
}
counted_result (returned (not_refreshed error)) t =
    if contains (codes "not been created") error
    then record t { skipped_count = t.skipped_count + 1 }
    else record t { error_count = t.error_count + 1 }

module _ (o : Around) (running : ℕ → Bool) where
  -- The loop; `running` tells before each mirror whether the scheduler still runs.
  -- A commit that fails expires the rows, and the handler reads the mirror's id: on a session that
  -- waits for a rollback this raises, out of the loop.
  unfoldable pub refresh_all : List Mirror → ℕ → Tally → RefreshWorld → Outcome Tally × RefreshWorld
  unfolding refresh_mirror_status contains
  refresh_all [] n t w = (returned t, w)
  refresh_all (m ∷ ms) n t w =
      let (r, w') = refresh_mirror_status o m w in
      let rest = refresh_all ms (n + 1) (counted_result r t) w' in
      if running n
      then (if w'.broken then (raised (rollback_error o), w') else rest)
      else (returned t, w)

  abbrev pub shown : ℕ → LastRefresh → Outcome Tally → LastRefresh
  shown total last (raised e) = last
  shown total last (returned t) = record {
    total = total;
    success = t.success_count;
    errors = t.error_count;
  }

  -- `_refresh_cycle`, on the mirrors in the order of the query. The caller logs what it raises; the numbers of the round before stay.
  unfoldable pub refresh_cycle :
      LastRefresh → List Mirror → RefreshWorld → LastRefresh × RefreshWorld
  unfolding refresh_all
  refresh_cycle last ms w =
      let (t, w') =
        refresh_all ms 0 record { success_count = 0; error_count = 0; skipped_count = 0 } w in
      (shown (length ms) last t, w')
