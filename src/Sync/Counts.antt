-- ===== src/Sync/Counts.antt =====
-- app/core/issue_sync.py: the statistics of a sync account for every issue.
use mirror_maestro.Common.{ℕ, ◌+◌, ◌≤◌, List, [], ◌∷◌, length, length-append, ◌≡◌, arith}
use mirror_maestro.Errors.{Error, Outcome, returned, raised}
use mirror_maestro.Issue.{Issue}
use mirror_maestro.Sync.{Stats, new_stats}
use mirror_maestro.Sync.Target.{Outside, World, Engine}
use mirror_maestro.Sync.Issues.{create_target_issue, update_target_issue}
use mirror_maestro.Sync.Batch.{
  Verdict, invalid, skipped, query_error, update, create, judge, processed, failed_issue,
  many_rows_error, after_call, act, sync_issue, sync_issues,
}

abbrev pub handled : Stats → ℕ
handled s = s.issues_created + s.issues_updated + s.issues_skipped + s.issues_failed

-- What a step adds to the statistics.
record Counted (s t : Stats) : Type 0 where
  handled_one : handled t ≡ handled s + 1
  processed_one : t.issues_processed ≤ s.issues_processed + 1
  failures_named : length t.errors + s.issues_failed ≤ t.issues_failed + length s.errors

failed_issue-Counted :
    (issue : Issue) (x : Error) (s : Stats) → Counted s (failed_issue issue x (processed s))
failed_issue-Counted issue x s = record {
  handled_one = omega arith;
  processed_one = omega arith;
  failures_named =
      omega
        (arith, length-append s.errors (record { issue_iid = issue.iid; error = x.message } ∷ []));
}

after_call-Counted :
    (issue : Issue) (s ok : Stats) (r : Outcome (Unit {0})) (w : World)
    → Counted s ok
    → Counted s (after_call issue (processed s) ok (r, w)).0
after_call-Counted issue s ok (returned _) w c = c
after_call-Counted issue s ok (raised x) w c = failed_issue-Counted issue x s

module _ (o : Outside) (e : Engine) where
  act-Counted :
      (issue : Issue) (v : Verdict) (s : Stats) (w : World) → Counted s (act o e issue v s w).0
  act-Counted issue invalid s w = record {
    handled_one = omega arith;
    processed_one = omega arith;
    failures_named = omega arith;
  }
  act-Counted issue skipped s w = record {
    handled_one = omega arith;
    processed_one = omega arith;
    failures_named = omega arith;
  }
  act-Counted issue query_error s w = failed_issue-Counted issue many_rows_error s
  act-Counted issue (update id iid m d) s w =
      let (r, w') = update_target_issue o e id iid issue m d w in
      after_call-Counted issue s _ r w' record {
        handled_one = omega arith;
        processed_one = omega arith;
        failures_named = omega arith;
      }
  act-Counted issue (create id iid d) s w =
      let (r, w') = create_target_issue o e id iid issue d w in
      after_call-Counted issue s _ r w' record {
        handled_one = omega arith;
        processed_one = omega arith;
        failures_named = omega arith;
      }

  counts_from :
      (issues : List Issue) (s : Stats) (w : World)
      → (handled (sync_issues o e issues s w).0 ≡ handled s + length issues)
        × ((sync_issues o e issues s w).0.issues_processed ≤ s.issues_processed + length issues)
        × (length (sync_issues o e issues s w).0.errors + s.issues_failed
            ≤ (sync_issues o e issues s w).0.issues_failed + length s.errors)
  unfolding sync_issues sync_issue
  counts_from [] s w = (omega arith, omega arith, omega arith)
  counts_from (issue ∷ issues) s w =
      let c = act-Counted issue (judge e w.mappings issue) s w in
      let (s', w') = act o e issue (judge e w.mappings issue) s w in
      let (a, b, f) = counts_from issues s' w' in
      (
        omega (arith, a, c.handled_one),
        omega (arith, b, c.processed_one),
        omega (arith, f, c.failures_named),
      )

  -- Of a sync's issues each counts once, as created, updated, skipped or failed; no more are
  -- processed than there are; and no more errors are listed than issues failed.
  pub sync_issues_counts :
      (issues : List Issue) (w : World)
      → (handled (sync_issues o e issues new_stats w).0 ≡ length issues)
        × ((sync_issues o e issues new_stats w).0.issues_processed ≤ length issues)
        × (length (sync_issues o e issues new_stats w).0.errors
            ≤ (sync_issues o e issues new_stats w).0.issues_failed)
  sync_issues_counts issues w =
      let (a, b, f) = counts_from issues new_stats w in
      (omega (arith, a), omega (arith, b), omega (arith, f))
