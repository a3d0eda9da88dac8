-- ===== src/Sync/Tests.antt =====
-- app/core/issue_sync.py: the properties of the engine at concrete calls.
use mirror_maestro.Common.{
  inr, ℕ, ◌+◌, ◌<◌, ◌≤◌, ◌↔◌, ◌≡◌, refl, true, false, none, some, [], ◌∷◌, ◌++◌, arith,
}
use mirror_maestro.Text.{Text, codes, contains, after_prefix, decimal, eq_text, digits_of}
use mirror_maestro.Errors.{not_found_error, Outcome, returned, raised}
use mirror_maestro.Breaker.{CircuitBreaker, new_breaker, check_and_transition}
use mirror_maestro.Breaker.Invariant.{IsValid, new_breaker-IsValid}
use mirror_maestro.Retry.{new_limiter}
use mirror_maestro.Issue.Footer.{
  extract_footer, footer_separator, prepare_description, build_footer,
}
use mirror_maestro.Issue.Labels.{extract_hostname, originated_from_target, footer_names_host}
use mirror_maestro.Issue.{Issue}
use mirror_maestro.Issue.Tests.{plain_issue, parsed}
use mirror_maestro.Sync.{new_stats}
use mirror_maestro.Sync.Target.{
  TargetIssue, Outside, World, Engine, pure, lift, ask, send, save, ◌>>=◌,
}
use mirror_maestro.Sync.Orphans.{
  source_ref, matches_source, find_existing_target_issue, first_match,
}
use mirror_maestro.Sync.Issues.{prepare_content, place_issue, finish_mapping, create_target_issue}
use mirror_maestro.Sync.Batch.{create, digest_of, judge, processed, sync_issue, sync_issues}
use mirror_maestro.Sync.Unique.{AllDistinct, source_ids, sync_issues-AllDistinct}
use mirror_maestro.Sync.Again.{sync_issue_again}
use mirror_maestro.Sync.Returning.{targeting, sync_issue-mirrored}
use mirror_maestro.Sync.Mistaken.{matches_source-mirrored}
use mirror_maestro.Sync.Calls.{execute_gitlab_api_call, execute_gitlab_api_call_lem}

-- A target with no issues, which creates the issue 5 and takes every write.
abbrev target : Outside
target = record {
  get_issues = λ n label. returned [];
  create = λ n content. returned record { id = some 50; iid = some 5; description = none };
  write = λ n request. returned tt;
  attachments = λ n d. returned d;
  commit = λ n. true;
  comments = λ n iid target_iid. returned tt;
}

abbrev engine : Engine
engine = record {
  source_project_path = codes "g/x";
  mirror_from_label = codes "Mirrored-From::a.example";
  mirror_from_label_legacy = codes "Mirrored-From::instance-1";
  originated_from_target_label = codes "Mirrored-From::b.example";
  originated_from_target_label_legacy = codes "Mirrored-From::instance-2";
  target_host = codes "b.example";
  max_issues_per_sync = 100;
  content_hash = λ s. s;
  update_existing = true;
  sync_labels = true;
  sync_weight = false;
  sync_attachments = false;
  sync_comments = true;
  sync_time_estimate = false;
  sync_time_spent = false;
  sync_closed_issues = false;
}

abbrev new_world : World
new_world = record { calls = 0; requests = []; mappings = []; broken = false }

sync_issues-AllDistinct_example : AllDistinct (
    source_ids
      (sync_issues target engine (plain_issue ∷ plain_issue ∷ []) new_stats new_world).1.mappings)
sync_issues-AllDistinct_example =
    sync_issues-AllDistinct target engine (plain_issue ∷ plain_issue ∷ []) new_stats new_world tt

abbrev done_world : World
done_world =
    (create_target_issue target engine 90 12 plain_issue (digest_of engine plain_issue) new_world).1

judged : judge engine [] plain_issue ≡ create 90 12 (digest_of engine plain_issue)
unfolding judge originated_from_target footer_names_host contains after_prefix eq_text
judged = refl

made :
    create_target_issue target engine 90 12 plain_issue (digest_of engine plain_issue) new_world
    ≡ (returned tt, done_world)
unfolding create_target_issue find_existing_target_issue first_match place_issue finish_mapping
    prepare_content prepare_description ◌>>=◌ pure lift ask send save eq_text
made = refl

sync_issue_again_example :
    sync_issue target engine plain_issue new_stats done_world
    ≡ (record (processed new_stats) { issues_skipped = new_stats.issues_skipped + 1 }, done_world)
sync_issue_again_example =
    sync_issue_again target engine plain_issue 90 12 (digest_of engine plain_issue) new_world
      done_world new_stats (λ n. refl) refl judged made

abbrev empty_issue : TargetIssue
empty_issue = record { id = some 50; iid = some 5; description = none }

abbrev text_of_twelve : Text
text_of_twelve =
    (extract_footer plain_issue.description).0
    ++ (footer_separator
        ++ build_footer (codes "g/x") 12 (codes "https://a.example/x/-/issues/12") plain_issue)

-- The mirror of the issue, which has lost its labels.
abbrev unlabelled_mirror : Issue
unlabelled_mirror = record plain_issue { labels = []; description = some text_of_twelve }

sync_issue-mirrored_example :
    sync_issue target
      (targeting parsed (codes "https://a.example") engine)
      unlabelled_mirror
      new_stats
      new_world
    ≡ (record (processed new_stats) { issues_skipped = new_stats.issues_skipped + 1 }, new_world)
unfolding prepare_description extract_hostname contains after_prefix
sync_issue-mirrored_example =
    sync_issue-mirrored target engine parsed (codes "https://a.example") (codes "g/x")
      text_of_twelve true plain_issue unlabelled_mirror 90 12 new_stats new_world refl refl refl
      (inr (refl, refl, refl))

matches_source-mirrored_example :
    matches_source
      (source_ref (codes "g/x") 1)
      (record empty_issue { description = some text_of_twelve })
    ≡ true
unfolding prepare_description decimal digits_of
matches_source-mirrored_example =
    matches_source-mirrored (codes "g/x") 1 12 (codes "2") text_of_twelve plain_issue empty_issue
      refl refl refl

abbrev breaker : CircuitBreaker
breaker = new_breaker 5 60 2 (λ c. true)

abbrev missing : ℕ → Outcome ℕ
missing n = raised record { class_of = not_found_error; message = codes "not found" }

execute_gitlab_api_call_example :
    IsValid (execute_gitlab_api_call 1 2 missing breaker (new_limiter 0 3)).breaker
    × ((execute_gitlab_api_call 1 2 missing breaker (new_limiter 0 3)).breaker.failure_count
        ≤ breaker.failure_count + 1)
    × ((check_and_transition 1 breaker).1 ≡ true
        ↔ 0 < (execute_gitlab_api_call 1 2 missing breaker (new_limiter 0 3)).attempts)
execute_gitlab_api_call_example =
    execute_gitlab_api_call_lem 1 2 missing breaker (new_limiter 0 3)
      (new_breaker-IsValid 5 60 2 (λ c. true) (omega arith) (omega arith))
