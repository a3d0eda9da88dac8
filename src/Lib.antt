-- ===== src/Lib.antt =====
-- Mirror Maestro keeps GitLab projects mirrored between instances, and their issues in step. This
-- library models the parts of its Python code that decide what happens, and proves what they do.
--
-- How the program fits together. `app/core/issue_scheduler.py` looks every minute for the issue
-- mirror configurations that are due and starts a job for each; a job runs an `IssueSyncEngine` of
-- `app/core/issue_sync.py`, which reads the source project's issues and creates or updates their
-- mirrors on the target. The engine's calls of GitLab go through the `RateLimiter` and the
-- `CircuitBreaker` of `app/core/rate_limiter.py`. The calls of the mirror endpoints go through
-- `MirrorGitLabService` of `app/core/mirror_gitlab_service.py`, which has one breaker for each
-- instance and one rate limiter. `app/api/mirrors.py` creates, changes, checks and deletes mirrors,
-- `app/api/topology.py` sums them up as a graph of the instances, and `app/api/issue_mirrors.py`
-- starts a sync by hand. `app/api/backup.py` writes all tables with the encryption key to an archive
-- and reads it back. Endpoints ask `app/core/auth.py` who a request comes from.
--
-- The files, each with the children in its folder:
-- - Common, Text, Errors, Database: what the others share. A text is a list of code points; an
--   exception is a class and a message, and a call that may raise gives an `Outcome`; a query is
--   `scalar_one_or_none` on a list of rows. Errors.Action has actions that may raise on a state, and
--   Errors.Client is `_handle_gitlab_error` of `app/core/gitlab_client.py`.
-- - Breaker: `CircuitBreaker`. Each block under the lock is one function on the record of its
--   fields, the clock's reading an argument; `Breaker.Events` makes sequences of them, which is
--   what threads do. `Breaker.Graph` is the specification: the states and the edges between them.
-- - Retry: `RateLimiter`, with the loop of `execute_with_retry`, and Tracker:
--   `BatchOperationTracker`.
-- - Service: `MirrorGitLabService.execute`, on every branch, and `execute_batch`. What other
--   threads do to the breaker before an attempt is a function of the operation's record.
-- - Issue: the dicts of the API as records. Issue.Footer: `extract_footer`, `build_footer` and
--   `_prepare_description`. Issue.Labels: the labels of a mirrored issue and the checks that stop a
--   loop. Issue.Duration: `_seconds_to_duration`.
-- - Download: `download_file`, with the guard against requests to internal networks. The outside
--   is a record of functions, and a trace says which URLs were checked and requested.
-- - Sync: `IssueSyncEngine`. Sync.Batch has `_sync_issue` and the loop of `sync`, Sync.Issues the
--   creation and update of the target's issue, Sync.Orphans the search for a mirror that has no
--   mapping, Sync.Returning the issues that come back, Sync.Calls `_execute_gitlab_api_call`, and
--   Sync.Target the calls and the state: the mappings and the requests made so far. Sync.Comments
--   is `_sync_comments`, Sync.Urls and Sync.Attachments are `_sync_attachments_in_description`
--   with the URLs it finds and replaces, and Sync.Cleanup is `cleanup_orphaned_resources`.
-- - Tables: the rows that the scheduler and the mirrors use. Scheduler: `cleanup_stale_jobs`, the
--   conflict check and the guards of `_sync_config`; Scheduler.Run has its end and the rounds,
--   Scheduler.Manual `trigger_sync` of `app/api/issue_mirrors.py` and the task `run_sync` that it
--   starts, Scheduler.Steps the steps that all these tasks do, Scheduler.Races two tasks that decide
--   before either writes.
-- - Http: the errors of the endpoints. Mirrors, of `app/api/mirrors.py`: Mirrors.Op is
--   `_execute_gitlab_op`, Mirrors.Url the URLs that hold a login, Mirrors.Settings
--   `_resolve_effective_settings`, Mirrors.Verify the check of a mirror against GitLab,
--   Mirrors.Client what GitLab stores of a request, Mirrors.Update the data that `update_mirror` and
--   `rotate_mirror_token` send, Mirrors.Calls, Mirrors.Tokens and Mirrors.Create
--   `_create_mirror_internal` with the token and the clean-up after each failure,
--   Mirrors.Deletion the deletion of mirrors with all rows that hang on them, and Mirrors.Refresh
--   `_refresh_mirror_status`, with the round of `app/core/mirror_status_scheduler.py` in its child
--   Cycle.
-- - Topology: the links of `get_topology` and of `get_link_mirrors`, with their health.
-- - Backup: the export of all tables, the archive, and the restore, of `app/api/backup.py`.
--   Backup.Schema has the columns of `app/models.py`, Backup.Import what is read back and how the
--   sequences are reset, Backup.Archive the checks of the archive, Backup.Restore the endpoints.
-- - Auth: `verify_credentials` and `require_admin` of `app/core/auth.py`, and Users: the endpoints
--   of `app/api/users.py` that change the user table.
--
-- Numbers and loops. Python's integers are natural numbers here, and times are microseconds; where
-- the code subtracts times, the summand stands on the other side. The retry loops recurse on the
-- rounds that are left, the redirects on those that are allowed, so no fuel is chosen: the
-- functions are total. The digits of a number use fuel above the number, which is enough since
-- every round divides by ten.
--
-- What lies outside is a parameter: URL parsing, DNS, HTTP, `ipaddress`, `hashlib`, `jose` and
-- `bcrypt`, encryption, JSON, `tarfile`, the texts of times and the order in which a set is iterated
-- are arguments, and the outcomes of GitLab's calls are functions of the number of the call, so that
-- they may differ each time. In Sync.Batch the outcomes of `_sync_comments` and
-- `_sync_attachments_in_description` are such functions too: what these two do is in modules of
-- their own, on states of their own. Whether a commit of the database succeeds is a parameter in the
-- engine, in Mirrors.Create, in Mirrors.Refresh and, by the tables, in Backup; in Scheduler.Run the
-- session may need a rollback after the engine. Elsewhere commits succeed. The regular expressions
-- of the URLs are recursive functions.
--
-- Not modelled are floats (rates, elapsed seconds of metrics), logging, the asyncio tasks and the
-- shutdown of the schedulers, the wrappers of python-gitlab beside those of Mirrors.Client, the
-- endpoints of pairs and instances, logins, dashboard, search and export, the nodes of the topology,
-- settings and start-up: input and output, or plain table operations. The backup that a restore may
-- write before it begins is left out, since a failure to write it is ignored.
pub mod Common
pub mod Text
pub mod Errors
pub mod Http
pub mod Database
pub mod Breaker
pub mod Retry
pub mod Tracker
pub mod Service
pub mod Issue
pub mod Download
pub mod Sync
pub mod Tables
pub mod Scheduler
pub mod Auth
pub mod Backup
pub mod Users
pub mod Mirrors
pub mod Topology
