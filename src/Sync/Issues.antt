-- ===== src/Sync/Issues.antt =====
-- app/core/issue_sync.py: `_create_target_issue` and `_update_target_issue`, with what they call.
use mirror_maestro.Common.{
  ℕ, Bool, ◌&&◌, ◌||◌, Option, none, some, List, [], ◌∷◌, ltb, ◌==◌, if◌then◌else◌,
}
use mirror_maestro.Text.{Text, codes, eq_text}
use mirror_maestro.Errors.{value_error_of, Outcome, returned, raised}
use mirror_maestro.Issue.{TimeStats, Issue}
use mirror_maestro.Issue.Footer.{or_default, prepare_description}
use mirror_maestro.Issue.Labels.{prepare_labels}
use mirror_maestro.Issue.Duration.{seconds_to_duration}
use mirror_maestro.Sync.Target.{
  TargetIssue, Content, create_issue, update_issue, close_issue, reopen_issue, reset_time_spent,
  set_time_estimate, add_time_spent, Outside, MappingStatus, pending, synced, partial_sync, Mapping,
  World, Action, ask, send, save, rollback, Engine, pure, lift, ◌>>=◌, ◌>>◌,
}
use mirror_maestro.Sync.Orphans.{find_existing_target_issue}

abbrev pub when : Bool → Action Unit → Action Unit
when b m = if b then m else pure tt

abbrev pub is_closed : Issue → Bool
is_closed issue = eq_text (or_default issue.state (codes "opened")) (codes "closed")

abbrev pub is_opened : Issue → Bool
is_opened issue = eq_text (or_default issue.state (codes "opened")) (codes "opened")

abbrev pub set_status : ℕ → MappingStatus → List Mapping → List Mapping
set_status i s [] = []
set_status i s (m ∷ ms) =
    (if m.source_issue_id == i then record m { sync_status = s } else m) ∷ set_status i s ms

abbrev pub set_hash : ℕ → Text → List Mapping → List Mapping
set_hash i h [] = []
set_hash i h (m ∷ ms) =
    (if m.source_issue_id == i
      then record m { source_content_hash = h; sync_status = pending }
      else m)
    ∷ set_hash i h ms

module _ (o : Outside) (e : Engine) where
  abbrev track_estimate : ℕ → ℕ → Action Unit
  track_estimate iid seconds =
      let r = set_time_estimate iid (seconds_to_duration seconds) in
      when (e.sync_time_estimate && ltb 0 seconds) (send r (λ n. o.write n r))

  abbrev track_spent : ℕ → ℕ → Action Unit
  track_spent iid seconds =
      let r = add_time_spent iid (seconds_to_duration seconds) in
      let reset = reset_time_spent iid in
      when (e.sync_time_spent && ltb 0 seconds)
        (send reset (λ n. o.write n reset) >> send r (λ n. o.write n r))

  -- `_sync_time_tracking`
  unfoldable pub sync_time_tracking : Option TimeStats → ℕ → Action Unit
  sync_time_tracking none iid = pure tt
  sync_time_tracking (some t) iid =
      track_estimate iid t.time_estimate >> track_spent iid t.total_time_spent

  abbrev pub described : Issue → Outcome Text
  described issue = elim (prepare_description e.source_project_path issue) [
    | none ↦
        raised
          (value_error_of (codes "Cannot prepare description: source issue missing 'iid' field"))
    | some d ↦ returned d
  ]

  -- What is sent to the target: `_prepare_labels`, `_prepare_description` and the attachments.
  unfoldable pub prepare_content : Issue → Action Content
  prepare_content issue = do
    d ← lift (described issue)
    description ← (if e.sync_attachments then ask (λ n. o.attachments n d) else pure d)
    pure record {
      title = or_default issue.title (codes "Untitled Issue");
      description = description;
      labels = prepare_labels e.mirror_from_label e.sync_labels issue;
      weight = if e.sync_weight then issue.weight else none;
    }

  -- An `id` and an `iid`, or the exception with the message.
  abbrev pub ids_of : Text → TargetIssue → Outcome (ℕ × ℕ)
  ids_of message t = elim t.id [
    | none ↦ raised (value_error_of message)
    | some i ↦ elim t.iid [ none ↦ raised (value_error_of message) | some n ↦ returned (i, n) ]
  ]

  -- The orphan is updated, or a new issue is created: the `id` and `iid` on the target.
  unfoldable pub place_issue : Issue → Option TargetIssue → Action (ℕ × ℕ)
  place_issue issue (some found) = do
    ids ← lift (ids_of (codes "Invalid existing target issue: missing 'id' or 'iid' field") found)
    content ← prepare_content issue
    let r = update_issue ids.1 content
    send r (λ n. o.write n r)
    pure ids
  place_issue issue none = do
    content ← prepare_content issue
    created ← send (create_issue content) (λ n. o.create n content)
    lift (
        ids_of (codes "GitLab create_issue returned invalid response: missing 'id' or 'iid'")
          created)

  -- The `except` clause, whose own commit may fail.
  abbrev pub roll_back : Outcome (Unit {0}) × World → Outcome (Unit {0}) × World
  roll_back (returned _, w) = (returned tt, w)
  roll_back (raised _, w) = (returned tt, rollback w)

  abbrev pub recover : ℕ → Outcome (Unit {0}) × World → Outcome (Unit {0}) × World
  recover id (returned _, w) = (returned tt, w)
  recover id (raised _, w) = roll_back (save o (set_status id partial_sync) w)

  abbrev pub finish_comments : ℕ → ℕ → ℕ → Action Unit
  finish_comments id iid target_iid =
      when e.sync_comments (ask (λ n. o.comments n iid target_iid)) >> save o (set_status id synced)

  -- The `try` of `_create_target_issue` and of `_update_target_issue`, with the change that its
  -- first commit stores.
  unfoldable pub finish_mapping : (List Mapping → List Mapping) → ℕ → ℕ → ℕ → Action Unit
  finish_mapping change id iid target_iid w =
      recover id ((save o change >> finish_comments id iid target_iid) w)

  -- `_create_target_issue`
  unfoldable pub create_target_issue : ℕ → ℕ → Issue → Text → Action Unit
  create_target_issue id iid issue digest = do
    found ← find_existing_target_issue o e iid
    ids ← place_issue issue found
    let (target_id, target_iid) = ids
    when (e.sync_time_estimate || e.sync_time_spent)
        (sync_time_tracking issue.time_stats target_iid)
    let r = close_issue target_iid
    when (is_closed issue && e.sync_closed_issues) (send r (λ n. o.write n r))
    let mapping : Mapping = record {
      source_issue_id = id;
      source_issue_iid = iid;
      target_issue_id = target_id;
      target_issue_iid = target_iid;
      sync_status = pending;
      source_content_hash = digest;
    }
    finish_mapping (λ ms. mapping ∷ ms) id iid target_iid

  abbrev pub sync_state : Issue → ℕ → Action Unit
  sync_state issue iid =
      if is_closed issue && e.sync_closed_issues
      then send (close_issue iid) (λ n. o.write n (close_issue iid))
      else when (is_opened issue) (send (reopen_issue iid) (λ n. o.write n (reopen_issue iid)))

  -- `_update_target_issue`
  unfoldable pub update_target_issue : ℕ → ℕ → Issue → Mapping → Text → Action Unit
  update_target_issue id iid issue mapping digest = do
    let target_iid = mapping.target_issue_iid
    content ← prepare_content issue
    let r = update_issue target_iid content
    send r (λ n. o.write n r)
    when (e.sync_time_estimate || e.sync_time_spent)
        (sync_time_tracking issue.time_stats target_iid)
    sync_state issue target_iid
    finish_mapping (set_hash id digest) id iid target_iid
