-- ===== src/Sync/Target.antt =====
-- app/core/issue_sync.py: what an engine is set up with, and its calls of the target instance. A
-- call is one `_execute_gitlab_api_call`: its outcome is the one after the retries. The outcomes
-- may differ from call to call, so they are asked with the number of the calls made before.
use mirror_maestro.Common.{ℕ, ◌+◌, Bool, true, false, not, ◌&&◌, Option, List, ◌∷◌, if◌then◌else◌}
use mirror_maestro.Text.{Text, codes}
use mirror_maestro.Errors.{exception, Error, Outcome, returned, raised}
use mirror_maestro.Errors.Action.{continue}

-- Of a dict that the target returns, the keys that are read.
pub record TargetIssue : Type 0 where
  pub id : Option ℕ
  pub iid : Option ℕ
  pub description : Option Text

pub record Content : Type 0 where
  pub title : Text
  pub description : Text
  pub labels : List Text
  pub weight : Option ℕ

-- The calls of the target's client that write, on its project.
pub data Request : Type 0 where
  create_issue : Content → Request
  update_issue : ℕ → Content → Request
  close_issue reopen_issue reset_time_spent : ℕ → Request
  set_time_estimate add_time_spent : ℕ → Text → Request

-- `attachments` is `_sync_attachments_in_description` and `comments` is `_sync_comments`.
pub record Outside : Type 0 where
  pub get_issues : ℕ → Text → Outcome (List TargetIssue)
  pub create : ℕ → Content → Outcome TargetIssue
  pub write : ℕ → Request → Outcome (Unit {0})
  pub attachments : ℕ → Text → Outcome Text
  -- whether a commit of the database succeeds
  pub commit : ℕ → Bool
  pub comments : ℕ → ℕ → ℕ → Outcome (Unit {0})

-- The values of `sync_status`.
pub data MappingStatus : Type 0 where
  pending synced partial_sync : MappingStatus

-- `IssueMapping`, of the engine's configuration.
pub record Mapping : Type 0 where
  pub source_issue_id : ℕ
  pub source_issue_iid : ℕ
  pub target_issue_id : ℕ
  pub target_issue_iid : ℕ
  pub sync_status : MappingStatus
  pub source_content_hash : Text

-- `calls` counts the calls, `requests` are those that write, the last one first.
pub record World : Type 0 where
  pub calls : ℕ
  pub requests : List Request
  pub mappings : List Mapping
  -- the session waits for a rollback
  pub broken : Bool

abbrev pub Action : Type 0 → Type 0
Action A = World → Outcome A × World

module _ {A : Type 0} where
  unfoldable pub pure : A → Action A
  pure a w = (returned a, w)

  unfoldable pub lift : Outcome A → Action A
  lift r w = (r, w)

  -- A call that changes nothing on the target.
  unfoldable pub ask : (ℕ → Outcome A) → Action A
  ask f w = (f w.calls, record w { calls = w.calls + 1 })

  -- A call that writes. The request was made even when it raises.
  unfoldable pub send : Request → (ℕ → Outcome A) → Action A
  send r f w = (f w.calls, record w { calls = w.calls + 1; requests = r ∷ w.requests })

abbrev commit_error : Error
commit_error = record { class_of = exception; message = codes "commit failed" }

-- A change of the mappings and `db.commit()`. A commit that fails undoes the change, and until a
-- rollback every further one raises.
unfoldable pub save : Outside → (List Mapping → List Mapping) → Action Unit
save o f w =
    if not w.broken && o.commit w.calls
    then (returned tt, record w { calls = w.calls + 1; mappings = f w.mappings })
    else (raised commit_error, record w { calls = w.calls + 1; broken = true })

abbrev pub rollback : World → World
rollback w = record w { broken = false }

infixl 5 ◌>>=◌ ◌>>◌
unfoldable pub ◌>>=◌ : {A B : Type 0} → Action A → (A → Action B) → Action B
◌>>=◌ m f w = let (r, w') = m w in continue r f w'

abbrev pub ◌>>◌ : {B : Type 0} → Action Unit → Action B → Action B
m >> k = m >>= λ _. k

-- What an engine reads of its configuration, its mirror and its instances. `content_hash` is the
-- digest of `hashlib`.
pub record Engine : Type 0 where
  pub source_project_path : Text
  pub mirror_from_label : Text
  pub mirror_from_label_legacy : Text
  pub originated_from_target_label : Text
  pub originated_from_target_label_legacy : Text
  pub target_host : Text
  pub max_issues_per_sync : ℕ
  pub content_hash : Text → Text
  pub update_existing : Bool
  pub sync_labels : Bool
  pub sync_weight : Bool
  pub sync_attachments : Bool
  pub sync_comments : Bool
  pub sync_time_estimate : Bool
  pub sync_time_spent : Bool
  pub sync_closed_issues : Bool
