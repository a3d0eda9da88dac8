-- ===== src/Mirrors/Calls.antt =====
-- app/api/mirrors.py: the request for a mirror, the calls of GitLab that serve it, and what lies
-- outside.
use mirror_maestro.Common.{ℕ, Bool, Option, List, [], ◌∷◌, if◌then◌else◌}
use mirror_maestro.Text.{Text, codes}
use mirror_maestro.Errors.{Outcome}
use mirror_maestro.Tables.{Pair}
use mirror_maestro.Mirrors.Op.{Result}
use mirror_maestro.Mirrors.Url.{ParsedInstance}
use mirror_maestro.Mirrors.Settings.{is_push}
use mirror_maestro.Mirrors.Client.{PushData, PullData}

pub record Instance : Type 0 where
  pub id : ℕ
  pub url : Text

pub record MirrorCreate : Type 0 where
  pub instance_pair_id : ℕ
  pub source_project_id : ℕ
  pub source_project_path : Text
  pub target_project_id : ℕ
  pub target_project_path : Text
  pub mirror_overwrite_diverged : Option Bool
  pub mirror_trigger_builds : Option Bool
  pub only_mirror_protected_branches : Option Bool
  pub mirror_branch_regex : Option Text
  pub issue_sync_enabled : Option Bool
  pub enabled : Bool

-- What GitLab tells of a token, and of a mirror.
pub record TokenInfo : Type 0 where
  pub id : Option ℕ
  pub token : Option Text

pub record MirrorInfo : Type 0 where
  pub id : Option ℕ
  pub url : Option Text

-- A call of GitLab: the instance, the project and what it is about. `none` is an answer that is no
-- dict.
pub data Call : Type 0 where
  create_token : ℕ → ℕ → Text → List Text → Result (Option TokenInfo) → Call
  delete_token : ℕ → ℕ → ℕ → Call
  create_push : ℕ → ℕ → Text → PushData → Result (Option MirrorInfo) → Call
  read_pull : ℕ → ℕ → Result (Option MirrorInfo) → Call
  create_pull : ℕ → ℕ → Text → Option (Text × Text) → PullData → Result (Option MirrorInfo) → Call
  delete_push : ℕ → ℕ → ℕ → Call
  delete_pull : ℕ → ℕ → Call

-- What GitLab, the cipher, the clock and the database do. The service's outcomes and the commit are
-- those of this creation.
pub record Outside : Type 0 where
  pub urlparse : Text → Outcome ParsedInstance
  pub token_outcome : Outcome (Option TokenInfo)
  pub push_outcome : Outcome (Option MirrorInfo)
  pub read_outcome : Outcome (Option MirrorInfo)
  pub pull_outcome : Outcome (Option MirrorInfo)
  pub encrypt : Text → Outcome Text
  pub decrypt : Text → Outcome Text
  pub token_name : Text
  pub expires_at : ℕ
  pub commits : Bool
  pub row_id : ℕ
  pub now : ℕ

-- Who gets the token: the target of a push, the source of a pull.
pub record Place : Type 0 where
  pub instance : Instance
  pub project_id : ℕ
  pub project_path : Text
  pub scopes : List Text

abbrev pub token_place : Pair → Instance → Instance → MirrorCreate → Place
token_place p source target d =
    if is_push p.mirror_direction
    then record {
      instance = target;
      project_id = d.target_project_id;
      project_path = d.target_project_path;
      scopes = codes "write_repository" ∷ [];
    }
    else record {
      instance = source;
      project_id = d.source_project_id;
      project_path = d.source_project_path;
      scopes = codes "read_api" ∷ codes "read_repository" ∷ [];
    }
