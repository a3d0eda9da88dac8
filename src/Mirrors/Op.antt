-- ===== src/Mirrors/Op.antt =====
-- app/api/mirrors.py: what a mirror endpoint raises, and `_execute_gitlab_op`, which makes
-- HTTP errors of what the service raises.
use mirror_maestro.Common.{ℕ, if◌then◌else◌}
use mirror_maestro.Text.{Text, codes}
use mirror_maestro.Errors.{
  ErrorClass, connection_error, rate_limit_error, is_client_error, Error, Outcome, returned, raised,
}

-- An `HTTPException`, with its status and detail, or another exception.
pub data Raise : Type 0 where
  http : ℕ → Text → Raise
  other : Error → Raise

pub data Result (A : Type 0) : Type 0 where
  ok : A → Result A
  thrown : Raise → Result A

-- An exception that is raised, by its class.
abbrev pub translated : Error → ErrorClass → Raise
translated e connection_error =
    http 503 (codes "GitLab service unavailable. Check server logs for details.")
translated e rate_limit_error =
    http 429 (codes "GitLab rate limit exceeded. Please try again later.")
translated e class_of =
    if is_client_error class_of
    then http 500 (codes "GitLab operation failed. Check server logs for details.")
    else other e

-- `_execute_gitlab_op`, from what the service's `execute` gives.
abbrev pub execute_gitlab_op : {A : Type 0} → Outcome A → Result A
execute_gitlab_op (returned a) = ok a
execute_gitlab_op (raised e) = thrown (translated e e.class_of)
