-- ===== src/Errors/Client.antt =====
-- app/core/gitlab_client.py: `_handle_gitlab_error`, which makes a client error of any exception.
pub mod Retried
mod Tests
use mirror_maestro.Common.{
  ℕ, Bool, true, false, ◌||◌, Option, none, some, List, [], ◌∷◌, ◌++◌, leb, ◌==◌, if◌then◌else◌,
}
use mirror_maestro.Text.{Text, codes, contains, lower, decimal}
use mirror_maestro.Errors.{
  ErrorClass, client_error, authentication_error, connection_error, not_found_error,
  permission_error, rate_limit_error, server_error, Error,
}

-- The classes of exceptions that are told apart: `ConnectionError` and `TimeoutError`, those of
-- python-gitlab, none of which derives from another, and all others. An HTTP error may have a code.
pub data Exception : Type 0 where
  connection auth get create delete update other : Exception
  http : Option ℕ → Exception

abbrev pub made : ErrorClass → Text → Error
made c m = record { class_of = c; message = m }

abbrev pub mentions : Text → Text → Bool
mentions s t = contains t s

-- The first error whose test holds.
abbrev pub Rule : Type 0
Rule = Bool × Error

unfoldable pub first_rule : List Rule → Option Error
first_rule [] = none
first_rule ((b, e) ∷ rest) = if b then some e else first_rule rest

module _ (operation : Text) (error_msg : Text) where
  abbrev pub says : Text → Text
  says text = operation ++ (codes ": " ++ text)

  abbrev pub with_message : Text → Text
  with_message text = says (text ++ (codes " - " ++ error_msg))

  abbrev pub lower_msg : Text
  lower_msg = lower error_msg

  abbrev pub not_found_rule : Rule
  not_found_rule = (
    mentions error_msg (codes "404") || mentions lower_msg (codes "not found"),
    made not_found_error (with_message (codes "Resource not found")),
  )

  abbrev pub unauthorized_rule : Rule
  unauthorized_rule = (
    mentions error_msg (codes "401") || mentions lower_msg (codes "unauthorized"),
    made authentication_error (with_message (codes "Authentication failed")),
  )

  abbrev pub forbidden_rule : Rule
  forbidden_rule = (
    mentions error_msg (codes "403") || mentions lower_msg (codes "forbidden"),
    made permission_error (with_message (codes "Permission denied")),
  )

  abbrev pub rate_limited : Error
  rate_limited = made rate_limit_error (says (codes "Rate limited by GitLab - try again later"))

  abbrev pub conflict_rule : Rule
  conflict_rule = (
    mentions error_msg (codes "409") || mentions lower_msg (codes "conflict"),
    made client_error (with_message (codes "Conflict - resource already exists")),
  )

  abbrev pub connection_failed : Error
  connection_failed = made connection_error (with_message (codes "Connection failed"))

  -- A code of zero is none.
  abbrev pub http_rules : Option ℕ → List Rule
  http_rules none = []
  http_rules (some n) =
      (n == 401, made authentication_error (with_message (codes "Authentication failed")))
      ∷ (n == 403, made permission_error (with_message (codes "Permission denied")))
      ∷ (n == 404, made not_found_error (with_message (codes "Resource not found")))
      ∷ (n == 429, rate_limited)
      ∷ (
        leb 500 n,
        made server_error
            (says (codes "GitLab server error (" ++ (decimal n ++ (codes ") - " ++ error_msg)))),
      )
      ∷ []

  abbrev pub class_rules : Exception → List Rule
  class_rules connection = (true, connection_failed) ∷ []
  class_rules auth =
      (
        true,
        made authentication_error
            (says (codes "Authentication failed - check that your token is valid and not expired")),
      )
      ∷ []
  class_rules get =
      not_found_rule
      ∷ unauthorized_rule
      ∷ forbidden_rule
      ∷ (mentions error_msg (codes "429"), rate_limited)
      ∷ []
  class_rules create =
      unauthorized_rule
      ∷ forbidden_rule
      ∷ conflict_rule
      ∷ (mentions error_msg (codes "429"), rate_limited)
      ∷ []
  class_rules delete = not_found_rule ∷ forbidden_rule ∷ []
  class_rules update = not_found_rule ∷ forbidden_rule ∷ []
  class_rules (http n) = http_rules n
  class_rules other = []

  -- The patterns that are looked for in the message of any exception that is left.
  abbrev pub message_rules : List Rule
  message_rules =
      (
        mentions lower_msg (codes "connection")
            || (mentions lower_msg (codes "timeout") || mentions lower_msg (codes "unreachable")),
        connection_failed,
      )
      ∷ unauthorized_rule
      ∷ forbidden_rule
      ∷ not_found_rule
      ∷ (mentions error_msg (codes "429") || mentions lower_msg (codes "rate limit"), rate_limited)
      ∷ (
        mentions error_msg (codes "500")
            || (mentions error_msg (codes "502")
                || (mentions error_msg (codes "503") || mentions error_msg (codes "504"))),
        made server_error (with_message (codes "GitLab server error")),
      )
      ∷ []

  abbrev pub or_base : Option Error → Error
  or_base none = made client_error (says error_msg)
  or_base (some e) = e

  -- `_handle_gitlab_error`: what it raises.
  unfoldable pub handle_gitlab_error : Exception → Error
  unfolding first_rule contains lower decimal
  handle_gitlab_error x = or_base (first_rule (class_rules x ++ message_rules))
