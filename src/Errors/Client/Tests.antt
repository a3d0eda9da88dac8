-- ===== src/Errors/Client/Tests.antt =====
-- app/core/gitlab_client.py: concrete exceptions.
use mirror_maestro.Common.{true, some, ◌≡◌, refl}
use mirror_maestro.Text.{codes, contains, after_prefix}
use mirror_maestro.Errors.{rate_limit_error, not_found_error, server_error}
use mirror_maestro.Errors.Client.{get, http, handle_gitlab_error}
use mirror_maestro.Errors.Client.Retried.{handle_gitlab_error-is_rate_limit}
use mirror_maestro.Retry.{is_rate_limit}

-- The message decides before the code is looked at.
not_found_by_message :
    (handle_gitlab_error
      (codes "Failed to fetch project 1")
      (codes "500: issue 404 failed")
      get).class_of
    ≡ not_found_error
unfolding handle_gitlab_error after_prefix
not_found_by_message = refl

server_by_code :
    (handle_gitlab_error (codes "Failed") (codes "404") (http (some 502))).class_of ≡ server_error
unfolding handle_gitlab_error after_prefix
server_by_code = refl

handle_gitlab_error-is_rate_limit_example :
    let e =
      handle_gitlab_error (codes "Failed to fetch project 4291") (codes "404: not found") get in
    (e.class_of ≡ rate_limit_error → is_rate_limit e ≡ true)
    × (contains (codes "429") (codes "Failed to fetch project 4291") ≡ true
        → is_rate_limit e ≡ true)
handle_gitlab_error-is_rate_limit_example =
    handle_gitlab_error-is_rate_limit (codes "Failed to fetch project 4291")
      (codes "404: not found") get
