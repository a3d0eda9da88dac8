-- ===== src/Mirrors/Client.antt =====
-- app/core/gitlab_client.py: the data that the client sends for a mirror. An argument that is none
-- is not sent. GitLab keeps what it is sent and leaves the rest as it was.
use mirror_maestro.Common.{Bool, Option}
use mirror_maestro.Text.{Text}
use mirror_maestro.Mirrors.Settings.{Remote, or_maybe}

-- The arguments of `update_mirror`, without the URL.
pub record PushData : Type 0 where
  pub enabled : Option Bool
  pub only_protected_branches : Option Bool
  pub keep_divergent_refs : Option Bool
  pub mirror_branch_regex : Option Text

-- The arguments of `update_pull_mirror`, without URL and credentials.
pub record PullData : Type 0 where
  pub enabled : Option Bool
  pub only_mirror_protected_branches : Option Bool
  pub mirror_overwrites_diverged_branches : Option Bool
  pub mirror_trigger_builds : Option Bool
  pub mirror_branch_regex : Option Text

-- The request of `update_mirror`, as GitLab carries it out.
unfoldable pub store_push : PushData → Remote → Remote
store_push d g = record g {
  enabled = or_maybe d.enabled g.enabled;
  only_protected_branches = or_maybe d.only_protected_branches g.only_protected_branches;
  keep_divergent_refs = or_maybe d.keep_divergent_refs g.keep_divergent_refs;
  mirror_branch_regex = or_maybe d.mirror_branch_regex g.mirror_branch_regex;
}

-- The request of `update_pull_mirror`; both of its endpoints take the same settings.
unfoldable pub store_pull : PullData → Remote → Remote
store_pull d g = record g {
  enabled = or_maybe d.enabled g.enabled;
  only_mirror_protected_branches =
      or_maybe d.only_mirror_protected_branches g.only_mirror_protected_branches;
  mirror_overwrites_diverged_branches =
      or_maybe d.mirror_overwrites_diverged_branches g.mirror_overwrites_diverged_branches;
  mirror_trigger_builds = or_maybe d.mirror_trigger_builds g.mirror_trigger_builds;
  mirror_branch_regex = or_maybe d.mirror_branch_regex g.mirror_branch_regex;
}
