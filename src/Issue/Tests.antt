-- ===== src/Issue/Tests.antt =====
-- app/core/issue_sync.py: the properties of the mirrored issues at a concrete issue.
use mirror_maestro.Common.{◌≡◌, none, some, [], ◌∷◌, ◌-◌, ◌%◌}
use mirror_maestro.Text.{Text, codes}
use mirror_maestro.Issue.{Issue}
use mirror_maestro.Issue.Footer.Hops.{Hop}
use mirror_maestro.Issue.Labels.{ParsedUrl}
use mirror_maestro.Issue.Duration.{duration_seconds, seconds_to_duration, seconds_to_duration-read}

abbrev pub plain_issue : Issue
plain_issue = record {
  id = some 90;
  iid = some 12;
  title = some (codes "Crash");
  description = some (codes "It crashes.");
  labels = codes "bug" ∷ codes "Mirrored-From::old.example" ∷ [];
  state = some (codes "opened");
  weight = none;
  web_url = some (codes "https://a.example/x/-/issues/12");
  milestone = none;
  iteration = none;
  epic = none;
  assignees = [];
  time_stats = none;
}

abbrev pub parsed : Text → ParsedUrl
parsed url = record {
  scheme = codes "https";
  hostname = codes "a.example";
  netloc = codes "a.example";
  port = none;
}

abbrev first_hop : Hop
first_hop = record { project_path = codes "g/x"; number = 12; issue = plain_issue }

abbrev second_hop : Hop
second_hop = record { project_path = codes "h/y"; number = 3; issue = plain_issue }

seconds_to_duration-read_example :
    duration_seconds (seconds_to_duration 5430) ≡ some (5430 - 5430 % 60)
seconds_to_duration-read_example = seconds_to_duration-read 5430
