-- ===== src/Issue/Labels/Single.antt =====
-- A mirrored issue carries exactly one `Mirrored-From::` label, that of its last hop.
use mirror_maestro.Common.{ℕ, suc, List, [], ◌∷◌, if◌then◌else◌}
use mirror_maestro.Text.{Text, starts_with}
use mirror_maestro.Issue.{Issue}
use mirror_maestro.Issue.Labels.{mirror_prefix}

-- How many labels mark the issue as mirrored.
abbrev pub count_mirrored : List Text → ℕ
count_mirrored [] = 0
count_mirrored (l ∷ ls) =
    if starts_with l mirror_prefix then suc (count_mirrored ls) else count_mirrored ls
