-- ===== src/Mirrors/Update.antt =====
-- app/api/mirrors.py: the settings that `update_mirror` and `rotate_mirror_token` send to GitLab.
use mirror_maestro.Common.{Bool, true, false, not, Option, none, some, [], ◌∷◌, if◌then◌else◌}
use mirror_maestro.Text.{Text, codes, eq_text, Dict, lookup}
use mirror_maestro.Tables.{Mirror, Pair}
use mirror_maestro.Mirrors.Settings.{
  Remote, Effective, or_pair, or_maybe, is_push, resolve_effective_settings,
}
use mirror_maestro.Mirrors.Client.{PushData, PullData, store_push, store_pull}

abbrev pub update_push_data : Mirror → Pair → PushData
update_push_data m p = record {
  enabled = some m.enabled;
  only_protected_branches =
      some (or_pair m.only_mirror_protected_branches p.only_mirror_protected_branches);
  keep_divergent_refs =
      some (not (or_pair m.mirror_overwrite_diverged p.mirror_overwrite_diverged));
  mirror_branch_regex = or_maybe m.mirror_branch_regex p.mirror_branch_regex;
}

abbrev pub update_pull_data : Mirror → Pair → PullData
update_pull_data m p = record {
  enabled = some m.enabled;
  only_mirror_protected_branches =
      some (or_pair m.only_mirror_protected_branches p.only_mirror_protected_branches);
  mirror_overwrites_diverged_branches =
      some (or_pair m.mirror_overwrite_diverged p.mirror_overwrite_diverged);
  mirror_trigger_builds = some (or_pair m.mirror_trigger_builds p.mirror_trigger_builds);
  mirror_branch_regex = or_maybe m.mirror_branch_regex p.mirror_branch_regex;
}

-- What GitLab has after `update_mirror` has stored the row `m`.
unfoldable pub updated_remote : Mirror → Pair → Remote → Remote
unfolding store_push store_pull
updated_remote m p g =
    if is_push p.mirror_direction
    then store_push (update_push_data m p) g
    else store_pull (update_pull_data m p) g

-- A value of the dict of effective settings.
pub data Setting : Type 0 where
  unset : Setting
  flag : Bool → Setting
  text : Text → Setting

abbrev pub flag_setting : Option Bool → Setting
flag_setting none = unset
flag_setting (some b) = flag b

abbrev pub text_setting : Option Text → Setting
text_setting none = unset
text_setting (some s) = text s

-- The dict that `_resolve_effective_settings` returns.
unfoldable pub effective_settings : Effective → Dict Setting
effective_settings e =
    (codes "effective_mirror_direction", text_setting e.direction)
    ∷ (codes "effective_mirror_overwrite_diverged", flag e.overwrite_diverged)
    ∷ (codes "effective_only_mirror_protected_branches", flag e.only_protected)
    ∷ (codes "effective_mirror_trigger_builds", flag_setting e.trigger_builds)
    ∷ (codes "effective_mirror_branch_regex", text_setting e.branch_regex)
    ∷ (codes "effective_issue_sync_enabled", flag e.issue_sync_enabled)
    ∷ []

-- `settings.get(key, default)` for a flag, as an argument: none where the value is `None`.
abbrev pub flag_or : Bool → Option Setting → Option Bool
flag_or default none = some default
flag_or default (some (flag b)) = some b
flag_or default (some _) = none

-- `settings.get(key)` for a text.
abbrev pub text_or_none : Option Setting → Option Text
text_or_none (some (text s)) = some s
text_or_none _ = none

-- Python's `not`.
abbrev pub negated : Option Bool → Bool
negated none = true
negated (some b) = not b

-- The arguments that `rotate_mirror_token` looks up in the dict.
unfoldable pub rotate_push_data : Dict Setting → PushData
unfolding lookup eq_text
rotate_push_data settings = record {
  enabled = some true;
  only_protected_branches =
      flag_or false (lookup (codes "only_mirror_protected_branches") settings);
  keep_divergent_refs =
      some (negated (flag_or false (lookup (codes "mirror_overwrite_diverged") settings)));
  mirror_branch_regex = none;
}

unfoldable pub rotate_pull_data : Dict Setting → PullData
unfolding lookup eq_text
rotate_pull_data settings = record {
  enabled = some true;
  only_mirror_protected_branches =
      flag_or false (lookup (codes "only_mirror_protected_branches") settings);
  mirror_overwrites_diverged_branches =
      flag_or false (lookup (codes "mirror_overwrite_diverged") settings);
  mirror_trigger_builds = flag_or false (lookup (codes "mirror_trigger_builds") settings);
  mirror_branch_regex = text_or_none (lookup (codes "mirror_branch_regex") settings);
}

-- What GitLab has after `rotate_mirror_token` has updated the mirror.
unfoldable pub rotated_remote : Mirror → Pair → Remote → Remote
unfolding store_push store_pull rotate_push_data rotate_pull_data effective_settings
    resolve_effective_settings
rotated_remote m p g =
    let settings = effective_settings (resolve_effective_settings m p) in
    if is_push p.mirror_direction
    then store_push (rotate_push_data settings) g
    else store_pull (rotate_pull_data settings) g
