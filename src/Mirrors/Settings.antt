-- ===== src/Mirrors/Settings.antt =====
-- app/api/mirrors.py: which settings hold for a mirror, its own or its pair's, and the settings of
-- the mirror that GitLab has.
use mirror_maestro.Common.{ℕ, Bool, Option, none, some, if◌then◌else◌}
use mirror_maestro.Text.{Text, codes, eq_text, lower, is_empty}
use mirror_maestro.Tables.{Mirror, Pair}

-- `override if override is not None else default`
abbrev pub or_pair : {A : Type 0} → Option A → A → A
or_pair none default = default
or_pair (some a) default = a

-- For a pair's default that may be none itself.
abbrev pub or_maybe : {A : Type 0} → Option A → Option A → Option A
or_maybe none default = default
or_maybe (some a) default = some a

abbrev pub push : Text
push = codes "push"

abbrev pub pull : Text
pull = codes "pull"

abbrev pub is_push : Text → Bool
is_push direction = eq_text direction push

pub record Effective : Type 0 where
  pub direction : Option Text
  pub overwrite_diverged : Bool
  pub only_protected : Bool
  pub trigger_builds : Option Bool
  pub branch_regex : Option Text
  pub issue_sync_enabled : Bool

abbrev pub or_none_text : Text → Option Text
or_none_text s = if is_empty s then none else some s

-- `_resolve_effective_settings`
unfoldable pub resolve_effective_settings : Mirror → Pair → Effective
resolve_effective_settings m p =
    let direction = lower p.mirror_direction in
    record {
      direction = or_none_text direction;
      overwrite_diverged = or_pair m.mirror_overwrite_diverged p.mirror_overwrite_diverged;
      only_protected = or_pair m.only_mirror_protected_branches p.only_mirror_protected_branches;
      trigger_builds =
          if is_push direction
          then none
          else some (or_pair m.mirror_trigger_builds p.mirror_trigger_builds);
      branch_regex =
          if is_push direction then none else or_maybe m.mirror_branch_regex p.mirror_branch_regex;
      issue_sync_enabled = or_pair m.issue_sync_enabled p.issue_sync_enabled;
    }

-- The dict of a mirror that the client returns, with the keys of both directions.
pub record Remote : Type 0 where
  pub id : Option ℕ
  pub enabled : Option Bool
  pub only_protected_branches : Option Bool
  pub keep_divergent_refs : Option Bool
  pub only_mirror_protected_branches : Option Bool
  pub mirror_overwrites_diverged_branches : Option Bool
  pub mirror_trigger_builds : Option Bool
  pub mirror_branch_regex : Option Text
  pub update_status : Option Text
  pub last_update_at : Option Text
  pub last_successful_update_at : Option Text
  pub last_error : Option Text
