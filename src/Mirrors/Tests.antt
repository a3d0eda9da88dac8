-- ===== src/Mirrors/Tests.antt =====
-- The settings of mirrors on concrete rows.
use mirror_maestro.Common.{true, false, Option, none, some, [], ◌∷◌, ◌≡◌, refl, sym, ◌↔◌, inr}
use mirror_maestro.Text.{lookup, Text, codes, eq_text, lower, contains, after_prefix}
use mirror_maestro.Errors.{returned}
use mirror_maestro.Http.{reply}
use mirror_maestro.Tables.{Mirror, Pair}
use mirror_maestro.Scheduler.Tests.{there, pair_there}
use mirror_maestro.Mirrors.Settings.{Remote, pull, or_maybe, resolve_effective_settings}
use mirror_maestro.Mirrors.Verify.{
  healthy, drift, only_protected_drift, blank_as_none, drift_list, verify_single_mirror,
}
use mirror_maestro.Mirrors.Op.{ok}
use mirror_maestro.Mirrors.Url.{normalize_instance_url, build_authenticated_url}
use mirror_maestro.Mirrors.Calls.{Instance, MirrorCreate, TokenInfo, create_token, Outside}
use mirror_maestro.Mirrors.Create.{url_for, create_mirror_internal}
use mirror_maestro.Mirrors.Create.Accounted.{Accounted}
use mirror_maestro.Mirrors.Create.Sound.{Complete, create_mirror_internal-Accounted}
use mirror_maestro.Mirrors.Client.{store_push, store_pull}
use mirror_maestro.Mirrors.Update.{
  updated_remote, rotated_remote, rotate_push_data, rotate_pull_data, effective_settings,
}
use mirror_maestro.Mirrors.Agreement.{Agrees, verify-Agrees}
use mirror_maestro.Mirrors.Applied.{WantsDefaults, updated-healthy, rotated-healthy}

abbrev pulling : Pair
pulling = record pair_there { mirror_direction = pull }

abbrev protecting : Mirror
protecting = record there { only_mirror_protected_branches = some true }

abbrev on_gitlab : Remote
on_gitlab = record {
  id = some 5;
  enabled = some true;
  only_protected_branches = none;
  keep_divergent_refs = none;
  only_mirror_protected_branches = some true;
  mirror_overwrites_diverged_branches = some false;
  mirror_trigger_builds = some false;
  mirror_branch_regex = some (codes "main");
  update_status = none;
  last_update_at = none;
  last_successful_update_at = none;
  last_error = none;
}

verify-Agrees_example :
    (verify_single_mirror protecting (some pulling) (λ i. true) (reply (some on_gitlab)) ≡ healthy)
    ↔ Agrees protecting pulling on_gitlab
verify-Agrees_example =
    verify-Agrees protecting pulling on_gitlab (λ i. true) (inr refl) refl refl (λ h. refl)

updated-healthy_example :
    (verify_single_mirror protecting
        (some pulling)
        (λ i. true)
        (reply (some (updated_remote protecting pulling on_gitlab)))
      ≡ healthy)
    ↔ (pulling.mirror_direction ≡ pull
        → or_maybe protecting.mirror_branch_regex pulling.mirror_branch_regex ≡ none
        → blank_as_none on_gitlab.mirror_branch_regex ≡ none)
updated-healthy_example =
    updated-healthy protecting pulling on_gitlab (λ i. true) (inr refl) refl refl (λ h. refl)

rotated-healthy_example :
    (verify_single_mirror protecting
        (some pulling)
        (λ i. true)
        (reply (some (rotated_remote protecting pulling on_gitlab)))
      ≡ healthy)
    ↔ WantsDefaults protecting pulling on_gitlab
rotated-healthy_example =
    rotated-healthy protecting pulling on_gitlab (λ i. true) (inr refl) refl refl (λ h. refl)

-- A rotation switches the protection of branches off.
rotation_resets :
    verify_single_mirror protecting
      (some pulling)
      (λ i. true)
      (reply (
        some (record (rotated_remote protecting pulling on_gitlab) { mirror_branch_regex = none })))
    ≡ drift (only_protected_drift true (some false) ∷ [])
unfolding verify_single_mirror drift_list resolve_effective_settings rotated_remote store_pull
    store_push rotate_push_data rotate_pull_data effective_settings lookup lower eq_text
rotation_resets = refl

abbrev source_instance : Instance
source_instance = record { id = 3; url = codes "gitlab.example.com" }

abbrev target_instance : Instance
target_instance = record { id = 4; url = codes "https://gitlab.example.org" }

abbrev request : MirrorCreate
request = record {
  instance_pair_id = 1;
  source_project_id = 7;
  source_project_path = codes "g/x";
  target_project_id = 8;
  target_project_path = codes "g/y";
  mirror_overwrite_diverged = none;
  mirror_trigger_builds = none;
  only_mirror_protected_branches = none;
  mirror_branch_regex = none;
  issue_sync_enabled = none;
  enabled = true;
}

-- The tokens and mirrors are made, and the commit fails.
abbrev outside : Outside
outside = record {
  urlparse =
      λ url. returned record { scheme = codes "https"; hostname = codes "h"; port = returned none };
  token_outcome = returned (some record { id = some 5; token = some (codes "secret") });
  push_outcome = returned (some record { id = some 6; url = none });
  read_outcome = returned none;
  pull_outcome = returned (some record { id = none; url = none });
  encrypt = λ t. returned t;
  decrypt = λ t. returned t;
  token_name = codes "mirror-maestro-1";
  expires_at = 9;
  commits = false;
  row_id = 11;
  now = 5;
}

-- An instance URL with another scheme is refused after the token was made, which stays.
token_is_left :
    (create_mirror_internal
      record outside {
        urlparse = λ url.
            returned record { scheme = codes "ssh"; hostname = codes "h"; port = returned none };
      }
      pair_there
      source_instance
      target_instance
      request
      false
      []).1
    ≡ create_token 4 8
        (codes "mirror-maestro-1")
        (codes "write_repository" ∷ [])
        (ok (some record { id = some 5; token = some (codes "secret") }))
      ∷ []
unfolding create_mirror_internal build_authenticated_url eq_text contains after_prefix
    normalize_instance_url
token_is_left = refl

token_of :
    (info : TokenInfo)
    → outside.token_outcome ≡ returned (some info)
    → info.token ≡ some (codes "secret")
token_of info h = cc h

builds_url :
    (v : Option Text)
    → (u : Text) × (url_for outside pair_there source_instance target_instance request v ≡ ok u)
unfolding build_authenticated_url normalize_instance_url contains after_prefix eq_text
builds_url none = (_, refl)
builds_url (some v) = (_, refl)

same_text : (t e : Text) → outside.encrypt t ≡ returned e → outside.decrypt e ≡ returned t
same_text t e h = sym h

complete : (info : TokenInfo) → outside.token_outcome ≡ returned (some info) → Complete info
complete info h i e = (codes "secret", token_of info h, refl)

create_mirror_internal-Accounted_example :
    Accounted
      (create_mirror_internal outside pair_there source_instance target_instance request false [])
create_mirror_internal-Accounted_example =
    create_mirror_internal-Accounted outside pair_there source_instance target_instance request
      builds_url same_text false [] complete
