-- ===== src/Mirrors/Verify.antt =====
-- app/api/mirrors.py: `_verify_single_mirror`, which compares a mirror with what GitLab has.
use mirror_maestro.Common.{
  ℕ, Bool, true, false, not, ◌&&◌, Option, none, some, List, [], ◌∷◌, ◌++◌, if◌then◌else◌,
}
use mirror_maestro.Text.{Text, codes, eq_text, lower, is_empty}
use mirror_maestro.Http.{Reply, reply, refuse}
use mirror_maestro.Tables.{Mirror, Pair}
use mirror_maestro.Mirrors.Settings.{
  Effective, Remote, pull, is_push, or_none_text, resolve_effective_settings,
}

-- `DriftDetail`: the field, with the expected and the actual value.
pub data Drift : Type 0 where
  enabled_drift only_protected_drift keep_divergent_drift overwrites_drift trigger_drift :
      Bool → Option Bool → Drift
  branch_regex_drift : Option Text → Option Text → Drift

pub data VerifyResponse : Type 0 where
  not_created orphan healthy : VerifyResponse
  drift : List Drift → VerifyResponse
  failed : Text → VerifyResponse

abbrev pub is_same : Bool → Option Bool → Bool
is_same a none = false
is_same true (some b) = b
is_same false (some b) = not b

abbrev pub is_same_text : Option Text → Option Text → Bool
is_same_text none none = true
is_same_text none (some s) = false
is_same_text (some s) none = false
is_same_text (some s) (some t) = eq_text s t

-- An entry if the values differ.
abbrev pub when_differs : (Bool → Option Bool → Drift) → Bool → Option Bool → List Drift
when_differs f expected actual = if is_same expected actual then [] else f expected actual ∷ []

-- The empty string counts as none.
abbrev pub blank_as_none : Option Text → Option Text
blank_as_none none = none
blank_as_none (some s) = or_none_text s

abbrev pub when_regex_differs : Option Text → Option Text → List Drift
when_regex_differs expected actual =
    if is_same_text (blank_as_none expected) (blank_as_none actual)
    then []
    else branch_regex_drift (blank_as_none expected) (blank_as_none actual) ∷ []

abbrev pub push_drift : Mirror → Effective → Remote → List Drift
push_drift m e g =
    when_differs enabled_drift m.enabled g.enabled
    ++ (when_differs only_protected_drift e.only_protected g.only_protected_branches
        ++ when_differs keep_divergent_drift (not e.overwrite_diverged) g.keep_divergent_refs)

abbrev pub when_trigger_differs : Option Bool → Option Bool → List Drift
when_trigger_differs none actual = []
when_trigger_differs (some expected) actual = when_differs trigger_drift expected actual

-- The settings that only a pull mirror has are compared only if the direction is `pull`.
abbrev pub pull_only_drift : Bool → Effective → Remote → List Drift
pull_only_drift false e g = []
pull_only_drift true e g =
    when_trigger_differs e.trigger_builds g.mirror_trigger_builds
    ++ when_regex_differs e.branch_regex g.mirror_branch_regex

abbrev pub pull_drift : Bool → Mirror → Effective → Remote → List Drift
pull_drift is_pull m e g =
    when_differs enabled_drift m.enabled g.enabled
    ++ (when_differs only_protected_drift e.only_protected g.only_mirror_protected_branches
        ++ (when_differs overwrites_drift e.overwrite_diverged g.mirror_overwrites_diverged_branches
            ++ pull_only_drift is_pull e g))

-- `(pair.mirror_direction or "pull").lower()`
abbrev pub verify_direction : Pair → Text
verify_direction p = lower (if is_empty p.mirror_direction then pull else p.mirror_direction)

unfoldable pub drift_list : Mirror → Pair → Remote → List Drift
drift_list m p g =
    let e = resolve_effective_settings m p in
    let direction = verify_direction p in
    if is_push direction then push_drift m e g else pull_drift (eq_text direction pull) m e g

abbrev pub response_of : List Drift → VerifyResponse
response_of [] = healthy
response_of (d ∷ ds) = drift (d ∷ ds)

-- What GitLab answered: the mirror, or none, or an error of the call.
abbrev pub judge_remote : Mirror → Pair → Reply (Option Remote) → VerifyResponse
judge_remote m p (refuse status detail) =
    failed (codes "Failed to fetch GitLab mirrors: " ++ detail)
judge_remote m p (reply (some g)) = response_of (drift_list m p g)
judge_remote m p (reply none) = elim m.mirror_id [ none ↦ not_created | some i ↦ orphan ]

-- `_verify_single_mirror`, with the pair and the instances that are found, and GitLab's answer.
unfoldable pub verify_single_mirror :
    Mirror → Option Pair → (ℕ → Bool) → Reply (Option Remote) → VerifyResponse
verify_single_mirror m none has_instance answer = failed (codes "Instance pair not found")
verify_single_mirror m (some p) has_instance answer =
    let checked =
      (if has_instance p.source_instance_id && has_instance p.target_instance_id
        then judge_remote m p answer
        else failed (codes "Source or target instance not found")) in
    elim m.mirror_id [
      | some i ↦ checked
      | none ↦ if eq_text (verify_direction p) pull then checked else not_created
    ]
