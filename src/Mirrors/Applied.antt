-- ===== src/Mirrors/Applied.antt =====
-- app/api/mirrors.py: what a check finds after `update_mirror` and after `rotate_mirror_token`.
use mirror_maestro.Common.{
  ℕ, Bool, true, false, not, Option, none, some, ◌≡◌, ◌≢◌, refl, ◌↔◌, inl, inr, sym, ◌∙◌, ap,
  if◌then◌else◌,
}
use mathlib.Core.Path.{subst}
use mirror_maestro.Text.{Text, eq_text, eq_text_iff, lookup}
use mirror_maestro.Http.{reply}
use mirror_maestro.Tables.{Mirror, Pair}
use mirror_maestro.Mirrors.Settings.{
  Remote, Effective, resolve_effective_settings, is_push, push, pull, or_pair, or_maybe,
}
use mirror_maestro.Mirrors.Verify.{healthy, blank_as_none, verify_single_mirror}
use mirror_maestro.Mirrors.Client.{PushData, PullData, store_push, store_pull}
use mirror_maestro.Mirrors.Update.{
  updated_remote, rotated_remote, rotate_push_data, rotate_pull_data, effective_settings,
}
use mirror_maestro.Mirrors.Agreement.{Agrees, KnownDirection, verify-Agrees}

-- The settings that a rotation sends are the effective ones. It sends no branch regex.
abbrev pub WantsDefaults : Mirror → Pair → Remote → Type 0
WantsDefaults m p g =
    (m.enabled ≡ true)
    × ((or_pair m.only_mirror_protected_branches p.only_mirror_protected_branches ≡ false)
        × ((or_pair m.mirror_overwrite_diverged p.mirror_overwrite_diverged ≡ false)
            × (p.mirror_direction ≡ pull
                → (or_pair m.mirror_trigger_builds p.mirror_trigger_builds ≡ false)
                  × (blank_as_none g.mirror_branch_regex
                      ≡ blank_as_none (or_maybe m.mirror_branch_regex p.mirror_branch_regex)))))

push_not_pull : push ≢ pull
unfolding eq_text
push_not_pull h = let e : false ≡ true = (eq_text_iff push pull).1 h in cc e

trans_iff : {P Q R : Type 0} → P ↔ Q → Q ↔ R → P ↔ R
trans_iff (f, g) (h, k) = (λ x. h (f x), λ z. g (k z))

some_iff : (a b : Bool) → (some a ≡ some b) ↔ (b ≡ a)
some_iff a b = (λ h. cc h, λ h. cc h)

some-not_iff : (b : Bool) → (some true ≡ some (not b)) ↔ (b ≡ false)
some-not_iff true = (λ h. cc h, λ h. cc h)
some-not_iff false = (λ h. refl, λ h. refl)

abbrev default_push : PushData
default_push = record {
  enabled = some true;
  only_protected_branches = some false;
  keep_divergent_refs = some true;
  mirror_branch_regex = none;
}

abbrev default_pull : PullData
default_pull = record {
  enabled = some true;
  only_mirror_protected_branches = some false;
  mirror_overwrites_diverged_branches = some false;
  mirror_trigger_builds = some false;
  mirror_branch_regex = none;
}

-- None of the keys that a rotation asks for is in the dict: each lookup gives its default.
pushed_defaults : (e : Effective) → rotate_push_data (effective_settings e) ≡ default_push
unfolding rotate_push_data effective_settings lookup eq_text
pushed_defaults e = refl

pulled_defaults : (e : Effective) → rotate_pull_data (effective_settings e) ≡ default_pull
unfolding rotate_pull_data effective_settings lookup eq_text
pulled_defaults e = refl

abbrev with_defaults : Pair → Remote → Remote
with_defaults p g =
    if is_push p.mirror_direction then store_push default_push g else store_pull default_pull g

rotated_defaults : (m : Mirror) (p : Pair) (g : Remote) → rotated_remote m p g ≡ with_defaults p g
unfolding rotated_remote
rotated_defaults m p g =
    let e = resolve_effective_settings m p in
    ap
      (λ (x : PushData).
        if is_push p.mirror_direction
        then store_push x g
        else store_pull (rotate_pull_data (effective_settings e)) g)
      (pushed_defaults e)
    ∙ ap
        (λ (x : PullData).
          if is_push p.mirror_direction then store_push default_push g else store_pull x g)
        (pulled_defaults e)

with_defaults-Agrees :
    (m : Mirror) (p : Pair) (g : Remote)
    → KnownDirection p
    → Agrees m p (with_defaults p g) ↔ WantsDefaults m p g
unfolding store_push store_pull eq_text
with_defaults-Agrees m p g (inl e) =
    let protected =
      some_iff false (or_pair m.only_mirror_protected_branches p.only_mirror_protected_branches) in
    let keep = some-not_iff (or_pair m.mirror_overwrite_diverged p.mirror_overwrite_diverged) in
    rw e (
      λ (a, (b, c)). (
        (some_iff true m.enabled).0 a,
        (protected.0 b, (keep.0 c, λ h. elim (push_not_pull h) [ ])),
      ),
      λ (a, (b, (c, d))). ((some_iff true m.enabled).1 a, (protected.1 b, keep.1 c)),
    )
with_defaults-Agrees m p g (inr e) =
    let enabled = some_iff true m.enabled in
    let protected =
      some_iff false (or_pair m.only_mirror_protected_branches p.only_mirror_protected_branches) in
    let overwrite =
      some_iff false (or_pair m.mirror_overwrite_diverged p.mirror_overwrite_diverged) in
    let trigger = some_iff false (or_pair m.mirror_trigger_builds p.mirror_trigger_builds) in
    rw e (
      λ (a, (b, (c, (d, r)))).
          (enabled.0 a, (protected.0 b, (overwrite.0 c, λ h. (trigger.0 d, r)))),
      λ (a, (b, (c, h))).
          (enabled.1 a, (protected.1 b, (overwrite.1 c, (trigger.1 (h refl).0, (h refl).1)))),
    )

rotated-Agrees :
    (m : Mirror) (p : Pair) (g : Remote)
    → KnownDirection p
    → Agrees m p (rotated_remote m p g) ↔ WantsDefaults m p g
rotated-Agrees m p g known =
    subst (λ r. Agrees m p r ↔ WantsDefaults m p g) (sym (rotated_defaults m p g))
      (with_defaults-Agrees m p g known)

-- An effective regex that is none is not sent.
regex_iff :
    (o stored : Option Text)
    → (blank_as_none (or_maybe o stored) ≡ blank_as_none o)
      ↔ (o ≡ none → blank_as_none stored ≡ none)
regex_iff none stored = (λ h e. h, λ h. h refl)
regex_iff (some r) stored = (λ h e. cc e, λ h. refl)

updated-Agrees :
    (m : Mirror) (p : Pair) (g : Remote)
    → KnownDirection p
    → Agrees m p (updated_remote m p g) ↔ (
        p.mirror_direction ≡ pull
        → or_maybe m.mirror_branch_regex p.mirror_branch_regex ≡ none
        → blank_as_none g.mirror_branch_regex ≡ none)
unfolding updated_remote store_push store_pull eq_text
updated-Agrees m p g (inl e) = rw e (λ a h. elim (push_not_pull h) [ ], λ h. (refl, (refl, refl)))
updated-Agrees m p g (inr e) =
    let (r, t) =
      regex_iff (or_maybe m.mirror_branch_regex p.mirror_branch_regex) g.mirror_branch_regex in
    rw e (λ (a, (b, (c, (d, f)))) h. r f, λ h. (refl, (refl, (refl, (refl, t (h refl))))))

module _ (m : Mirror) (p : Pair) (g : Remote) (has_instance : ℕ → Bool) (known : KnownDirection p)
    (source : has_instance p.source_instance_id ≡ true)
    (target : has_instance p.target_instance_id ≡ true)
    (created : m.mirror_id ≡ none → p.mirror_direction ≡ pull) where
  -- For a pair whose direction is push or pull, both of whose instances are found, and a mirror
  -- that is created or a pull mirror: after update_mirror has sent the settings, the check answers
  -- healthy exactly when, for a pull pair without an effective branch regex, GitLab had none before.
  pub updated-healthy :
      (verify_single_mirror m (some p) has_instance (reply (some (updated_remote m p g))) ≡ healthy)
      ↔ (p.mirror_direction ≡ pull
          → or_maybe m.mirror_branch_regex p.mirror_branch_regex ≡ none
          → blank_as_none g.mirror_branch_regex ≡ none)
  updated-healthy =
      trans_iff (verify-Agrees m p (updated_remote m p g) has_instance known source target created)
        (updated-Agrees m p g known)

  -- For a pair whose direction is push or pull, both of whose instances are found, and a mirror
  -- that is created or a pull mirror: after rotate_mirror_token has updated the mirror, the check
  -- answers healthy exactly when the mirror is enabled, its effective settings for protected
  -- branches and for overwriting are off and, for a pull pair, so is the one for builds and GitLab
  -- had the effective branch regex before.
  pub rotated-healthy :
      (verify_single_mirror m (some p) has_instance (reply (some (rotated_remote m p g))) ≡ healthy)
      ↔ WantsDefaults m p g
  rotated-healthy =
      trans_iff (verify-Agrees m p (rotated_remote m p g) has_instance known source target created)
        (rotated-Agrees m p g known)
