-- ===== src/Mirrors/Agreement.antt =====
-- app/api/mirrors.py: when a mirror is verified as healthy, and what an update and a rotation of
-- its token make of it.
use mirror_maestro.Common.{
  ℕ, Bool, true, false, not, ◌&&◌, Option, none, some, List, [], ◌∷◌, ◌++◌, ◌≡◌, refl, sym, ◌∙◌, ap,
  ◌↔◌, ◌⊎◌, inl, inr, if◌then◌else◌, arith,
}
use mirror_maestro.Text.{Text, codes, eq_text, eq_text_iff, lower}
use mirror_maestro.Http.{Reply, reply}
use mirror_maestro.Tables.{Mirror, Pair}
use mirror_maestro.Mirrors.Settings.{
  Effective, Remote, push, pull, is_push, or_pair, or_maybe, resolve_effective_settings,
}
use mirror_maestro.Mirrors.Verify.{
  Drift, enabled_drift, only_protected_drift, keep_divergent_drift, overwrites_drift, trigger_drift,
  branch_regex_drift, VerifyResponse, healthy, not_created, failed, is_same, is_same_text,
  when_differs, blank_as_none, when_regex_differs, push_drift, pull_drift, verify_direction,
  pull_only_drift, drift_list, response_of, judge_remote, verify_single_mirror,
}

-- A push mirror on GitLab has the effective settings.
abbrev AgreesPush : Mirror → Pair → Remote → Type 0
AgreesPush m p g =
    (g.enabled ≡ some m.enabled)
    × ((g.only_protected_branches
          ≡ some (or_pair m.only_mirror_protected_branches p.only_mirror_protected_branches))
        × (g.keep_divergent_refs
            ≡ some (not (or_pair m.mirror_overwrite_diverged p.mirror_overwrite_diverged))))

abbrev AgreesPull : Mirror → Pair → Remote → Type 0
AgreesPull m p g =
    (g.enabled ≡ some m.enabled)
    × ((g.only_mirror_protected_branches
          ≡ some (or_pair m.only_mirror_protected_branches p.only_mirror_protected_branches))
        × ((g.mirror_overwrites_diverged_branches
              ≡ some (or_pair m.mirror_overwrite_diverged p.mirror_overwrite_diverged))
            × ((g.mirror_trigger_builds
                  ≡ some (or_pair m.mirror_trigger_builds p.mirror_trigger_builds))
                × (blank_as_none g.mirror_branch_regex
                    ≡ blank_as_none (or_maybe m.mirror_branch_regex p.mirror_branch_regex)))))

abbrev pub Agrees : Mirror → Pair → Remote → Type 0
Agrees m p g = elim (is_push p.mirror_direction) [
  | true ↦ AgreesPush m p g
  | false ↦ AgreesPull m p g
]

is_same_iff : (a : Bool) (o : Option Bool) → (is_same a o ≡ true) ↔ (o ≡ some a)
is_same_iff a none = (λ h. ground (arith, h), λ h. ground (arith, h))
is_same_iff true (some b) = (λ h. rw h refl, λ h. ground (arith, h))
is_same_iff false (some b) = (λ h. ground (arith, h), λ h. ground (arith, h))

is_same_text_iff : (a b : Option Text) → (is_same_text a b ≡ true) ↔ (b ≡ a)
is_same_text_iff none none = (λ h. refl, λ h. refl)
is_same_text_iff none (some t) = (λ h. ground (arith, h), λ h. ground (arith, h))
is_same_text_iff (some s) none = (λ h. ground (arith, h), λ h. ground (arith, h))
is_same_text_iff (some s) (some t) =
    (λ h. ap some (sym ((eq_text_iff s t).0 h)), λ h. (eq_text_iff s t).1 (cc h))

-- The concatenation of two lists is empty.
nil_append : {A : Type 0} (xs ys : List A) → (xs ++ ys ≡ []) ↔ ((xs ≡ []) × (ys ≡ []))
nil_append [] ys = (λ h. (refl, h), λ (h, k). k)
nil_append (x ∷ xs) ys = (λ h. ground (arith, h), λ (h, k). ground (arith, h))

unless_iff : {A : Type 0} (b : Bool) (x : A) → ((if b then [] else x ∷ []) ≡ []) ↔ (b ≡ true)
unless_iff true x = (λ h. refl, λ h. refl)
unless_iff false x = (λ h. ground (arith, h), λ h. ground (arith, h))

response_iff : (ds : List Drift) → (response_of ds ≡ healthy) ↔ (ds ≡ [])
response_iff [] = (λ h. refl, λ h. refl)
response_iff (d ∷ ds) = (λ h. ground (arith, h), λ h. ground (arith, h))

when_differs_iff :
    (f : Bool → Option Bool → Drift) (a : Bool) (o : Option Bool)
    → (when_differs f a o ≡ []) ↔ (o ≡ some a)
when_differs_iff f a o =
    let e = unless_iff (is_same a o) (f a o) in
    let d = is_same_iff a o in (λ h. d.0 (e.0 h), λ h. e.1 (d.1 h))

when_regex_differs_iff :
    (a b : Option Text) → (when_regex_differs a b ≡ []) ↔ (blank_as_none b ≡ blank_as_none a)
when_regex_differs_iff a b =
    let e =
      unless_iff (is_same_text (blank_as_none a) (blank_as_none b))
        (branch_regex_drift (blank_as_none a) (blank_as_none b)) in
    let d = is_same_text_iff (blank_as_none a) (blank_as_none b) in
    (λ h. d.0 (e.0 h), λ h. e.1 (d.1 h))

-- An iff of a concatenation and of a product.
both_iff :
    {A : Type 0} {P Q : Type 0} (xs ys : List A)
    → (xs ≡ []) ↔ P
    → (ys ≡ []) ↔ Q
    → (xs ++ ys ≡ []) ↔ (P × Q)
both_iff xs ys f g =
    let e = nil_append xs ys in (λ h. (f.0 (e.0 h).0, g.0 (e.0 h).1), λ (h, k). e.1 (f.1 h, g.1 k))

push_drift_iff :
    (m : Mirror) (e : Effective) (g : Remote)
    → (push_drift m e g ≡ []) ↔ (
        (g.enabled ≡ some m.enabled)
        × ((g.only_protected_branches ≡ some e.only_protected)
            × (g.keep_divergent_refs ≡ some (not e.overwrite_diverged))))
push_drift_iff m e g =
    let all = when_differs enabled_drift m.enabled g.enabled in
    let protected = when_differs only_protected_drift e.only_protected g.only_protected_branches in
    let keep = when_differs keep_divergent_drift (not e.overwrite_diverged) g.keep_divergent_refs in
    both_iff all (protected ++ keep) (when_differs_iff enabled_drift m.enabled g.enabled) (
      both_iff protected keep
        (when_differs_iff only_protected_drift e.only_protected g.only_protected_branches)
        (when_differs_iff keep_divergent_drift (not e.overwrite_diverged) g.keep_divergent_refs))

-- The settings of a pull mirror, without those that only it has.
pull_drift_iff :
    {P : Type 0} (m : Mirror) (e : Effective) (g : Remote)
    → (pull_only_drift true e g ≡ []) ↔ P
    → (pull_drift true m e g ≡ []) ↔ (
        (g.enabled ≡ some m.enabled)
        × ((g.only_mirror_protected_branches ≡ some e.only_protected)
            × ((g.mirror_overwrites_diverged_branches ≡ some e.overwrite_diverged) × P)))
pull_drift_iff m e g only =
    let all = when_differs enabled_drift m.enabled g.enabled in
    let protected =
      when_differs only_protected_drift e.only_protected g.only_mirror_protected_branches in
    let overwrites =
      when_differs overwrites_drift e.overwrite_diverged g.mirror_overwrites_diverged_branches in
    let rest = pull_only_drift true e g in
    both_iff all (protected ++ (overwrites ++ rest))
      (when_differs_iff enabled_drift m.enabled g.enabled)
      (both_iff protected (overwrites ++ rest)
        (when_differs_iff only_protected_drift e.only_protected g.only_mirror_protected_branches)
        (both_iff overwrites rest
          (when_differs_iff overwrites_drift e.overwrite_diverged
            g.mirror_overwrites_diverged_branches)
          only))

-- A pair's direction is one of the two.
abbrev pub KnownDirection : Pair → Type 0
KnownDirection p = (p.mirror_direction ≡ push) ⊎ (p.mirror_direction ≡ pull)

effective_pull_settings :
    (m : Mirror) (p : Pair)
    → p.mirror_direction ≡ pull
    → ((resolve_effective_settings m p).trigger_builds
        ≡ some (or_pair m.mirror_trigger_builds p.mirror_trigger_builds))
      × ((resolve_effective_settings m p).branch_regex
          ≡ or_maybe m.mirror_branch_regex p.mirror_branch_regex)
unfolding resolve_effective_settings lower eq_text
effective_pull_settings m p e = (rw e refl, rw e refl)

pull_only_iff :
    (m : Mirror) (p : Pair) (g : Remote)
    → p.mirror_direction ≡ pull
    → (pull_only_drift true (resolve_effective_settings m p) g ≡ []) ↔ (
        (g.mirror_trigger_builds ≡ some (or_pair m.mirror_trigger_builds p.mirror_trigger_builds))
        × (blank_as_none g.mirror_branch_regex
            ≡ blank_as_none (or_maybe m.mirror_branch_regex p.mirror_branch_regex)))
pull_only_iff m p g e =
    let (t, r) = effective_pull_settings m p e in
    let trigger = or_pair m.mirror_trigger_builds p.mirror_trigger_builds in
    let regex = or_maybe m.mirror_branch_regex p.mirror_branch_regex in
    rw (t, r)
      (both_iff (when_differs trigger_drift trigger g.mirror_trigger_builds)
        (when_regex_differs regex g.mirror_branch_regex)
        (when_differs_iff trigger_drift trigger g.mirror_trigger_builds)
        (when_regex_differs_iff regex g.mirror_branch_regex))

drift_list_iff :
    (m : Mirror) (p : Pair) (g : Remote) → KnownDirection p → (drift_list m p g ≡ []) ↔ Agrees m p g
unfolding drift_list lower eq_text resolve_effective_settings
drift_list_iff m p g (inl e) = rw e (push_drift_iff m (resolve_effective_settings m p) g)
drift_list_iff m p g (inr e) =
    let q = record p { mirror_direction = pull } in
    rw e (pull_drift_iff m (resolve_effective_settings m q) g (pull_only_iff m q g refl))

pull_checked :
    (m : Mirror) (p : Pair) (r : VerifyResponse)
    → (m.mirror_id ≡ none → p.mirror_direction ≡ pull)
    → (elim m.mirror_id [
      | some i ↦ r
      | none ↦ if eq_text (verify_direction p) pull then r else not_created
    ])
      ≡ r
unfolding lower eq_text
pull_checked m p r c =
    elim m.mirror_id
        as (λ o.
          (o ≡ none → p.mirror_direction ≡ pull)
          → (elim o [
            | some i ↦ r
            | none ↦ if eq_text (verify_direction p) pull then r else not_created
          ])
            ≡ r) [ some i ↦ λ d. refl | none ↦ λ d. rw (d refl) refl ]
      c

verify_judged :
    (m : Mirror) (p : Pair) (answer : Reply (Option Remote)) (has_instance : ℕ → Bool)
    → has_instance p.source_instance_id ≡ true
    → has_instance p.target_instance_id ≡ true
    → (m.mirror_id ≡ none → p.mirror_direction ≡ pull)
    → verify_single_mirror m (some p) has_instance answer ≡ judge_remote m p answer
unfolding verify_single_mirror
verify_judged m p answer has_instance s t c =
    let found =
      (if has_instance p.source_instance_id && has_instance p.target_instance_id
        then judge_remote m p answer
        else failed (codes "Source or target instance not found")) in
    pull_checked m p found c ∙ rw (s, t) refl

-- For a pair whose direction is push or pull, both of whose instances are found, and a mirror that
-- GitLab has: the check answers healthy exactly when GitLab's settings are the effective ones, where
-- a mirror of a push pair is known to have been created.
pub verify-Agrees :
    (m : Mirror) (p : Pair) (g : Remote) (has_instance : ℕ → Bool)
    → KnownDirection p
    → has_instance p.source_instance_id ≡ true
    → has_instance p.target_instance_id ≡ true
    → (m.mirror_id ≡ none → p.mirror_direction ≡ pull)
    → (verify_single_mirror m (some p) has_instance (reply (some g)) ≡ healthy) ↔ Agrees m p g
verify-Agrees m p g has_instance k s t c =
    let (d, e) = drift_list_iff m p g k in
    let (r, h) = response_iff (drift_list m p g) in
    let j = verify_judged m p (reply (some g)) has_instance s t c in
    (λ v. d (r (sym j ∙ v)), λ a. j ∙ h (e a))
