-- ===== src/Sync/Keeps.antt =====
-- app/core/issue_sync.py: the actions of the engine that leave the mappings alone.
use mirror_maestro.Common.{ℕ, Bool, true, false, Option, none, some, ◌≡◌, refl, ◌∙◌, if◌then◌else◌}
use mirror_maestro.Text.{Text}
use mirror_maestro.Errors.{Outcome, returned, raised}
use mirror_maestro.Errors.Action.{continue}
use mirror_maestro.Issue.{TimeStats, Issue}
use mirror_maestro.Sync.Target.{
  TargetIssue, Request, Outside, World, Action, ask, send, Engine, pure, lift, ◌>>=◌,
}
use mirror_maestro.Sync.Orphans.{
  find_existing_target_issue, search_label, search_legacy, or_none, source_ref,
}
use mirror_maestro.Sync.Issues.{sync_time_tracking, prepare_content, place_issue, sync_state}

pub record Keeps {A : Type 0} (m : Action A) : Type 0 where
  pub kept : (w : World) → (m w).1.mappings ≡ w.mappings
  pub whole : (w : World) → (m w).1.broken ≡ w.broken

module _ {A : Type 0} where
  pub pure-Keeps : (a : A) → Keeps (pure a)
  unfolding pure
  pure-Keeps a = record { kept = λ w. refl; whole = λ w. refl }

  pub lift-Keeps : (r : Outcome A) → Keeps (lift r)
  unfolding lift
  lift-Keeps r = record { kept = λ w. refl; whole = λ w. refl }

  pub ask-Keeps : (f : ℕ → Outcome A) → Keeps (ask f)
  unfolding ask
  ask-Keeps f = record { kept = λ w. refl; whole = λ w. refl }

  pub send-Keeps : (r : Request) (f : ℕ → Outcome A) → Keeps (send r f)
  unfolding send
  send-Keeps r f = record { kept = λ w. refl; whole = λ w. refl }

  pub if-Keeps : (b : Bool) (m n : Action A) → Keeps m → Keeps n → Keeps (if b then m else n)
  if-Keeps true m n h k = h
  if-Keeps false m n h k = k

module _ {A B : Type 0} where
  continue-kept :
      (r : Outcome A) (f : A → Action B) (w : World)
      → ((a : A) → Keeps (f a))
      → (continue r f w).1.mappings ≡ w.mappings
  continue-kept (returned a) f w k = (k a).kept w
  continue-kept (raised x) f w k = refl

  continue-whole :
      (r : Outcome A) (f : A → Action B) (w : World)
      → ((a : A) → Keeps (f a))
      → (continue r f w).1.broken ≡ w.broken
  continue-whole (returned a) f w k = (k a).whole w
  continue-whole (raised x) f w k = refl

  pub bind-Keeps :
      (m : Action A) (f : A → Action B) → Keeps m → ((a : A) → Keeps (f a)) → Keeps (m >>= f)
  unfolding ◌>>=◌
  bind-Keeps m f h k = record {
    kept = λ w. continue-kept (m w).0 f (m w).1 k ∙ h.kept w;
    whole = λ w. continue-whole (m w).0 f (m w).1 k ∙ h.whole w;
  }

pub ruleset keeps_rules = (pure-Keeps, lift-Keeps, ask-Keeps, send-Keeps, if-Keeps, bind-Keeps)

module _ (o : Outside) (e : Engine) where
  pub sync_time_tracking-Keeps :
      (t : Option TimeStats) (iid : ℕ) → Keeps (sync_time_tracking o e t iid)
  unfolding sync_time_tracking
  sync_time_tracking-Keeps none iid = search keeps_rules
  sync_time_tracking-Keeps (some t) iid = search keeps_rules

  pub prepare_content-Keeps : (issue : Issue) → Keeps (prepare_content o e issue)
  unfolding prepare_content
  prepare_content-Keeps issue = search keeps_rules

  pub place_issue-Keeps :
      (issue : Issue) (found : Option TargetIssue) → Keeps (place_issue o e issue found)
  unfolding place_issue
  place_issue-Keeps issue (some found) = search (keeps_rules, prepare_content-Keeps)
  place_issue-Keeps issue none = search (keeps_rules, prepare_content-Keeps)

  pub sync_state-Keeps : (issue : Issue) (iid : ℕ) → Keeps (sync_state o e issue iid)
  sync_state-Keeps issue iid = search keeps_rules

  search_legacy-Keeps : (ref : Text) (r : Option TargetIssue) → Keeps (search_legacy o e ref r)
  search_legacy-Keeps ref none = search keeps_rules
  search_legacy-Keeps ref (some i) = search keeps_rules

  or_none-mappings :
      (r : Outcome (Option TargetIssue)) (w : World) → (or_none o e (r, w)).1.mappings ≡ w.mappings
  or_none-mappings (returned i) w = refl
  or_none-mappings (raised x) w = refl

  or_none-broken :
      (r : Outcome (Option TargetIssue)) (w : World) → (or_none o e (r, w)).1.broken ≡ w.broken
  or_none-broken (returned i) w = refl
  or_none-broken (raised x) w = refl

  pub find_existing_target_issue-Keeps : (iid : ℕ) → Keeps (find_existing_target_issue o e iid)
  unfolding find_existing_target_issue
  find_existing_target_issue-Keeps iid =
      let ref = source_ref e.source_project_path iid in
      let m = search_label o e ref e.mirror_from_label >>= search_legacy o e ref in
      let keeps : Keeps m = search (keeps_rules, search_legacy-Keeps) in
      record {
        kept = λ w. or_none-mappings (m w).0 (m w).1 ∙ keeps.kept w;
        whole = λ w. or_none-broken (m w).0 (m w).1 ∙ keeps.whole w;
      }
