-- ===== src/Mirrors/Refresh/Kept.antt =====
-- app/core/mirror_status_scheduler.py: what a round of refreshes leaves alone.
use mirror_maestro.Common.{
  ℕ, ◌+◌, Bool, true, false, Option, none, some, List, [], ◌∷◌, map, ◌≡◌, refl, ◌∙◌, ap, inl, inr,
  Bool-cases, ◌==◌, if◌then◌else◌,
}
use mirror_maestro.Text.{eq_text}
use mirror_maestro.Errors.{Error, Outcome, raised}
use mirror_maestro.Database.{Row, no_row, one_row, many_rows, scalar_one_or_none}
use mirror_maestro.Tables.{Mirror, Pair}
use mirror_maestro.Mirrors.Op.{Result, ok, thrown, execute_gitlab_op}
use mirror_maestro.Mirrors.Settings.{pull}
use mirror_maestro.Mirrors.Verify.{verify_direction}
use mirror_maestro.Mirrors.Refresh.{
  Status, Around, RefreshWorld, refreshed_row, set_mirror, store_status, store_answer, fetch_status,
  has_instances, refresh_created, refresh_paired, rollback_error, refresh_mirror_status,
}
use mirror_maestro.Mirrors.Refresh.Cycle.{
  refresh_all, refresh_cycle, Tally, LastRefresh, counted_result,
}

-- A row without `enabled`, the status and `updated_at`.
abbrev pub without_status : Mirror → Mirror
without_status m = record m {
  enabled = false;
  last_update_status = none;
  last_update_at = none;
  last_successful_update = none;
  last_error = none;
  status_checked_at = none;
  updated_at = 0;
}

abbrev pub SameSettings : List Mirror → List Mirror → Type 0
SameSettings before after = map without_status after ≡ map without_status before

set_mirror-SameSettings :
    (o : Around) (i now : ℕ) (g : Status) (ms : List Mirror)
    → SameSettings ms (set_mirror o i (refreshed_row o now g) ms)
unfolding set_mirror
set_mirror-SameSettings o i now g [] = refl
set_mirror-SameSettings o i now g (m ∷ ms) =
    let later = ap (λ xs. without_status m ∷ xs) (set_mirror-SameSettings o i now g ms) in
    elim (Bool-cases (m.id == i)) [ inl h ↦ rw h later | inr h ↦ rw h later ]

module _ (o : Around) where
  store-SameSettings :
      (m : Mirror) (g : Status) (w : RefreshWorld)
      → SameSettings w.mirrors (store_status o m g w).1.mirrors
  unfolding store_status
  store-SameSettings m g w = elim (Bool-cases (o.commit w.calls)) [
    | inl h ↦ rw h (set_mirror-SameSettings o m.id (o.now w.calls) g w.mirrors)
    | inr h ↦ rw h refl
  ]

  answer-SameSettings :
      (m : Mirror) (r : Result (Option Status)) (w : RefreshWorld)
      → SameSettings w.mirrors (store_answer o m r w).1.mirrors
  answer-SameSettings m (thrown x) w = refl
  answer-SameSettings m (ok none) w = refl
  answer-SameSettings m (ok (some g)) w = store-SameSettings m g w

  created-SameSettings :
      (m : Mirror) (p : Pair) (w : RefreshWorld)
      → SameSettings w.mirrors (refresh_created o m p w).1.mirrors
  created-SameSettings m p w = elim (Bool-cases (has_instances o p)) [
    | inl h ↦ rw h (answer-SameSettings m (execute_gitlab_op (fetch_status o m p w.calls)) _)
    | inr h ↦ rw h refl
  ]

  paired-SameSettings :
      (m : Mirror) (r : Row Pair) (w : RefreshWorld)
      → SameSettings w.mirrors (refresh_paired o m r w).1.mirrors
  paired-SameSettings m many_rows w = refl
  paired-SameSettings m no_row w = refl
  paired-SameSettings m (one_row p) w =
      elim m.mirror_id
        as (λ i.
          SameSettings w.mirrors
            (refresh_paired o record m { mirror_id = i } (one_row p) w).1.mirrors) [
              | some i ↦ created-SameSettings record m { mirror_id = some i } p w
              | none ↦ elim (Bool-cases (eq_text (verify_direction p) pull)) [
                | inl h ↦ rw h (created-SameSettings record m { mirror_id = none } p w)
                | inr h ↦ rw h refl
              ]
            ]

  unless-SameSettings :
      {A : Type 0} (b : Bool) (e : Error) (w : RefreshWorld) (x : Outcome A × RefreshWorld)
      → SameSettings w.mirrors x.1.mirrors
      → SameSettings w.mirrors (if b then (raised e, w) else x).1.mirrors
  unless-SameSettings true e w x h = refl
  unless-SameSettings false e w x h = h

  refresh-SameSettings :
      (m : Mirror) (w : RefreshWorld)
      → SameSettings w.mirrors (refresh_mirror_status o m w).1.mirrors
  unfolding refresh_mirror_status
  refresh-SameSettings m w =
      let found = scalar_one_or_none (λ (p : Pair). p.id == m.instance_pair_id) o.pairs in
      unless-SameSettings w.broken (rollback_error o) w (refresh_paired o m found w)
        (paired-SameSettings m found w)

  unless_broken :
      {A : Type 0} (m : Mirror) (w : RefreshWorld) (x : Outcome A × RefreshWorld)
      → SameSettings w.mirrors x.1.mirrors
      → let w' = (refresh_mirror_status o m w).1 in
        SameSettings w.mirrors (if w'.broken then (raised (rollback_error o), w') else x).1.mirrors
  unless_broken m w x h = elim (Bool-cases (refresh_mirror_status o m w).1.broken) [
    | inl k ↦ rw k (refresh-SameSettings m w)
    | inr k ↦ rw k h
  ]

  module _ (running : ℕ → Bool) where
    all-SameSettings :
        (ms : List Mirror) (n : ℕ) (t : Tally) (w : RefreshWorld)
        → SameSettings w.mirrors (refresh_all o running ms n t w).1.mirrors
    unfolding refresh_all
    all-SameSettings [] n t w = refl
    all-SameSettings (m ∷ ms) n t w = elim (Bool-cases (running n)) [
      | inl h ↦ rw h (
          unless_broken m w (refresh_all o running ms (n + 1) _ (refresh_mirror_status o m w).1) (
            all-SameSettings ms (n + 1) (counted_result (refresh_mirror_status o m w).0 t)
              (refresh_mirror_status o m w).1
            ∙ refresh-SameSettings m w))
      | inr h ↦ rw h refl
    ]

    -- Whatever GitLab answers and whenever the scheduler stops, a round of refreshes changes no
    -- column of the mirrors but `enabled`, those of their status and `updated_at`, and adds and
    -- removes no row.
    pub refresh_cycle-SameSettings :
        (last : LastRefresh) (ms : List Mirror) (w : RefreshWorld)
        → SameSettings w.mirrors (refresh_cycle o running last ms w).1.mirrors
    unfolding refresh_cycle
    refresh_cycle-SameSettings last ms w = all-SameSettings ms 0 _ w
