-- ===== src/Mirrors/Refresh/Broken.antt =====
-- app/core/mirror_status_scheduler.py: a round of refreshes after a commit that failed.
use mirror_maestro.Common.{
  ℕ, ◌+◌, Bool, true, false, List, ◌∷◌, length, ◌≡◌, refl, sym, ◌∙◌, ap, if◌then◌else◌, Option,
  none, some, inl, inr, Bool-cases, ◌==◌,
}
use mirror_maestro.Text.{eq_text}
use mirror_maestro.Errors.{Error, Outcome, returned, raised}
use mirror_maestro.Database.{Row, no_row, one_row, many_rows, scalar_one_or_none}
use mirror_maestro.Tables.{Mirror, Pair}
use mirror_maestro.Mirrors.Op.{Result, ok, thrown, execute_gitlab_op}
use mirror_maestro.Mirrors.Settings.{pull}
use mirror_maestro.Mirrors.Verify.{verify_direction}
use mirror_maestro.Mirrors.Refresh.{
  Status, Around, RefreshResult, RefreshWorld, store_status, store_answer, fetch_status,
  has_instances, refresh_created, refresh_paired, rollback_error, refresh_mirror_status,
}
use mirror_maestro.Mirrors.Refresh.Cycle.{refresh_all, refresh_cycle, shown, Tally, LastRefresh}

if_true : {A : Type 0} (b : Bool) (x y : A) → b ≡ true → (if b then x else y) ≡ x
if_true true x y h = refl
if_true false x y h = absurd (let bad = h in cc)

-- If an action breaks the session, it has changed no row.
abbrev Breaks : RefreshWorld → Outcome RefreshResult × RefreshWorld → Type 0
Breaks w x = x.1.broken ≡ true → x.1.mirrors ≡ w.mirrors

never : (b : Bool) → b ≡ false → b ≡ true → ⊥
never b h k = let bad : false ≡ true = sym h ∙ k in cc

module _ (o : Around) where
  store-Breaks :
      (m : Mirror) (g : Status) (w : RefreshWorld)
      → w.broken ≡ false
      → Breaks w (store_status o m g w)
  unfolding store_status
  store-Breaks m g w h = elim (Bool-cases (o.commit w.calls)) [
    | inl k ↦ rw k (λ b. absurd (never w.broken h b))
    | inr k ↦ rw k (λ b. refl)
  ]

  answer-Breaks :
      (m : Mirror) (r : Result (Option Status)) (w : RefreshWorld)
      → w.broken ≡ false
      → Breaks w (store_answer o m r w)
  answer-Breaks m (thrown x) w h = λ b. absurd (never w.broken h b)
  answer-Breaks m (ok none) w h = λ b. absurd (never w.broken h b)
  answer-Breaks m (ok (some g)) w h = store-Breaks m g w h

  created-Breaks :
      (m : Mirror) (p : Pair) (w : RefreshWorld)
      → w.broken ≡ false
      → Breaks w (refresh_created o m p w)
  created-Breaks m p w h = elim (Bool-cases (has_instances o p)) [
    | inl k ↦ rw k (
        answer-Breaks m (execute_gitlab_op (fetch_status o m p w.calls))
          record w { calls = w.calls + 1 } h)
    | inr k ↦ rw k (λ b. absurd (never w.broken h b))
  ]

  paired-Breaks :
      (m : Mirror) (r : Row Pair) (w : RefreshWorld)
      → w.broken ≡ false
      → Breaks w (refresh_paired o m r w)
  paired-Breaks m many_rows w h = λ b. absurd (never w.broken h b)
  paired-Breaks m no_row w h = λ b. absurd (never w.broken h b)
  paired-Breaks m (one_row p) w h =
      elim m.mirror_id
        as (λ i. Breaks w (refresh_paired o record m { mirror_id = i } (one_row p) w)) [
          | some i ↦ created-Breaks record m { mirror_id = some i } p w h
          | none ↦ elim (Bool-cases (eq_text (verify_direction p) pull)) [
            | inl k ↦ rw k (created-Breaks record m { mirror_id = none } p w h)
            | inr k ↦ rw k (λ b. absurd (never w.broken h b))
          ]
        ]

  unless-Breaks :
      (b : Bool) (e : Error) (w : RefreshWorld) (x : Outcome RefreshResult × RefreshWorld)
      → (b ≡ false → Breaks w x)
      → Breaks w (if b then (raised e, w) else x)
  unless-Breaks true e w x h = λ k. refl
  unless-Breaks false e w x h = h refl

  refresh-Breaks : (m : Mirror) (w : RefreshWorld) → Breaks w (refresh_mirror_status o m w)
  unfolding refresh_mirror_status
  refresh-Breaks m w =
      let found = scalar_one_or_none (λ (p : Pair). p.id == m.instance_pair_id) o.pairs in
      unless-Breaks w.broken (rollback_error o) w (refresh_paired o m found w)
        (paired-Breaks m found w)

-- If the scheduler still runs and the refresh of the first mirror leaves the session broken, as a
-- commit does that fails: the round ends there, whatever mirrors come after it. No row changes, no
-- call is made for a later mirror, and the scheduler shows the numbers of the round before.
pub refresh_cycle-broken :
    (o : Around) (running : ℕ → Bool) (last : LastRefresh) (m : Mirror) (ms : List Mirror)
    (w : RefreshWorld)
    → running 0 ≡ true
    → (refresh_mirror_status o m w).1.broken ≡ true
    → let (shown_then, w') = refresh_cycle o running last (m ∷ ms) w in
      (shown_then ≡ last)
      × (w'.mirrors ≡ w.mirrors)
      × (w'.calls ≡ (refresh_mirror_status o m w).1.calls)
unfolding refresh_cycle refresh_all
refresh_cycle-broken o running last m ms w runs b =
    let w' = (refresh_mirror_status o m w).1 in
    let none_yet : Tally = record { success_count = 0; error_count = 0; skipped_count = 0 } in
    let ended : refresh_all o running (m ∷ ms) 0 none_yet w ≡ (raised (rollback_error o), w') =
      if_true (running 0) _ (returned none_yet, w) runs ∙ if_true w'.broken _ _ b in
    let done : refresh_cycle o running last (m ∷ ms) w ≡ (last, w') =
      ap (λ (x : Outcome Tally × RefreshWorld). (shown o running (length (m ∷ ms)) last x.0, x.1))
        ended in
    (
      ap (λ (x : LastRefresh × RefreshWorld). x.0) done,
      ap (λ (x : LastRefresh × RefreshWorld). x.1.mirrors) done ∙ refresh-Breaks o m w b,
      ap (λ (x : LastRefresh × RefreshWorld). x.1.calls) done,
    )
