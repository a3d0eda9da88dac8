-- ===== src/Scheduler/Exclusive.antt =====
-- app/core/issue_scheduler.py: which jobs may be active together, when every task decides and
-- writes without another task in between.
use mirror_maestro.Common.{
  or_false, ℕ, Bool, false, true, some, ◌&&◌, ◌||◌, List, [], ◌∷◌, map, any, ◌≡◌, refl, ◌∙◌, ◌⊎◌,
  inl, inr, Bool-cases, ◌==◌, if◌then◌else◌, arith,
}
use mirror_maestro.Errors.{Outcome, returned, raised}
use mirror_maestro.Sync.{Stats}
use mirror_maestro.Scheduler.{
  Job, Config, Mirror, Pair, minutes, is_active, is_stale, fail_stale, opposes, conflicts,
  is_existing, new_job,
}
use mirror_maestro.Scheduler.Run.{finish_job, update_job}
use mirror_maestro.Scheduler.Manual.{set_running, ManualEnd, gone, ran, end_job}

-- The job with the id is active, if there is one.
abbrev pub is_waiting : ℕ → List Job → Bool
is_waiting i [] = true
is_waiting i (j ∷ js) = let rest = is_waiting i js in if j.job_id == i then is_active j else rest

-- Two active jobs of one configuration, or in opposite directions between the same projects.
abbrev pub clashes : Job → Job → Bool
clashes j k =
    is_active j
    && (is_active k
        && (k.config_id == j.config_id
            || opposes j.source_project j.target_project j.source_instance j.target_instance k))

-- No job clashes with an older one.
abbrev pub IsExclusive : List Job → Type 0
IsExclusive [] = Unit
IsExclusive (j ∷ js) = (any (clashes j) js ≡ false) × IsExclusive js

-- The job clashes with the same jobs as before, or is no longer active.
abbrev Settled : Job → Job → Type 0
Settled before after =
    ((k : Job) → (clashes after k ≡ clashes before k) × (clashes k after ≡ clashes k before))
    ⊎ (is_active after ≡ false)

unchanged : (j : Job) → Settled j j
unchanged j = inl (λ k. (refl, refl))

abbrev AllSettled : List Job → List Job → Type 0
AllSettled [] [] = Unit
AllSettled (j ∷ js) (k ∷ ks) = Settled j k × AllSettled js ks
AllSettled _ _ = ⊥

clashes-Settled :
    (j k j' k' : Job) → Settled j j' → Settled k k' → clashes j k ≡ false → clashes j' k' ≡ false
clashes-Settled j k j' k' (inl p) (inl q) e = (p k').0 ∙ ((q j).1 ∙ e)
clashes-Settled j k j' k' (inr p) q e = rw p refl
clashes-Settled j k j' k' (inl p) (inr q) e = elim (Bool-cases (is_active j')) [
  | inl h ↦ rw (h, q) refl
  | inr h ↦ rw h refl
]

or_false_intro : {a b : Bool} → a ≡ false → b ≡ false → a || b ≡ false
or_false_intro p q = rw (p, q) refl

any-clashes-Settled :
    (j j' : Job) (js js' : List Job)
    → Settled j j'
    → AllSettled js js'
    → any (clashes j) js ≡ false
    → any (clashes j') js' ≡ false
any-clashes-Settled j j' [] [] s ss e = refl
any-clashes-Settled j j' (k ∷ ks) (k' ∷ ks') s (t, ts) e =
    let (head, tail) = or_false (clashes j k) (any (clashes j) ks) e in
    or_false_intro (clashes-Settled j k j' k' s t head) (any-clashes-Settled j j' ks ks' s ts tail)
any-clashes-Settled j j' [] (k' ∷ ks') s ss e = elim ss [ ]
any-clashes-Settled j j' (k ∷ ks) [] s ss e = elim ss [ ]

pub AllSettled-IsExclusive :
    (js js' : List Job) → AllSettled js js' → IsExclusive js → IsExclusive js'
AllSettled-IsExclusive [] [] s v = tt
AllSettled-IsExclusive (j ∷ js) (j' ∷ js') (s, ss) (e, v) =
    (any-clashes-Settled j j' js js' s ss e, AllSettled-IsExclusive js js' ss v)
AllSettled-IsExclusive [] (j' ∷ js') s v = elim s [ ]
AllSettled-IsExclusive (j ∷ js) [] s v = elim s [ ]

settled_refl : (js : List Job) → AllSettled js js
settled_refl [] = tt
settled_refl (j ∷ js) = (unchanged j, settled_refl js)

pub finish_job-Settled : (now : ℕ) (o : Outcome Stats) (j : Job) → Settled j (finish_job now o j)
unfolding finish_job
finish_job-Settled now (returned stats) j = inr refl
finish_job-Settled now (raised e) j = inr refl

module _ (i : ℕ) (f : Job → Job) where
  pub update_job-Settled :
      ((j : Job) → Settled j (f j)) → (js : List Job) → AllSettled js (update_job i f js)
  update_job-Settled h [] = tt
  update_job-Settled h (j ∷ js) = elim (Bool-cases (j.job_id == i)) [
    | inl e ↦ rw e (h j, settled_refl js)
    | inr e ↦ rw e (unchanged j, update_job-Settled h js)
  ]

  -- It is enough to know the change of the active job with the id.
  pub update_active-Settled :
      ((j : Job) → is_active j ≡ true → Settled j (f j))
      → (js : List Job) → is_waiting i js ≡ true
      → AllSettled js (update_job i f js)
  update_active-Settled h [] w = tt
  update_active-Settled h (j ∷ js) w = elim (Bool-cases (j.job_id == i)) [
    | inl e ↦ let active : is_active j ≡ true = (rw e at w) in rw e (h j active, settled_refl js)
    | inr e ↦
        let later : is_waiting i js ≡ true = (rw e at w) in
        rw e (unchanged j, update_active-Settled h js later)
  ]

pub set_running-Settled : (now : ℕ) (j : Job) → is_active j ≡ true → Settled j (set_running now j)
set_running-Settled now j h = inl (λ k. (rw h refl, rw h refl))

pub end_job-Settled : (now : ℕ) (e : ManualEnd) (j : Job) → Settled j (end_job now e j)
end_job-Settled now (gone message) j = inr refl
end_job-Settled now (ran o) j = finish_job-Settled now o j

fail_stale-Settled : (now timeout : ℕ) (j : Job) → Settled j (fail_stale now timeout j)
unfolding fail_stale
fail_stale-Settled now timeout j = elim (Bool-cases (is_stale now (minutes timeout) j)) [
  | inl e ↦ rw e (inr refl)
  | inr e ↦ rw e (unchanged j)
]

pub cleanup-Settled :
    (now timeout : ℕ) (js : List Job) → AllSettled js (map (fail_stale now timeout) js)
cleanup-Settled now timeout [] = tt
cleanup-Settled now timeout (j ∷ js) =
    (fail_stale-Settled now timeout j, cleanup-Settled now timeout js)

-- A job that neither query of `_sync_config` finds does not clash with the new one.
module _ (now i : ℕ) (c : Config) (m : Mirror) (p : Pair) where
  abbrev pub conflicting : Job → Bool
  conflicting =
      conflicts m.source_project_id m.target_project_id p.source_instance_id p.target_instance_id
        (some c.id)

  new_job-clashes :
      (j : Job)
      → is_existing c.id j ≡ false
      → conflicting j ≡ false
      → clashes (new_job now i c m p) j ≡ false
  new_job-clashes j a b = elim (Bool-cases (is_active j)) [
    | inr h ↦ rw h refl
    | inl h ↦
        let a' : j.config_id == c.id ≡ false = ground (arith, a, h) in ground (arith, b, a', h)
  ]

  pub any-new_job-clashes :
      (js : List Job)
      → any (is_existing c.id) js ≡ false
      → any conflicting js ≡ false
      → any (clashes (new_job now i c m p)) js ≡ false
  any-new_job-clashes [] a b = refl
  any-new_job-clashes (j ∷ js) a b =
      let (a1, a2) = or_false (is_existing c.id j) (any (is_existing c.id) js) a in
      let (b1, b2) = or_false (conflicting j) (any conflicting js) b in
      or_false_intro (new_job-clashes j a1 b1) (any-new_job-clashes js a2 b2)
