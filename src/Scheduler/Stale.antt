-- ===== src/Scheduler/Stale.antt =====
-- app/core/issue_scheduler.py: what the cleanup of stale jobs leaves.
use mirror_maestro.Common.{
  ℕ, ◌+◌, Bool, true, false, List, [], ◌∷◌, map, any, ◌≡◌, refl, ap, inl, inr, Bool-cases, arith,
}
use mirror_maestro.Scheduler.{
  Job, Db, minutes, is_active, is_stale, fail_stale, count, cleanup_stale_jobs,
}

module _ (now timeout : ℕ) where
  abbrev stale : Job → Bool
  stale = is_stale now (minutes timeout)

  stale-active : (j : Job) → stale j ≡ true → is_active j ≡ true
  unfolding is_stale
  stale-active j e = ground (arith, e)

  stale-fail_stale : (j : Job) → stale (fail_stale now timeout j) ≡ false
  unfolding fail_stale
  stale-fail_stale j = elim (Bool-cases (stale j)) [
    | inl e ↦ rw e (unfold is_stale in refl)
    | inr e ↦ rw (e, e) refl
  ]

  any-stale-map : (js : List Job) → any stale (map (fail_stale now timeout) js) ≡ false
  any-stale-map [] = refl
  any-stale-map (j ∷ js) = rw (stale-fail_stale j, any-stale-map js) refl

  count-active :
      (js : List Job)
      → count is_active (map (fail_stale now timeout) js) + count stale js ≡ count is_active js
  unfolding fail_stale
  count-active [] = refl
  count-active (j ∷ js) = elim (Bool-cases (stale j)) [
    | inl e ↦ rw (e, stale-active j e) (omega (arith, count-active js))
    | inr e ↦ ground (arith, e, count-active js)
  ]

  fresh-map : (js : List Job) → any stale js ≡ false → map (fail_stale now timeout) js ≡ js
  unfolding fail_stale
  fresh-map [] e = refl
  fresh-map (j ∷ js) e =
      let here : stale j ≡ false = ground (arith, e) in
      let rest : any stale js ≡ false = ground (arith, e) in
      rw here (ap (λ ks. j ∷ ks) (fresh-map js rest))

count-none : (p : Job → Bool) (js : List Job) → any p js ≡ false → count p js ≡ 0
count-none p [] e = refl
count-none p (j ∷ js) e =
    let here : p j ≡ false = ground (arith, e) in
    let rest : any p js ≡ false = ground (arith, e) in rw here (count-none p js rest)

-- After the cleanup no job is stale, and as many active jobs are gone as it says.
pub cleanup_stale_jobs_lem :
    (now timeout : ℕ) (db : Db)
    → (any (is_stale now (minutes timeout)) (cleanup_stale_jobs now timeout db).1.jobs ≡ false)
      × (count is_active (cleanup_stale_jobs now timeout db).1.jobs
            + (cleanup_stale_jobs now timeout db).0
          ≡ count is_active db.jobs)
unfolding cleanup_stale_jobs
cleanup_stale_jobs_lem now timeout db =
    (any-stale-map now timeout db.jobs, count-active now timeout db.jobs)

-- A second cleanup at the same time finds nothing and changes nothing.
pub cleanup_stale_jobs_again :
    (now timeout : ℕ) (db : Db)
    → (cleanup_stale_jobs now timeout (cleanup_stale_jobs now timeout db).1
        ≡ (0, (cleanup_stale_jobs now timeout db).1))
unfolding cleanup_stale_jobs
cleanup_stale_jobs_again now timeout db =
    let none_stale = any-stale-map now timeout db.jobs in
    rw (count-none _ _ none_stale, fresh-map now timeout _ none_stale) refl
