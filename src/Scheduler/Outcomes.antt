-- ===== src/Scheduler/Outcomes.antt =====
-- app/core/issue_scheduler.py: how `_sync_config` leaves the jobs and its configuration.
use mirror_maestro.Common.{
  ℕ, true, false, Option, none, some, List, [], ◌∷◌, ◌≡◌, refl, inl, inr, Bool-cases, ◌==◌,
  if◌then◌else◌, arith,
}
use mirror_maestro.Errors.{Outcome, returned, raised}
use mirror_maestro.Sync.{Stats}
use mirror_maestro.Scheduler.{Config, update_config}
use mirror_maestro.Scheduler.Run.{finish_config, is_due}

abbrev pub find_config : ℕ → List Config → Option Config
find_config i [] = none
find_config i (c ∷ cs) = if c.id == i then some c else find_config i cs

-- No configuration of the id is due.
abbrev pub IsScheduled : ℕ → Option Config → Type 0
IsScheduled now none = Unit
IsScheduled now (some c) = is_due now c ≡ false

module _ (later : ℕ) (c : Config) where
  finished-id : (o : Outcome Stats) (k : Config) → (finish_config later o k).id ≡ k.id
  finished-id (returned stats) k = refl
  finished-id (raised e) k = refl

  pub find-update :
      (o : Outcome Stats) (k : Config) (cs : List Config)
      → find_config c.id cs ≡ some k
      → find_config c.id (update_config c.id (finish_config later o) cs)
        ≡ some (finish_config later o k)
  find-update o k [] e = ground (arith, e)
  find-update o k (x ∷ xs) e = elim (Bool-cases (x.id == c.id)) [
    | inl h ↦
        let found : some x ≡ some k = (rw h at e) in
        let there : (finish_config later o x).id == c.id ≡ true = rw (finished-id o x) h in
        rw (h, there) (cc)
    | inr h ↦ rw (h, h) (find-update o k xs (rw h at e))
  ]
