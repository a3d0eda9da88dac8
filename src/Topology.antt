-- ===== src/Topology.antt =====
-- app/api/topology.py: how healthy and how stale a mirror or a link is.
pub mod Aggregate
pub mod Counts
pub mod Links
pub mod Listed
mod Tests
use mirror_maestro.Common.{
  ℕ, zero, suc, ◌+◌, ◌-◌, ◌*◌, ◌/◌, Bool, true, false, not, ◌&&◌, ◌||◌, Option, none, some, List,
  [], ◌∷◌, any, length, map, ltb, leb, ◌==◌, if◌then◌else◌,
}
use mirror_maestro.Text.{Text, codes, eq_text, strip, lower, is_empty, Dict, lookup, insert}
use mirror_maestro.Tables.{Mirror, Pair}

-- "unknown", "ok", "warning" and "error"
pub data Health : Type 0 where
  unknown ok warning error : Health

abbrev pub or_blank : Option Text → Text
or_blank none = []
or_blank (some s) = s

-- `_norm_dir`
unfoldable pub norm_dir : Option Text → Text
norm_dir raw =
    let d = lower (strip (or_blank raw)) in
    if eq_text d (codes "push") || eq_text d (codes "pull") then d else codes "pull"

-- `_norm_status`
unfoldable pub norm_status : Option Text → Text
norm_status raw = let s = lower (strip (or_blank raw)) in if is_empty s then codes "unknown" else s

-- `counts.get(key, 0)`
abbrev pub or_zero : Option ℕ → ℕ
or_zero none = 0
or_zero (some n) = n

abbrev pub get : Text → Dict ℕ → ℕ
get key counts = or_zero (lookup key counts)

abbrev pub is_nil : {A : Type 0} → List A → Bool
is_nil [] = true
is_nil (x ∷ xs) = false

-- `_health_from_status_counts`
unfoldable pub health_from_status_counts : Dict ℕ → Health
health_from_status_counts counts =
    if is_nil counts
    then unknown
    else if ltb 0 (get (codes "failed") counts)
    then error
    else if ltb 0 (get (codes "updating") counts)
        || (ltb 0 (get (codes "pending") counts)
            || (ltb 0 (get (codes "syncing") counts) || ltb 0 (get (codes "started") counts)))
    then warning
    else if ltb 0 (get (codes "finished") counts) || ltb 0 (get (codes "success") counts)
    then ok
    else unknown

abbrev pub or_number : Option ℕ → ℕ → ℕ
or_number none default = default
or_number (some n) default = n

-- `_normalize_stale_thresholds`, for thresholds that are not negative.
abbrev pub normalize_stale_thresholds : Option ℕ → Option ℕ → ℕ × ℕ
normalize_stale_thresholds stale_warning_seconds stale_error_seconds =
    let warn = or_number stale_warning_seconds (24 * 60 * 60) in
    let err = or_number stale_error_seconds (7 * 24 * 60 * 60) in
    (warn, if ltb err warn then warn else err)

-- The whole seconds since a time, 0 if it lies ahead.
abbrev pub age_of : ℕ → ℕ → ℕ
age_of now last = (now - last) / 1000000

-- `_staleness_level`
abbrev pub staleness_level : ℕ → Option ℕ → ℕ → ℕ → ℕ → Health × Option ℕ
staleness_level now last zero warn_s err_s = (unknown, none)
staleness_level now none (suc n) warn_s err_s = (warning, none)
staleness_level now (some last) (suc n) warn_s err_s =
    let age_s = age_of now last in
    (
      if leb err_s age_s && ltb 0 err_s
          then error
          else if leb warn_s age_s && ltb 0 warn_s
          then warning
          else ok,
      some age_s,
    )

-- `_normalize_never_succeeded_level`
abbrev pub normalize_never_succeeded_level : Option Text → Health
normalize_never_succeeded_level level =
    if eq_text (lower (strip (or_blank level))) (codes "error") then error else warning

abbrev pub order : Health → ℕ
order unknown = 0
order ok = 1
order warning = 2
order error = 3

abbrev pub inv : ℕ → Health
inv zero = unknown
inv (suc zero) = ok
inv (suc (suc zero)) = warning
inv (suc (suc (suc n))) = error

-- `_combine_health`
unfoldable pub combine_health : Health → Health → Health
combine_health base staleness =
    inv (if ltb (order base) (order staleness) then order staleness else order base)

-- `_mirror_base_health_from_status`
unfoldable pub mirror_base_health_from_status : Option Text → Health
unfolding norm_status
mirror_base_health_from_status status =
    let s = norm_status status in
    if eq_text s (codes "failed")
    then error
    else if eq_text s (codes "pending")
        || (eq_text s (codes "updating")
            || (eq_text s (codes "syncing") || eq_text s (codes "started")))
    then warning
    else if eq_text s (codes "finished") || eq_text s (codes "success")
    then ok
    else unknown
