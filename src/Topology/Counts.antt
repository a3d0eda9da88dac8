-- ===== src/Topology/Counts.antt =====
-- app/api/topology.py: the health that status counts give is the worst of the statuses counted.
use mirror_maestro.Common.{
  ℕ, ◌+◌, Bool, true, false, ◌||◌, Option, some, List, [], ◌∷◌, ltb, ◌≡◌, refl, sym, ◌∙◌, ap,
  if◌then◌else◌, arith,
}
use mirror_maestro.Text.{Text, codes, eq_text, Dict, lookup, lookup-insert}
use mirror_maestro.Tables.{Mirror}
use mirror_maestro.Topology.{
  Health, unknown, ok, warning, error, norm_status, or_zero, get, health_from_status_counts,
  combine_health, mirror_base_health_from_status,
}
use mirror_maestro.Topology.Aggregate.{count_status}

-- Whether a status is counted.
abbrev counted : Text → Dict ℕ → Bool
counted key d = ltb 0 (get key d)

counted_if :
    (b : Bool) (n : ℕ) (o : Option ℕ)
    → ltb 0 (or_zero (if b then some (n + 1) else o)) ≡ b || ltb 0 (or_zero o)
counted_if true n o = ground arith
counted_if false n o = refl

counted-count_status :
    (key status : Text) (d : Dict ℕ)
    → counted key (count_status status d) ≡ eq_text status key || counted key d
counted-count_status key status d =
    ap (λ (o : Option ℕ). ltb 0 (or_zero o)) (lookup-insert status key (get status d + 1) d)
    ∙ counted_if (eq_text status key) (get status d) (lookup key d)

abbrev grade : Bool → Bool → Bool → Health
grade failed waiting done =
    if failed then error else if waiting then warning else if done then ok else unknown

combine_grade :
    (a b c x y z : Bool)
    → combine_health (grade a b c) (grade x y z) ≡ grade (a || x) (b || y) (c || z)
unfolding combine_health
combine_grade a b c x y z = ground arith

health_grade :
    (d : Dict ℕ)
    → health_from_status_counts d
      ≡ grade
          (counted (codes "failed") d)
          (counted (codes "updating") d
            || (counted (codes "pending") d
                || (counted (codes "syncing") d || counted (codes "started") d)))
          (counted (codes "finished") d || counted (codes "success") d)
unfolding health_from_status_counts
health_grade [] = unfold lookup in refl
health_grade (e ∷ d) = refl

abbrev pub base_grade : Text → Health
base_grade s =
    grade (eq_text s (codes "failed"))
      (eq_text s (codes "pending")
        || (eq_text s (codes "updating")
            || (eq_text s (codes "syncing") || eq_text s (codes "started"))))
      (eq_text s (codes "finished") || eq_text s (codes "success"))

shuffle :
    (a b c d x y z w : Bool)
    → (a || x) || ((b || y) || ((c || z) || (d || w)))
      ≡ (b || (a || (c || d))) || (x || (y || (z || w)))
shuffle a b c d x y z w = ground arith

pairs : (a b x y : Bool) → (a || x) || (b || y) ≡ (a || b) || (x || y)
pairs a b x y = ground arith

ap2_grade : (a : Bool) {b c x y : Bool} → b ≡ x → c ≡ y → grade a b c ≡ grade a x y
ap2_grade a p q = λ i. grade a (p i) (q i)

-- Counting one more status.
pub health-count_status :
    (s : Text) (d : Dict ℕ)
    → health_from_status_counts (count_status s d)
      ≡ combine_health (base_grade s) (health_from_status_counts d)
health-count_status s d =
    let c = λ (k : Text). counted-count_status k s d in
    let eq = λ (k : Text). eq_text s k in
    let has = λ (k : Text). counted k d in
    let waiting =
      shuffle (eq (codes "updating")) (eq (codes "pending")) (eq (codes "syncing"))
        (eq (codes "started")) (has (codes "updating")) (has (codes "pending"))
        (has (codes "syncing")) (has (codes "started")) in
    let done =
      pairs (eq (codes "finished")) (eq (codes "success")) (has (codes "finished"))
        (has (codes "success")) in
    health_grade (count_status s d)
    ∙ (λ i.
        grade (c (codes "failed") i)
          (c (codes "updating") i
            || (c (codes "pending") i || (c (codes "syncing") i || c (codes "started") i)))
          (c (codes "finished") i || c (codes "success") i))
    ∙ ap2_grade (eq (codes "failed") || has (codes "failed")) waiting done
    ∙ sym (combine_grade _ _ _ _ _ _)
    ∙ ap (combine_health (base_grade s)) (sym (health_grade d))

-- The worst base health of some mirrors.
abbrev pub worst : List Mirror → Health
worst [] = unknown
worst (m ∷ ms) = combine_health (mirror_base_health_from_status m.last_update_status) (worst ms)

pub mirror_base_grade :
    (status : Option Text) → mirror_base_health_from_status status ≡ base_grade (norm_status status)
unfolding mirror_base_health_from_status
mirror_base_grade status = refl

pub combine_left_comm :
    (x y z : Health) → combine_health x (combine_health y z) ≡ combine_health y (combine_health x z)
unfolding combine_health
combine_left_comm x y z = ground arith
