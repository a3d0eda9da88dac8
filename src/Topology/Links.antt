-- ===== src/Topology/Links.antt =====
-- app/api/topology.py: what the loop over the mirrors adds to the edge of a key.
use mathlib.Core.Path.{subst}
use mirror_maestro.Common.{
  ℕ, suc, ◌+◌, Bool, true, false, not, Option, none, some, List, [], ◌∷◌, length, ◌==◌, ◌≡◌, refl,
  sym, ◌∙◌, ap, inl, inr, Bool-cases, if◌then◌else◌, arith,
}
use mirror_maestro.Text.{eq_text, eq_text_iff, eq_text_self}
use mirror_maestro.Tables.{Mirror, Pair}
use mirror_maestro.Topology.{
  Health, unknown, norm_status, health_from_status_counts, combine_health,
}
use mirror_maestro.Topology.Aggregate.{
  Edge, no_mirrors, count_if, is_never, add_mirror, Key, eq_key, key_of, Edges, edge_at,
  update_edge, pair_of, add_to, aggregate, filter,
}
use mirror_maestro.Topology.Counts.{
  worst, base_grade, health-count_status, mirror_base_grade, combine_left_comm,
}

abbrev pub never_succeeded : List Mirror → ℕ
never_succeeded [] = 0
never_succeeded (m ∷ ms) = count_if (is_never m.last_successful_update) (never_succeeded ms)

abbrev pub health_of : Edge → Health
health_of e = health_from_status_counts e.status_counts

abbrev pub or_new : Option Edge → Edge
or_new none = no_mirrors
or_new (some e) = e

-- An edge counts the mirrors besides those of an edge before.
pub record Counts (ms : List Mirror) (before e : Edge) : Type 0 where
  pub total : e.mirror_count ≡ length ms + before.mirror_count
  pub split : e.enabled + e.disabled ≡ length ms + (before.enabled + before.disabled)
  pub never : e.never_succeeded_count ≡ never_succeeded ms + before.never_succeeded_count
  pub health : health_of e ≡ combine_health (worst ms) (health_of before)

eq_refl : (n : ℕ) → n == n ≡ true
eq_refl n = ground arith

combine_unknown : (h : Health) → combine_health unknown h ≡ h
unfolding combine_health
combine_unknown h = ground arith

pub unknown_combine : (h : Health) → combine_health h (health_of no_mirrors) ≡ h
unfolding combine_health health_from_status_counts
unknown_combine h = ground arith

Counts-none : (e : Edge) → Counts [] e e
Counts-none e = record {
  total = omega arith;
  split = omega arith;
  never = omega arith;
  health = sym (combine_unknown (health_of e));
}

split_step : (b : Bool) (x y : ℕ) → count_if b x + count_if (not b) y ≡ suc (x + y)
split_step b x y = ground arith

never_step : (b : Bool) (x y : ℕ) → x + count_if b y ≡ count_if b x + y
never_step b x y = ground arith

combine_assoc :
    (x y z : Health) → combine_health (combine_health x y) z ≡ combine_health x (combine_health y z)
unfolding combine_health
combine_assoc x y z = ground arith

Counts-more :
    (i : ℕ) (m : Mirror) (ms : List Mirror) (before e : Edge)
    → Counts ms (add_mirror i m before) e
    → Counts (m ∷ ms) before e
Counts-more i m ms before e c =
    let b = is_never m.last_successful_update in
    record {
      total = omega (arith, c.total);
      split = omega (arith, c.split, split_step m.enabled before.enabled before.disabled);
      never = c.never ∙ never_step b (never_succeeded ms) before.never_succeeded_count;
      health =
          c.health
          ∙ ap (combine_health (worst ms))
              (health-count_status (norm_status m.last_update_status) before.status_counts)
          ∙ combine_left_comm (worst ms) (base_grade (norm_status m.last_update_status))
              (health_of before)
          ∙ sym (
              combine_assoc (base_grade (norm_status m.last_update_status)) (worst ms)
                (health_of before))
          ∙ ap (λ h. combine_health (combine_health h (worst ms)) (health_of before))
              (sym (mirror_base_grade m.last_update_status));
    }

eq_key_self : (k : Key) → eq_key k k ≡ true
eq_key_self k = rw (eq_refl k.source, eq_refl k.target, eq_text_self k.direction) refl

eq_key_sound : (j k : Key) → eq_key j k ≡ true → j ≡ k
eq_key_sound j k h =
    let s : j.source ≡ k.source = ground (arith, h) in
    let t : j.target ≡ k.target = ground (arith, h) in
    let d : eq_text j.direction k.direction ≡ true = ground (arith, h) in
    let d' = (eq_text_iff j.direction k.direction).0 d in
    λ i. record { source = s i; target = t i; direction = d' i }

edge_at-update_edge :
    (k : Key) (f : Edge → Edge) (es : Edges)
    → edge_at k (update_edge k f es) ≡ some (f (or_new (edge_at k es)))
unfolding edge_at update_edge
edge_at-update_edge k f [] = rw (eq_key_self k) refl
edge_at-update_edge k f ((i, e) ∷ es) = elim (Bool-cases (eq_key i k)) [
  | inl h ↦ rw h (rw (eq_key_self k) refl)
  | inr h ↦ rw h (rw h (edge_at-update_edge k f es))
]

edge_at-update_edge_other :
    (j k : Key) (f : Edge → Edge) (es : Edges)
    → eq_key j k ≡ false
    → edge_at k (update_edge j f es) ≡ edge_at k es
unfolding edge_at update_edge
edge_at-update_edge_other j k f [] n = rw n refl
edge_at-update_edge_other j k f ((i, e) ∷ es) n = elim (Bool-cases (eq_key i j)) [
  | inl h ↦ let same = eq_key_sound i j h in rw h (rw (n, same, n) refl)
  | inr h ↦ rw h (ap (λ r. if eq_key i k then some e else r) (edge_at-update_edge_other j k f es n))
]

abbrev pub in_key : Key → Option Pair → Bool
in_key k none = false
in_key k (some p) = eq_key (key_of p) k

abbrev consed : Bool → Mirror → List Mirror → List Mirror
consed b m ms = if b then m ∷ ms else ms

Counts-added :
    (k : Key) (m : Mirror) (es : Edges) (ms : List Mirror) (e : Edge) (o : Option Pair)
    → Counts ms (or_new (edge_at k (add_to o m es))) e
    → Counts (consed (in_key k o) m ms) (or_new (edge_at k es)) e
Counts-added k m es ms e none c = c
Counts-added k m es ms e (some p) c = elim (Bool-cases (eq_key (key_of p) k)) [
  | inl h ↦
      let key = sym (eq_key_sound (key_of p) k h) in
      let f = add_mirror p.id m in
      let new =
        subst (λ j. edge_at k (update_edge j f es) ≡ some (f (or_new (edge_at k es)))) key
          (edge_at-update_edge k f es) in
      rw h (
        Counts-more p.id m ms (or_new (edge_at k es)) e (subst (λ x. Counts ms (or_new x) e) new c))
  | inr h ↦ rw h (
      subst (λ x. Counts ms (or_new x) e)
        (edge_at-update_edge_other (key_of p) k (add_mirror p.id m) es h) c)
]

pub aggregate-Counts :
    (ps : List Pair) (k : Key) (ms : List Mirror) (es : Edges)
    → Counts
        (filter (λ m. in_key k (pair_of ps m)) ms)
        (or_new (edge_at k es))
        (or_new (edge_at k (aggregate ps ms es)))
unfolding aggregate
aggregate-Counts ps k [] es = Counts-none (or_new (edge_at k es))
aggregate-Counts ps k (m ∷ ms) es =
    let es' = add_to (pair_of ps m) m es in
    Counts-added k m es (filter (λ m. in_key k (pair_of ps m)) ms)
      (or_new (edge_at k (aggregate ps ms es'))) (pair_of ps m) (aggregate-Counts ps k ms es')
