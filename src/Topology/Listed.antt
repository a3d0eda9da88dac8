-- ===== src/Topology/Listed.antt =====
-- app/api/topology.py: a link tells of the mirrors that the drilldown lists for it.
use mathlib.Core.Path.{subst}
use mirror_maestro.Common.{
  ℕ, ◌+◌, Bool, true, false, ◌&&◌, Option, none, some, List, [], ◌∷◌, length, any, ◌==◌, ◌≡◌, refl,
  ◌∙◌, ap, inl, inr, Bool-cases, if◌then◌else◌, arith,
}
use mirror_maestro.Text.{eq_text}
use mirror_maestro.Tables.{Mirror, Pair}
use mirror_maestro.Topology.{Health, norm_dir, combine_health}
use mirror_maestro.Topology.Aggregate.{
  Edge, no_mirrors, Key, edge_at, pair_of, aggregate, link_of, filter, joins, goes, link_mirrors,
}
use mirror_maestro.Topology.Links.{
  never_succeeded, health_of, or_new, in_key, Counts, aggregate-Counts, unknown_combine,
}
use mirror_maestro.Topology.Counts.{worst}

-- The ids of the pairs are distinct.
abbrev pub IdsDistinct : List Pair → Type 0
IdsDistinct [] = Unit
IdsDistinct (p ∷ ps) = (any (λ q. q.id == p.id) ps ≡ false) × IdsDistinct ps

pair_of-none :
    (q : Pair → Bool) (ps : List Pair) (i : ℕ) (m : Mirror)
    → i ≡ m.instance_pair_id
    → any (λ r. r.id == i) ps ≡ false
    → pair_of (filter q ps) m ≡ none
unfolding pair_of
pair_of-none q [] i m e n = refl
pair_of-none q (p ∷ ps) i m e n =
    let other : p.id == m.instance_pair_id ≡ false = ground (arith, n, e) in
    let none_left : any (λ r. r.id == i) ps ≡ false = ground (arith, n) in
    let later = pair_of-none q ps i m e none_left in
    elim (Bool-cases (q p)) [ inl h ↦ rw h (rw other later) | inr h ↦ rw h later ]

abbrev narrowed : (Pair → Bool) → Option Pair → Option Pair
narrowed q none = none
narrowed q (some p) = if q p then some p else none

pair_of-filter :
    (q : Pair → Bool) (ps : List Pair) (m : Mirror)
    → IdsDistinct ps
    → pair_of (filter q ps) m ≡ narrowed q (pair_of ps m)
unfolding pair_of
pair_of-filter q [] m d = refl
pair_of-filter q (p ∷ ps) m (n, d) = elim (Bool-cases (p.id == m.instance_pair_id)) [
  | inl h ↦
      let same : p.id ≡ m.instance_pair_id = ground (arith, h) in
      let later = pair_of-none q ps p.id m same n in
      elim (Bool-cases (q p)) [ inl k ↦ rw (k, h) (rw k refl) | inr k ↦ rw (k, h) (rw k later) ]
  | inr h ↦
      let later = pair_of-filter q ps m d in
      elim (Bool-cases (q p)) [ inl k ↦ rw (k, h) later | inr k ↦ rw (k, h) later ]
]

and_assoc : (a b c : Bool) → (a && b) && c ≡ a && (b && c)
and_assoc a b c = ground arith

goes_if :
    (k : Key) (p : Pair) (b : Bool)
    → goes k (if b then some p else none)
      ≡ b && eq_text (norm_dir (some p.mirror_direction)) k.direction
goes_if k p true = refl
goes_if k p false = refl

goes-in_key : (k : Key) (o : Option Pair) → goes k (narrowed (joins k) o) ≡ in_key k o
goes-in_key k none = refl
goes-in_key k (some p) =
    goes_if k p (joins k p)
    ∙ and_assoc (p.source_instance_id == k.source) (p.target_instance_id == k.target)
        (eq_text (norm_dir (some p.mirror_direction)) k.direction)

filter_same :
    {A : Type 0} (f g : A → Bool) (xs : List A) → ((x : A) → f x ≡ g x) → filter f xs ≡ filter g xs
filter_same f g [] e = refl
filter_same f g (x ∷ xs) e = rw (e x, filter_same f g xs e) refl

link_mirrors_lem :
    (ps : List Pair) (k : Key) (ms : List Mirror)
    → IdsDistinct ps
    → link_mirrors ps k ms ≡ filter (λ m. in_key k (pair_of ps m)) ms
unfolding link_mirrors
link_mirrors_lem ps k ms d =
    filter_same (λ m. goes k (pair_of (filter (joins k) ps) m)) (λ m. in_key k (pair_of ps m)) ms
      (λ m. ap (goes k) (pair_of-filter (joins k) ps m d) ∙ goes-in_key k (pair_of ps m))

-- If the ids of the pairs are distinct and a link is counted from all mirrors: it counts as many
-- mirrors as the drilldown lists for it, the enabled and the disabled ones add up to them, it counts
-- those that have never succeeded, and its health is the worst of the mirrors' base healths,
-- combined with its staleness.
pub link_tells_mirrors :
    (ps : List Pair) (ms : List Mirror) (k : Key) (e : Edge) (now warn_s err_s : ℕ)
    (never_level : Health)
    → IdsDistinct ps
    → edge_at k (aggregate ps ms []) ≡ some e
    → let link = link_of now warn_s err_s never_level (k, e) in
      let listed = link_mirrors ps k ms in
      (link.mirror_count ≡ length listed)
      × (link.enabled_count + link.disabled_count ≡ link.mirror_count)
      × (link.never_succeeded_count ≡ never_succeeded listed)
      × (link.health ≡ combine_health (worst listed) link.staleness)
unfolding link_of edge_at
link_tells_mirrors ps ms k e now warn_s err_s never_level d found =
    let listed = link_mirrors_lem ps k ms d in
    let c =
      subst (λ x. Counts (filter (λ m. in_key k (pair_of ps m)) ms) no_mirrors (or_new x)) found
        (aggregate-Counts ps k ms []) in
    let total : e.mirror_count ≡ length (link_mirrors ps k ms) =
      rw listed (omega (arith, c.total)) in
    let split : e.enabled + e.disabled ≡ e.mirror_count = omega (arith, c.split, c.total) in
    let never : e.never_succeeded_count ≡ never_succeeded (link_mirrors ps k ms) =
      rw listed (omega (arith, c.never)) in
    let staleness = (link_of now warn_s err_s never_level (k, e)).staleness in
    let health : health_of e ≡ worst (link_mirrors ps k ms) =
      rw listed (c.health ∙ unknown_combine (worst (filter (λ m. in_key k (pair_of ps m)) ms))) in
    (total, split, never, ap (λ h. combine_health h staleness) health)
