-- ===== src/Topology/Aggregate.antt =====
-- app/api/topology.py: what `get_topology` counts for each link, and what it tells of a link.
use mirror_maestro.Common.{
  ℕ, ◌+◌, Bool, true, false, not, ◌&&◌, Option, none, some, List, [], ◌∷◌, any, length, map, ltb,
  ◌==◌, if◌then◌else◌,
}
use mirror_maestro.Text.{Text, eq_text, Dict, insert}
use mirror_maestro.Tables.{Mirror, Pair}
use mirror_maestro.Topology.{
  Health, norm_dir, norm_status, get, health_from_status_counts, normalize_stale_thresholds,
  staleness_level, normalize_never_succeeded_level, combine_health, mirror_base_health_from_status,
}

-- What the mirrors of one link, or of one node, add up to.
pub record Edge : Type 0 where
  pub mirror_count : ℕ
  pub enabled : ℕ
  pub disabled : ℕ
  pub pair_ids : List ℕ
  pub status_counts : Dict ℕ
  pub last_successful_update : Option ℕ
  pub never_succeeded_count : ℕ

abbrev pub no_mirrors : Edge
no_mirrors = record {
  mirror_count = 0;
  enabled = 0;
  disabled = 0;
  pair_ids = [];
  status_counts = [];
  last_successful_update = none;
  never_succeeded_count = 0;
}

abbrev pub count_status : Text → Dict ℕ → Dict ℕ
count_status key counts = insert key (get key counts + 1) counts

abbrev pub later_of : Option ℕ → ℕ → Option ℕ
later_of none t = some t
later_of (some current) t = if ltb current t then some t else some current

abbrev pub latest : Option ℕ → Option ℕ → Option ℕ
latest current none = current
latest current (some t) = later_of current t

abbrev pub count_if : Bool → ℕ → ℕ
count_if b n = if b then n + 1 else n

abbrev pub add_id : ℕ → List ℕ → List ℕ
add_id i ids = if any (λ j. j == i) ids then ids else i ∷ ids

abbrev pub is_never : Option ℕ → Bool
is_never none = true
is_never (some t) = false

-- The body of the loop over the mirrors, for the link that the mirror belongs to.
abbrev pub add_mirror : ℕ → Mirror → Edge → Edge
add_mirror pair_id m e = record {
  mirror_count = e.mirror_count + 1;
  enabled = count_if m.enabled e.enabled;
  disabled = count_if (not m.enabled) e.disabled;
  pair_ids = add_id pair_id e.pair_ids;
  status_counts = count_status (norm_status m.last_update_status) e.status_counts;
  last_successful_update = latest e.last_successful_update m.last_successful_update;
  never_succeeded_count = count_if (is_never m.last_successful_update) e.never_succeeded_count;
}

pub record Key : Type 0 where
  pub source : ℕ
  pub target : ℕ
  pub direction : Text

abbrev pub eq_key : Key → Key → Bool
eq_key j k = j.source == k.source && (j.target == k.target && eq_text j.direction k.direction)

abbrev pub key_of : Pair → Key
key_of p = record {
  source = p.source_instance_id;
  target = p.target_instance_id;
  direction = norm_dir (some p.mirror_direction);
}

abbrev pub Edges : Type 0
Edges = List (Key × Edge)

unfoldable pub edge_at : Key → Edges → Option Edge
edge_at k [] = none
edge_at k ((j, e) ∷ es) = if eq_key j k then some e else edge_at k es

-- `agg[key]` is changed, or begun.
unfoldable pub update_edge : Key → (Edge → Edge) → Edges → Edges
update_edge k f [] = (k, f no_mirrors) ∷ []
update_edge k f ((j, e) ∷ es) = if eq_key j k then (k, f e) ∷ es else (j, e) ∷ update_edge k f es

-- `pairs_by_id.get(...)`
unfoldable pub pair_of : List Pair → Mirror → Option Pair
pair_of [] m = none
pair_of (p ∷ ps) m = if p.id == m.instance_pair_id then some p else pair_of ps m

abbrev pub add_to : Option Pair → Mirror → Edges → Edges
add_to none m es = es
add_to (some p) m es = update_edge (key_of p) (add_mirror p.id m) es

-- The loop of `get_topology` over the mirrors.
unfoldable pub aggregate : List Pair → List Mirror → Edges → Edges
unfolding update_edge pair_of
aggregate ps [] es = es
aggregate ps (m ∷ ms) es = aggregate ps ms (add_to (pair_of ps m) m es)

pub record Link : Type 0 where
  pub key : Key
  pub mirror_count : ℕ
  pub enabled_count : ℕ
  pub disabled_count : ℕ
  pub pair_count : ℕ
  pub status_counts : Dict ℕ
  pub last_successful_update : Option ℕ
  pub health : Health
  pub staleness : Health
  pub staleness_age_seconds : Option ℕ
  pub never_succeeded_count : ℕ

-- The level of a link none of whose mirrors has ever succeeded is the caller's.
abbrev pub link_staleness : ℕ → ℕ → ℕ → Health → Edge → Health × Option ℕ
link_staleness now warn_s err_s never_level e =
    if ltb 0 e.mirror_count && (e.never_succeeded_count == e.mirror_count)
    then (never_level, none)
    else staleness_level now e.last_successful_update e.mirror_count warn_s err_s

unfoldable pub link_of : ℕ → ℕ → ℕ → Health → Key × Edge → Link
unfolding health_from_status_counts combine_health
link_of now warn_s err_s never_level (k, e) =
    let (staleness, age_s) = link_staleness now warn_s err_s never_level e in
    record {
      key = k;
      mirror_count = e.mirror_count;
      enabled_count = e.enabled;
      disabled_count = e.disabled;
      pair_count = length e.pair_ids;
      status_counts = e.status_counts;
      last_successful_update = e.last_successful_update;
      health = combine_health (health_from_status_counts e.status_counts) staleness;
      staleness = staleness;
      staleness_age_seconds = age_s;
      never_succeeded_count = e.never_succeeded_count;
    }

-- The links of `get_topology`, before they are sorted for the output.
unfoldable pub topology_links :
    ℕ → Option ℕ → Option ℕ → Option Text → List Pair → List Mirror → List Link
unfolding aggregate link_of
topology_links now stale_warning stale_error never_level ps ms =
    let (warn_s, err_s) = normalize_stale_thresholds stale_warning stale_error in
    map (link_of now warn_s err_s (normalize_never_succeeded_level never_level))
      (aggregate ps ms [])

-- The base health, staleness and health of a mirror in `get_link_mirrors`.
unfoldable pub mirror_staleness : ℕ → ℕ → ℕ → Health → Mirror → Health × Option ℕ
mirror_staleness now warn_s err_s never_level m = elim m.last_successful_update [
  | none ↦ (never_level, none)
  | some t ↦ staleness_level now (some t) 1 warn_s err_s
]

unfoldable pub mirror_health : ℕ → ℕ → ℕ → Health → Mirror → Health
unfolding mirror_staleness mirror_base_health_from_status combine_health
mirror_health now warn_s err_s never_level m =
    combine_health (mirror_base_health_from_status m.last_update_status)
      (mirror_staleness now warn_s err_s never_level m).0

abbrev pub filter : {A : Type 0} → (A → Bool) → List A → List A
filter p [] = []
filter p (x ∷ xs) = let rest = filter p xs in if p x then x ∷ rest else rest

abbrev pub joins : Key → Pair → Bool
joins k p = p.source_instance_id == k.source && p.target_instance_id == k.target

abbrev pub goes : Key → Option Pair → Bool
goes k none = false
goes k (some p) = eq_text (norm_dir (some p.mirror_direction)) k.direction

-- The mirrors of `get_link_mirrors` before they are sorted and cut to a page, for a direction that
-- is normalised: all pairs, and the disabled mirrors too.
unfoldable pub link_mirrors : List Pair → Key → List Mirror → List Mirror
unfolding pair_of
link_mirrors ps k ms = filter (λ m. goes k (pair_of (filter (joins k) ps) m)) ms
