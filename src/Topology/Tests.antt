-- ===== src/Topology/Tests.antt =====
-- app/api/topology.py: the properties at concrete rows.
use mirror_maestro.Common.{◌+◌, false, some, [], ◌∷◌, List, length, ◌≡◌, refl}
use mirror_maestro.Text.{codes, eq_text, lower, strip, lstrip, rstrip, is_space, insert, lookup}
use mirror_maestro.Tables.{Mirror}
use mirror_maestro.Scheduler.Tests.{there, pair_there}
use mirror_maestro.Topology.{
  warning, error, health_from_status_counts, combine_health, norm_dir, norm_status,
}
use mirror_maestro.Topology.Aggregate.{
  Edge, Key, key_of, edge_at, update_edge, aggregate, pair_of, link_of, link_mirrors, add_mirror,
  no_mirrors,
}
use mirror_maestro.Topology.Links.{never_succeeded}
use mirror_maestro.Topology.Counts.{worst}
use mirror_maestro.Topology.Listed.{link_tells_mirrors}

-- One mirror that has failed, and one that waits.
abbrev mirrors : List Mirror
mirrors =
    record there { last_update_status = some (codes "Failed") }
    ∷ record there {
      id = 9;
      enabled = false;
      last_update_status = some (codes "pending");
      last_successful_update = some 5;
    }
    ∷ []

abbrev key : Key
key = key_of pair_there

abbrev edge : Edge
edge =
    add_mirror 1
      record there {
        id = 9;
        enabled = false;
        last_update_status = some (codes "pending");
        last_successful_update = some 5;
      }
      (add_mirror 1 record there { last_update_status = some (codes "Failed") } no_mirrors)

edge_found : edge_at key (aggregate (pair_there ∷ []) mirrors []) ≡ some edge
unfolding edge_at aggregate update_edge pair_of norm_dir eq_text lower strip lstrip rstrip is_space
edge_found = refl

has_failed : (link_of 9 1 2 warning (key, edge)).health ≡ error
unfolding link_of health_from_status_counts combine_health norm_status eq_text lower strip lstrip
    rstrip is_space insert lookup
has_failed = refl

link_tells_mirrors_example :
    let link = link_of 9 1 2 warning (key, edge) in
    let listed = link_mirrors (pair_there ∷ []) key mirrors in
    (link.mirror_count ≡ length listed)
    × (link.enabled_count + link.disabled_count ≡ link.mirror_count)
    × (link.never_succeeded_count ≡ never_succeeded listed)
    × (link.health ≡ combine_health (worst listed) link.staleness)
link_tells_mirrors_example =
    link_tells_mirrors (pair_there ∷ []) mirrors key edge 9 1 2 warning (refl, tt) edge_found
