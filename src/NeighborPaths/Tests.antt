-- ===== src/NeighborPaths/Tests.antt =====
-- src/adr_kit/compiler/backend/neighbor_paths.py: runs, and the theorems at concrete inputs.
use mathlib.Core.List.{Memᴰ}
use adr_architecture_kit.Base.{
  ℕ, String, Option, none, some, List, [], ◌∷◌, ◌≡◌, refl, ◌↔◌, map, item_of, IsSorted, IsDistinct,
  sort_with, insert_with,
}
use adr_architecture_kit.Relationships.State.{explicit, empty}
use adr_architecture_kit.Compiler.{IrRelationship, values, add_if_absent, get}
use adr_architecture_kit.NeighborPaths.{
  structural_distance, search, bridges, bridge, add_to, set_of, zeros, expand, neighbors, offer_all,
  offer, distance_of,
}
use adr_architecture_kit.NeighborPaths.Rounds.{IsDistance}
use adr_architecture_kit.NeighborPaths.Shortest.{structural_distance-IsDistance}
use adr_architecture_kit.NeighborPaths.Selection.{
  NeighborPath, select_neighbor_paths, peer_of, candidate_paths, path_le, first_of_each,
  declarations, owned_by, candidates, from_end, far_and_peers, paths_to, path_of, nearby,
  min_or_zero, min_of, is_owner, peers_of, owning_adr, is_adr,
}
use adr_architecture_kit.NeighborPaths.First.{HasLeast}
use adr_architecture_kit.NeighborPaths.Nearest.{IsNeighborPath, select_neighbor_paths-AreNearest}

abbrev joins : String → String → String → IrRelationship
joins type from to = record {
  relationship_type = type;
  from_entity_id = from;
  to_entity_id = to;
  canonical_source_ref = from;
  provenance_classification = explicit;
  evidence = [];
  confidence = 100;
  metadata = empty;
  relationship_id = "";
  assertion_id = "";
  source_pointer = none;
}

-- Two ADRs declare a component each, the second one also a part of its component.
abbrev corpus : List IrRelationship
corpus =
    joins "declared_in" "COMP-1" "ADR-1"
    ∷ joins "declared_in" "COMP-2" "ADR-2"
    ∷ joins "composed_of" "COMP-2" "PART-1"
    ∷ joins "depends_on" "COMP-1" "COMP-2"
    ∷ joins "calls" "ADR-1" "PART-1"
    ∷ []

abbrev kinds : List (String × String)
kinds = ("ADR-1", "adr") ∷ ("ADR-2", "adr") ∷ []

abbrev same : List String → List String
same xs = xs

distances :
    structural_distance same corpus ("ADR-2" ∷ [])
    ≡ some (("ADR-2", 0) ∷ ("COMP-2", 1) ∷ ("PART-1", 2) ∷ [])
unfolding structural_distance search bridges bridge add_to set_of zeros expand neighbors offer_all
    offer distance_of
distances = refl

structural_distance-IsDistance_example :
    (dist : List (String × ℕ)) × (structural_distance same corpus ("ADR-2" ∷ []) ≡ some dist)
    × ((v : String) (n : ℕ) → (item_of v dist ≡ some n) ↔ IsDistance corpus ("ADR-2" ∷ []) v n)
structural_distance-IsDistance_example =
    structural_distance-IsDistance same (λ xs x. refl) corpus ("ADR-2" ∷ [])

abbrev paths_of : Option (List NeighborPath) → List NeighborPath
paths_of none = []
paths_of (some paths) = paths

-- The dependency leads to a node of the second ADR; the part has no owner.
selected : map peer_of (paths_of (select_neighbor_paths same "ADR-1" corpus kinds)) ≡ "ADR-2" ∷ []
unfolding select_neighbor_paths candidate_paths path_le first_of_each sort_with insert_with values
    add_if_absent get declarations owned_by structural_distance candidates from_end far_and_peers
    paths_to path_of nearby min_or_zero min_of is_owner peers_of owning_adr is_adr distance_of
    search bridges bridge add_to set_of zeros expand neighbors offer_all offer
selected = refl

select_neighbor_paths-AreNearest_example :
    (paths : List NeighborPath) × (select_neighbor_paths same "ADR-1" corpus kinds ≡ some paths)
    × IsSorted peer_of paths
    × IsDistinct peer_of paths
    × ((p : NeighborPath) → Memᴰ p paths → IsNeighborPath "ADR-1" corpus kinds p)
    × ((p : NeighborPath) → IsNeighborPath "ADR-1" corpus kinds p → HasLeast paths p)
select_neighbor_paths-AreNearest_example =
    select_neighbor_paths-AreNearest same (λ xs x. refl) "ADR-1" corpus kinds
