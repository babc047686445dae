-- ===== src/NeighborPaths.antt =====
-- src/adr_kit/compiler/backend/neighbor_paths.py: the distances over structural bridges. The
-- relationships are those of the compiler's graph.
mod Tests
pub mod Hops
pub mod Rounds
pub mod Selection
pub mod Nearby
pub mod Peers
pub mod Candidates
pub mod First
pub mod Nearest
pub mod Fuel
pub mod Shortest
use adr_architecture_kit.Base.{
  ℕ, zero, suc, ◌+◌, ◌*◌, String, Option, none, some, List, [], ◌∷◌, ◌++◌, Bool, true, false, ◌==◌,
  if◌then◌else◌, item_of, put, length,
}
use adr_architecture_kit.Compiler.{IrRelationship}

-- d.get(key, set()) of a dictionary of sets
unfoldable pub set_of : String → List (String × List String) → List String
set_of key sets = elim (item_of key sets) [ none ↦ [] | some elements ↦ elements ]

-- d[key].add(value) of a defaultdict of sets
unfoldable pub add_to : String → String → List (String × List String) → List (String × List String)
unfolding set_of
add_to key value sets = put key (value ∷ set_of key sets) sets

pub record Bridges : Type 0 where
  pub composed : List (String × List String)
  pub local : List (String × List String)

-- The body of the loop over the relationships.
unfoldable pub bridge : IrRelationship → Bridges → Bridges
unfolding add_to
bridge rel b =
    if rel.relationship_type == "composed_of"
    then record b { composed = add_to rel.from_entity_id rel.to_entity_id b.composed }
    else if rel.relationship_type == "declared_in"
    then record b {
      local =
          add_to rel.to_entity_id rel.from_entity_id
            (add_to rel.from_entity_id rel.to_entity_id b.local);
    }
    else b

unfoldable pub bridges : List IrRelationship → Bridges → Bridges
unfolding bridge
bridges [] b = b
bridges (rel ∷ rels) b = bridges rels (bridge rel b)

abbrev pub no_bridges : Bridges
no_bridges = record { composed = []; local = [] }

-- local.get(node, set()) | composed.get(node, set())
unfoldable pub neighbors : Bridges → String → List String
unfolding set_of
neighbors b node = set_of node b.local ++ set_of node b.composed

pub record Search : Type 0 where
  pub dist : List (String × ℕ)
  pub queue : List String

-- dist[node]; each node of the queue has a distance, so the default is never seen.
unfoldable pub distance_of : List (String × ℕ) → String → ℕ
distance_of dist node = elim (item_of node dist) [ none ↦ 0 | some n ↦ n ]

-- The body of the loop over the neighbors, from a node at the distance `n`.
unfoldable pub offer : ℕ → String → Search → Search
offer n next s = elim (item_of next s.dist) [
  | some _ ↦ s
  | none ↦ record { dist = put next (suc n) s.dist; queue = s.queue ++ (next ∷ []) }
]

unfoldable pub offer_all : ℕ → List String → Search → Search
unfolding offer
offer_all n [] s = s
offer_all n (next ∷ rest) s = offer_all n rest (offer n next s)

-- {node: 0 for node in origins}
unfoldable pub zeros : List String → List (String × ℕ) → List (String × ℕ)
zeros [] dist = dist
zeros (node ∷ nodes) dist = zeros nodes (put node 0 dist)

-- `iterate` gives the elements of the set that is given by a list, in Python's order.
module _ (iterate : List String → List String) where
  -- A round of the `while` loop, after `node` left the head of the queue; `dist[node]` does not
  -- change within it.
  unfoldable pub expand : Bridges → String → Search → Search
  unfolding neighbors distance_of offer_all
  expand b node s = offer_all (distance_of s.dist node) (iterate (neighbors b node)) s

  -- `none` when the fuel does not do
  unfoldable pub search : Bridges → ℕ → Search → Option (List (String × ℕ))
  unfolding expand
  search b zero s = elim s.queue [ [] ↦ some s.dist | _ ∷ _ ↦ none ]
  search b (suc fuel) s = elim s.queue [
    | [] ↦ some s.dist
    | node ∷ rest ↦ search b fuel (expand b node (record s { queue = rest }))
  ]

  -- Each node is in the queue once: an origin, or an end of a relationship.
  unfoldable pub structural_distance :
      List IrRelationship → List String → Option (List (String × ℕ))
  unfolding search bridges zeros
  structural_distance relationships origins =
      search (bridges relationships no_bridges)
        (length (iterate origins) + 2 * length relationships)
        (record { dist = zeros (iterate origins) []; queue = iterate origins })
