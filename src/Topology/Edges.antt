-- ===== src/Topology/Edges.antt =====
-- src/adr_kit/compiler/passes/topology_resolution.py and derive_relationships.py together: what the
-- derivation makes of a topology that resolved.
use adr_architecture_kit.Base.{ℕ, String, some, List, [], true, false, ◌==◌, ◌≡◌, ok}
use adr_architecture_kit.Relationships.Documents.{Entity, TopologyRelationship, PhysicalAdr}
use adr_architecture_kit.Relationships.State.{Derivation, has_id}
use adr_architecture_kit.Relationships.Physical.{handles_of, topology_edge}
use adr_architecture_kit.Topology.{entity_type_of}

-- An entry of the handles of a resolvable topology.
abbrev IsEntry : List Entity → String × String → Type 0
IsEntry entities item =
    ((item.0 == "") ≡ false)
    × ((item.1 == "") ≡ false)
    × (entity_type_of entities item.1 ≡ some "component")

module _ (dumps : List String → String) (sha256_hex : String → String)
    (relationship_id : String → String → String → String) (entities : List Entity)
    (system_ids : List (String × String)) where
  -- The edge joins two components, and its relationship is in the derivation when its step is done.
  abbrev pub IsDerived : PhysicalAdr → TopologyRelationship → Type 0
  IsDerived adr item =
      (verb : String) × (from_comp : String) × (to_comp : String) × (item.verb ≡ some verb)
      × (entity_type_of entities from_comp ≡ some "component")
      × (entity_type_of entities to_comp ≡ some "component")
      × ((index : ℕ) (s : Derivation)
          → (next : Derivation) × (topology_edge dumps sha256_hex relationship_id entities
                system_ids adr (handles_of adr.topology_components []) index item s
              ≡ ok next)
            × (has_id (relationship_id verb from_comp to_comp) next.relationships ≡ true))
