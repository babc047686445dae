-- ===== src/Topology/Tests.antt =====
-- The resolution and the check of topologies at concrete documents.
use adr_architecture_kit.Base.{String, none, some, List, [], ◌∷◌, false, ◌≡◌, ◌↔◌, ok, All, filter}
use adr_architecture_kit.Relationships.Documents.{
  Entity, absent, physical_system, physical_component, PhysicalAdr,
}
use adr_architecture_kit.Relationships.State.{empty, explicit}
use adr_architecture_kit.Compiler.{IrEntity, IrRelationship, entity_id, values}
use adr_architecture_kit.Topology.{HandleMaps, has_topology, resolve_topology_handles}
use adr_architecture_kit.Topology.Resolution.{
  IsResolvable, handle_maps, resolve_topology_handles-IsResolvable,
}
use adr_architecture_kit.Topology.Semantics.{is_topo, validate_ir_topology_semantics}
use adr_architecture_kit.Topology.Semantics.Members.{AreClaimed}
use adr_architecture_kit.Topology.Semantics.Soundness.{
  IsSoundRelationship, validate_ir_topology_semantics-IsSound,
}

abbrev component_uuid : String
component_uuid = "019fee89-e617-7b55-931f-d0126c67c176"

abbrev sample_entities : List Entity
sample_entities =
    record { id = component_uuid; entity_type = "component"; canonical_source_ref = "ADR-PC-0001" }
    ∷ []

abbrev sample_physical : PhysicalAdr
sample_physical = record {
  id = "ADR-PS-0001";
  adr_type = physical_system;
  implements_logical = [];
  supersedes = [];
  superseded_by = absent;
  component_specifications = [];
  implements_system = [];
  implementation_decisions = [];
  system_id = some "SYS-0001";
  topology_components = record { id = some "TOPO-0001"; component_ref = some component_uuid } ∷ [];
  topology_relationships =
      record {
        from_handle = some "TOPO-0001";
        to_handle = some "TOPO-0001";
        verb = some "calls";
        protocol = none;
        description = none;
      }
      ∷ [];
  references_components = [];
}

abbrev sample_component : PhysicalAdr
sample_component = record sample_physical {
  id = "ADR-PC-0001";
  adr_type = physical_component;
  implements_system = "ADR-PS-0001" ∷ [];
  component_specifications =
      record {
        component_id = none;
        id = component_uuid;
        interfaces = [];
        implements_capabilities = [];
        dependencies = [];
      }
      ∷ [];
  system_id = none;
  topology_components = [];
  topology_relationships = [];
}

abbrev sample_adrs : List PhysicalAdr
sample_adrs = sample_physical ∷ sample_component ∷ []

abbrev sample_maps : HandleMaps
sample_maps = ("ADR-PS-0001", ("TOPO-0001", component_uuid) ∷ []) ∷ []

resolve_topology_handles-IsResolvable_example :
    (resolve_topology_handles sample_adrs sample_entities "2.2" ≡ ok sample_maps) ↔ (
      All (IsResolvable sample_entities) (filter has_topology sample_adrs)
      × (handle_maps [] sample_adrs ≡ sample_maps))
resolve_topology_handles-IsResolvable_example =
    resolve_topology_handles-IsResolvable sample_adrs sample_entities sample_maps

-- json.dumps and hashlib's sha256.
abbrev same : String → String
same text = text

abbrev sample_graph : List IrEntity
sample_graph =
    record {
      id = component_uuid;
      entity_type = "component";
      canonical_source = record {
        source_type = "physical_component_adr";
        source_ref = "ADR-PC-0001";
        artifact_path = "adrs/physical-component/ADR-PC-0001.yaml";
      };
      source_refs = [];
    }
    ∷ []

abbrev sample_call : IrRelationship
sample_call = record {
  relationship_type = "calls";
  from_entity_id = component_uuid;
  to_entity_id = component_uuid;
  canonical_source_ref = "ADR-PS-0001";
  provenance_classification = explicit;
  evidence = [];
  confidence = 100;
  metadata = empty;
  relationship_id = "";
  assertion_id = "";
  source_pointer = none;
}

validate_ir_topology_semantics-IsSound_example :
    (validate_ir_topology_semantics sample_graph (sample_call ∷ []) sample_adrs ≡ ok tt) ↔ (
      All (λ entity. is_topo entity.id ≡ false) (values entity_id sample_graph)
      × All (IsSoundRelationship sample_graph) (sample_call ∷ [])
      × AreClaimed sample_adrs)
validate_ir_topology_semantics-IsSound_example =
    validate_ir_topology_semantics-IsSound sample_graph (sample_call ∷ []) sample_adrs
