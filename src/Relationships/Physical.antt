-- ===== src/Relationships/Physical.antt =====
-- src/adr_kit/compiler/passes/derive_relationships.py: the edges of one physical ADR.
use text.Mathlib.Text.{starts_with}
use adr_architecture_kit.Base.{
  ℕ, String, Option, none, some, List, [], ◌∷◌, if◌then◌else◌, ◌==◌, Result, ok, raise, format,
  decimal, remove_all,
}
use adr_architecture_kit.Relationships.Documents.{
  Entity, SupersededBy, single, ComponentSpecification, TopologyComponent, TopologyRelationship,
  AdrType, physical, physical_system, physical_component, PhysicalAdr,
}
use adr_architecture_kit.Relationships.State.{
  DerivationError, Metadata, empty, edge_notes, missing_system, Step, skip, ◌then◌, when, each,
  each_from, given, for_some, known, edge, derived_edge, add_relationship, add_gap,
}
use adr_architecture_kit.Relationships.Logical.{
  fragment, reference_gap, explicit_edge, supersedes, superseded_by_one,
}

abbrev pub lookup : String → List (String × String) → Option String
lookup key [] = none
lookup key (item ∷ items) = if item.0 == key then some item.1 else lookup key items

-- A text that Python takes for true.
abbrev pub truthy : Option String → Option String
truthy none = none
truthy (some text) = if text == "" then none else some text

-- field_get(component, "component_id") or field_get(component, "id")
unfoldable pub component_id_of : ComponentSpecification → String
component_id_of component = elim (truthy component.component_id) [
  | some id ↦ id
  | none ↦ component.id
]

unfoldable pub resolve_system : List (String × String) → String → String
resolve_system system_ids system_id = elim (lookup system_id system_ids) [
  | some resolved ↦ resolved
  | none ↦
      if starts_with system_id "ADR-PS-"
      then format ("SYS-" ∷ remove_all "ADR-PS-" 6 system_id ∷ [])
      else system_id
]

abbrev pub notes : Option String → Option String → Metadata
notes none none = empty
notes protocol description = edge_notes protocol description

-- The reference of a component whose handle and reference are both given.
unfoldable pub reference_of : TopologyComponent → Option String
reference_of component = elim (truthy component.id) [
  | none ↦ none
  | some handle ↦ truthy component.component_ref
]

abbrev pub with_handle :
    Option String → Option String → List (String × String) → List (String × String)
with_handle (some handle) (some component_ref) handles = (handle, component_ref) ∷ handles
with_handle handle component_ref handles = handles

-- `handle_to_comp` after the components, the last of a handle first.
unfoldable pub handles_of : List TopologyComponent → List (String × String) → List (String × String)
unfolding reference_of
handles_of [] handles = handles
handles_of (component ∷ components) handles =
    handles_of components (with_handle component.id (reference_of component) handles)

module _ (dumps : List String → String) (sha256_hex : String → String)
    (relationship_id : String → String → String → String) (entities : List Entity)
    (system_ids : List (String × String)) where
  -- A derived edge of confidence 0.8.
  unfoldable pub weak_edge : String → String → String → String → Step
  weak_edge from_id to_id source_ref owner = when (known entities to_id) (
      add_relationship dumps sha256_hex relationship_id entities
        record (derived_edge "related_to" from_id to_id source_ref (owner ∷ [])) {
          confidence = 80;
        })

  unfoldable pub implements_edge : PhysicalAdr → String → Step
  implements_edge adr logical_id = when (known entities logical_id) (
      explicit_edge dumps sha256_hex relationship_id entities "implements_logical" adr.id logical_id
        adr.id (adr.id ∷ []))

  unfoldable pub physical_superseded_by : String → SupersededBy → Step
  physical_superseded_by adr_id (single target) =
      superseded_by_one dumps sha256_hex relationship_id entities adr_id target
  physical_superseded_by adr_id _ = skip

  unfoldable pub interface_edge : PhysicalAdr → String → String → Step
  interface_edge adr component_id interface_id =
      explicit_edge dumps sha256_hex relationship_id entities "provides_interface" component_id
        interface_id (fragment adr.id interface_id) (adr.id ∷ [])

  unfoldable pub implemented_edge : PhysicalAdr → String → String → Step
  implemented_edge adr component_id capability_id =
      if known entities capability_id
      then explicit_edge dumps sha256_hex relationship_id entities "implemented_by" capability_id
          component_id (fragment adr.id component_id) (adr.id ∷ [])
      else add_gap (
          reference_gap "GAP-MISSING-CAP-" "unresolved_reference" adr.id component_id capability_id
            "implemented_by")

  unfoldable pub system_edge : PhysicalAdr → String → String → Step
  unfolding resolve_system
  system_edge adr component_id system_id =
      if known entities (resolve_system system_ids system_id)
      then explicit_edge dumps sha256_hex relationship_id entities "embodied_in" component_id
          (resolve_system system_ids system_id) (fragment adr.id component_id) (adr.id ∷ [])
      else add_gap (
          reference_gap "GAP-MISSING-SYS-" "component_without_system" adr.id component_id system_id
            "embodied_in")

  unfoldable pub component_edges : PhysicalAdr → String → ComponentSpecification → Step
  component_edges adr component_id component =
      each (interface_edge adr component_id) component.interfaces
      then each (implemented_edge adr component_id) component.implements_capabilities
      then each (system_edge adr component_id) adr.implements_system
      then each (λ dep. weak_edge component_id dep (fragment adr.id component_id) adr.id)
          component.dependencies

  unfoldable pub implementation_edge : PhysicalAdr → String → String → Step
  implementation_edge adr decision_id invariant_id = when (known entities invariant_id) (
      explicit_edge dumps sha256_hex relationship_id entities "enforces" decision_id invariant_id
        (fragment adr.id decision_id) (adr.id ∷ []))

  unfoldable pub component_adr_edges : PhysicalAdr → Step
  unfolding component_id_of
  component_adr_edges adr =
      each (λ component. component_edges adr (component_id_of component) component)
        adr.component_specifications
      then each
          (λ decision. each (implementation_edge adr decision.id) decision.implements_invariants)
          adr.implementation_decisions

  -- The edge to the component that is referenced, or to the handle of an older document.
  unfoldable pub composed_edge : PhysicalAdr → String → ℕ → String → Option String → Step
  composed_edge adr system_id index topology_id (some component_ref) =
      add_relationship dumps sha256_hex relationship_id entities
        record (edge "composed_of" system_id component_ref (fragment adr.id topology_id)
          (adr.id ∷ [])) {
            source_pointer = some (format ("/component_topology/components/" ∷ decimal index ∷ []));
          }
  composed_edge adr system_id index topology_id none =
      explicit_edge dumps sha256_hex relationship_id entities "composed_of" system_id topology_id
        (fragment adr.id topology_id) (adr.id ∷ [])

  unfoldable pub composed_of : PhysicalAdr → String → ℕ → TopologyComponent → Step
  unfolding reference_of
  composed_of adr system_id index component =
      for_some component.id
        λ topology_id. composed_edge adr system_id index topology_id (reference_of component)

  -- The edge between two components, by their handles and their ids.
  unfoldable pub verb_edge :
      PhysicalAdr → ℕ → TopologyRelationship → String → String → String → String → String → Step
  verb_edge adr index item verb from_handle to_handle from_comp to_comp =
      add_relationship dumps sha256_hex relationship_id entities
        record (edge verb from_comp to_comp
          (format (adr.id ∷ "#" ∷ from_handle ∷ "->" ∷ to_handle ∷ [])) (adr.id ∷ [])) {
            source_pointer =
                some (format ("/component_topology/relationships/" ∷ decimal index ∷ []));
            metadata = notes (truthy item.protocol) (truthy item.description);
          }

  unfoldable pub topology_edge :
      PhysicalAdr → List (String × String) → ℕ → TopologyRelationship → Step
  topology_edge adr handles index item = for_some (truthy item.from_handle) λ from_handle.
      for_some (truthy item.to_handle) λ to_handle. for_some (truthy item.verb) λ verb.
        for_some (truthy (lookup from_handle handles)) λ from_comp.
          for_some (truthy (lookup to_handle handles))
            λ to_comp. verb_edge adr index item verb from_handle to_handle from_comp to_comp

  unfoldable pub topology_edges : PhysicalAdr → String → Step
  unfolding handles_of
  topology_edges adr system_id =
      each_from (composed_of adr system_id) 0 adr.topology_components
      then each_from (topology_edge adr (handles_of adr.topology_components [])) 0
          adr.topology_relationships
      then each (λ component_adr. weak_edge adr.id component_adr adr.id adr.id)
          adr.references_components

  -- system_ids[adr.id]
  unfoldable pub system_of : PhysicalAdr → Result DerivationError String
  system_of adr = elim (lookup adr.id system_ids) [
    | none ↦ raise (missing_system adr.id)
    | some system_id ↦ ok system_id
  ]

  unfoldable pub system_adr_edges : PhysicalAdr → Step
  unfolding system_of
  system_adr_edges adr = given (system_of adr) (topology_edges adr)

  unfoldable pub typed_edges : PhysicalAdr → AdrType → Step
  typed_edges adr physical = skip
  typed_edges adr physical_component = component_adr_edges adr
  typed_edges adr physical_system = system_adr_edges adr

  unfoldable pub physical_edges : PhysicalAdr → Step
  physical_edges adr =
      each (implements_edge adr) adr.implements_logical
      then each (supersedes dumps sha256_hex relationship_id entities adr.id adr.id adr.id)
          adr.supersedes
      then physical_superseded_by adr.id adr.superseded_by
      then typed_edges adr adr.adr_type
