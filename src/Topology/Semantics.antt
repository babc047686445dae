-- ===== src/Topology/Semantics.antt =====
-- src/adr_kit/compiler/passes/topology_semantic_validation.py: the check of the derived topology.
pub mod Members
mod Tables
mod Claims
pub mod Soundness
use text.Mathlib.Text.{starts_with}
use adr_architecture_kit.Base.{
  String, Option, none, some, List, [], ◌∷◌, map, Bool, true, false, not, ◌&&◌, ◌||◌, ◌==◌,
  if◌then◌else◌, Result, ok, raise, ◌>>=◌, ◌>>◌, contains, item_of, put,
}
use adr_architecture_kit.Relationships.Documents.{
  ComponentSpecification, TopologyComponent, AdrType, physical, physical_system, physical_component,
  PhysicalAdr,
}
use adr_architecture_kit.Relationships.State.{
  Classification, explicit, derived, target_scope, allows_missing,
}
use adr_architecture_kit.Relationships.Physical.{truthy, component_id_of}
use adr_architecture_kit.Compiler.{IrEntity, IrRelationship, entity_id, is_some, get, values}
use adr_architecture_kit.Topology.{topology_verbs, is_text, is_empty, is_physical_system}

pub data TopologySemanticError : Type 0 where
  topo_entity : String → TopologySemanticError
  topo_endpoint : String → String → TopologySemanticError
  missing_endpoint : String → String → TopologySemanticError
  bad_composed_of : String → String → TopologySemanticError
  bad_verb_endpoints : String → TopologySemanticError
  derived_verb : String → TopologySemanticError
  inferred_consumer : TopologySemanticError
  other_system_claimed : String → String → TopologySemanticError
  no_system_claimed : String → String → TopologySemanticError

abbrev pub Check : Type 0
Check = Result TopologySemanticError (Unit {0})

abbrev pub is_topo : String → Bool
is_topo id = starts_with id "TOPO-"

abbrev pub type_in : Option IrEntity → Option String
type_in none = none
type_in (some entity) = some entity.entity_type

-- _entity_type(entities, id)
unfoldable pub type_of : List IrEntity → String → Option String
unfolding get
type_of graph id = type_in (get entity_id id graph)

unfoldable pub check_identities : List IrEntity → Check
check_identities [] = ok tt
check_identities (entity ∷ entities) =
    let rest = check_identities entities in
    if is_topo entity.id then raise (topo_entity entity.id) else rest

abbrev pub is_explicit : Classification → Bool
is_explicit explicit = true
is_explicit derived = false

-- The body of the loop; the set `composed` that it fills is not read.
unfoldable pub check_relationship : List IrEntity → IrRelationship → Check
unfolding type_of
check_relationship graph r =
    if is_topo r.from_entity_id || is_topo r.to_entity_id
    then raise (topo_endpoint r.from_entity_id r.to_entity_id)
    else if not (is_some (type_of graph r.from_entity_id))
        || not (is_some (type_of graph r.to_entity_id))
          && not (allows_missing (target_scope r.metadata))
    then raise (missing_endpoint r.from_entity_id r.to_entity_id)
    else if r.relationship_type == "composed_of"
        && (not (is_text "system" (type_of graph r.from_entity_id))
            || not (is_text "component" (type_of graph r.to_entity_id)))
    then raise (bad_composed_of r.from_entity_id r.to_entity_id)
    else if contains r.relationship_type topology_verbs
        && (not (is_text "component" (type_of graph r.from_entity_id))
            || not (is_text "component" (type_of graph r.to_entity_id)))
    then raise (bad_verb_endpoints r.relationship_type)
    else if contains r.relationship_type topology_verbs
        && not (is_explicit r.provenance_classification)
    then raise (derived_verb r.relationship_type)
    else if r.relationship_type == "consumes_interface"
    then raise inferred_consumer
    else ok tt

-- for x in xs: f(x)
unfoldable pub check_each {ℓ} : {A : Type ℓ} → (A → Check) → List A → Check
check_each f [] = ok tt
check_each f (x ∷ xs) = f x >> check_each f xs

-- A set of texts is the list of its elements in the order of their mentions; only what is raised
-- first depends on the order.
abbrev pub refs_of : List TopologyComponent → List String
refs_of [] = []
refs_of (component ∷ components) = elim (truthy component.component_ref) [
  | none ↦ refs_of components
  | some ref ↦ ref ∷ refs_of components
]

-- `system_id_by_adr` and `members_by_system`
pub record Memberships : Type 0 where
  pub system_id_by_adr : List (String × String)
  pub members_by_system : List (String × List String)

abbrev pub add_system : PhysicalAdr → Option String → Memberships → Memberships
add_system adr none m = m
add_system adr (some system_id) m = record {
  system_id_by_adr = put adr.id system_id m.system_id_by_adr;
  members_by_system = put system_id (refs_of adr.topology_components) m.members_by_system;
}

unfoldable pub memberships : List PhysicalAdr → Memberships → Memberships
memberships [] m = m
memberships (adr ∷ adrs) m =
    memberships adrs (if is_physical_system adr.adr_type then add_system adr adr.system_id m else m)

unfoldable pub resolve_system_ref : List (String × String) → String → String
resolve_system_ref system_id_by_adr reference = elim (item_of reference system_id_by_adr) [
  | none ↦ reference
  | some system_id ↦ system_id
]

abbrev pub is_physical_component : AdrType → Bool
is_physical_component physical_component = true
is_physical_component physical = false
is_physical_component physical_system = false

unfoldable pub claim_each :
    List String
    → List ComponentSpecification
    → List (String × List String)
    → List (String × List String)
unfolding component_id_of
claim_each systems [] claims = claims
claim_each systems (component ∷ components) claims =
    claim_each systems components (put (component_id_of component) systems claims)

-- `pc_systems`
unfoldable pub pc_systems :
    List (String × String)
    → List PhysicalAdr
    → List (String × List String)
    → List (String × List String)
unfolding claim_each resolve_system_ref
pc_systems system_id_by_adr [] claims = claims
pc_systems system_id_by_adr (adr ∷ adrs) claims = pc_systems system_id_by_adr adrs (
    if is_physical_component adr.adr_type
    then claim_each (map (resolve_system_ref system_id_by_adr) adr.implements_system)
        adr.component_specifications claims
    else claims)

-- pc_systems.get(component_id, set())
abbrev pub claimed : List (String × List String) → String → List String
claimed claims component_id = elim (item_of component_id claims) [
  | none ↦ []
  | some systems ↦ systems
]

unfoldable pub check_member : List (String × List String) → String → String → Check
check_member claims system_id component_id =
    if not (is_empty (claimed claims component_id))
      && not (contains system_id (claimed claims component_id))
    then raise (other_system_claimed component_id system_id)
    else if is_empty (claimed claims component_id)
    then raise (no_system_claimed component_id system_id)
    else ok tt

unfoldable pub check_members : List (String × List String) → (String × List String) → Check
unfolding check_member check_each
check_members claims entry = check_each (check_member claims entry.0) entry.1

abbrev pub no_memberships : Memberships
no_memberships = record { system_id_by_adr = []; members_by_system = [] }

-- `graph` is the entity graph, `relationships` the values of the relationship graph.
unfoldable pub validate_ir_topology_semantics :
    List IrEntity → List IrRelationship → List PhysicalAdr → Check
unfolding values check_identities check_relationship check_each memberships pc_systems check_members
validate_ir_topology_semantics graph relationships physical_adrs =
    let m = memberships physical_adrs no_memberships in
    check_identities (values entity_id graph)
    >> check_each (check_relationship graph) relationships
    >> check_each (check_members (pc_systems m.system_id_by_adr physical_adrs []))
        m.members_by_system
