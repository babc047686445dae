-- ===== src/Topology.antt =====
-- src/adr_kit/compiler/passes/topology_resolution.py: the handles of authored topologies.
mod Tests
pub mod Components
pub mod Resolution
pub mod Edges
pub mod Semantics
use adr_architecture_kit.Base.{
  String, Option, none, some, List, [], ◌∷◌, Bool, true, false, not, ◌&&◌, ◌||◌, ◌==◌,
  if◌then◌else◌, Result, ok, raise, ◌>>=◌, ◌>>◌, contains, any, codes,
}
use adr_architecture_kit.Identity.{matches_uuidv7}
use adr_architecture_kit.Relationships.Documents.{
  Entity, TopologyComponent, TopologyRelationship, AdrType, physical, physical_system,
  physical_component, PhysicalAdr,
}
use adr_architecture_kit.Relationships.Physical.{truthy}

abbrev pub topology_verbs : List String
topology_verbs =
    "calls" ∷ "publishes_to" ∷ "subscribes_to" ∷ "reads_from" ∷ "writes_to" ∷ "depends_on" ∷ []

pub data TopologyResolutionError : Type 0 where
  missing_id : TopologyResolutionError
  duplicate_handle : String → TopologyResolutionError
  missing_component_ref : String → TopologyResolutionError
  ref_not_uuidv7 : String → String → TopologyResolutionError
  unresolved_component : String → String → TopologyResolutionError
  ungoverned_verb : Option String → TopologyResolutionError
  nonlocal_edge : Option String → Option String → TopologyResolutionError

-- The type of the entity with this id, if there is one.
unfoldable pub entity_type_of : List Entity → String → Option String
entity_type_of [] id = none
entity_type_of (entity ∷ entities) id =
    let rest = entity_type_of entities id in
    if entity.id == id then some entity.entity_type else rest

abbrev pub is_text : String → Option String → Bool
is_text text none = false
is_text text (some other) = other == text

-- The handle and the reference of one component, if they are admitted.
unfoldable pub admit :
    List Entity
    → List String
    → Option String
    → Option String
    → Result TopologyResolutionError (String × String)
unfolding entity_type_of
admit entities seen none component_ref = raise missing_id
admit entities seen (some handle) none =
    if contains handle seen
    then raise (duplicate_handle handle)
    else raise (missing_component_ref handle)
admit entities seen (some handle) (some component_ref) =
    if contains handle seen
    then raise (duplicate_handle handle)
    else if not (matches_uuidv7 (codes component_ref))
    then raise (ref_not_uuidv7 handle component_ref)
    else if not (is_text "component" (entity_type_of entities component_ref))
    then raise (unresolved_component handle component_ref)
    else ok (handle, component_ref)

-- `handles`: from handles to references.
abbrev pub HandleMap : Type 0
HandleMap = List (String × String)

-- `seen` and `handles` have the latest first.
unfoldable pub resolve_components :
    List Entity
    → List String
    → HandleMap
    → List TopologyComponent
    → Result TopologyResolutionError HandleMap
unfolding admit
resolve_components entities seen handles [] = ok handles
resolve_components entities seen handles (component ∷ components) =
    admit entities seen (truthy component.id) (truthy component.component_ref) >>= λ item.
    resolve_components entities (item.0 ∷ seen) (item ∷ handles) components

-- handle in handles
abbrev pub is_handle : HandleMap → Option String → Bool
is_handle handles none = false
is_handle handles (some handle) = any (λ item. item.0 == handle) handles

abbrev pub is_verb : Option String → Bool
is_verb none = false
is_verb (some verb) = contains verb topology_verbs

unfoldable pub check_edges :
    HandleMap → List TopologyRelationship → Result TopologyResolutionError HandleMap
check_edges handles [] = ok handles
check_edges handles (item ∷ items) =
    let rest = check_edges handles items in
    if not (is_verb item.verb)
    then raise (ungoverned_verb item.verb)
    else if not (is_handle handles item.from_handle) || not (is_handle handles item.to_handle)
    then raise (nonlocal_edge item.from_handle item.to_handle)
    else rest

-- The handles of one ADR.
unfoldable pub resolve_adr : List Entity → PhysicalAdr → Result TopologyResolutionError HandleMap
unfolding resolve_components check_edges
resolve_adr entities adr = resolve_components entities [] [] adr.topology_components >>= λ handles.
    check_edges handles adr.topology_relationships

abbrev pub is_physical_system : AdrType → Bool
is_physical_system physical_system = true
is_physical_system physical = false
is_physical_system physical_component = false

abbrev pub is_empty {ℓ} : {A : Type ℓ} → List A → Bool
is_empty [] = true
is_empty (x ∷ xs) = false

abbrev pub has_topology : PhysicalAdr → Bool
has_topology adr = is_physical_system adr.adr_type && not (is_empty adr.topology_components)

-- `resolved`, by the ids of the ADRs, the latest first.
abbrev pub HandleMaps : Type 0
HandleMaps = List (String × HandleMap)

unfoldable pub resolve_one :
    List Entity → HandleMaps → PhysicalAdr → Result TopologyResolutionError HandleMaps
unfolding resolve_adr
resolve_one entities resolved adr =
    if has_topology adr
    then (resolve_adr entities adr >>= λ handles. ok ((adr.id, handles) ∷ resolved))
    else ok resolved

unfoldable pub resolve_adrs :
    List Entity → HandleMaps → List PhysicalAdr → Result TopologyResolutionError HandleMaps
unfolding resolve_one
resolve_adrs entities resolved [] = ok resolved
resolve_adrs entities resolved (adr ∷ adrs) =
    resolve_one entities resolved adr >>= λ next. resolve_adrs entities next adrs

unfoldable pub resolve_topology_handles :
    List PhysicalAdr → List Entity → String → Result TopologyResolutionError HandleMaps
unfolding resolve_adrs
resolve_topology_handles physical_adrs entities model_version =
    if not (model_version == "2.2") then ok [] else resolve_adrs entities [] physical_adrs
