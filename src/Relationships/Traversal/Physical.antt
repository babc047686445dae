-- ===== src/Relationships/Traversal/Physical.antt =====
-- What every call of `add_relationship` and `add_gap` keeps, the edges of a physical ADR and the
-- three loops of the pass keep.
use adr_architecture_kit.Base.{
  ℕ, ◌+◌, String, Option, none, some, List, [], ◌∷◌, false, ◌≡◌, refl, All,
}
use adr_architecture_kit.Relationships.Documents.{
  Entity, SupersededBy, absent, single, several, LogicalAdr, ComponentSpecification,
  TopologyComponent, TopologyRelationship, AdrType, physical, physical_system, physical_component,
  PhysicalAdr,
}
use adr_architecture_kit.Relationships.State.{
  DerivedGapSignal, Derivation, each, each_from, add_gap,
}
use adr_architecture_kit.Relationships.Keeps.{
  Keeps, Keeps-skip, Keeps-then, Keeps-when, Keeps-given, keeps_rules,
}
use adr_architecture_kit.Relationships.Logical.{explicit_edge}
use adr_architecture_kit.Relationships.Physical.{
  truthy, weak_edge, implements_edge, physical_superseded_by, interface_edge, implemented_edge,
  system_edge, component_edges, implementation_edge, component_adr_edges, composed_edge,
  composed_of, verb_edge, topology_edge, topology_edges, system_adr_edges, typed_edges,
  physical_edges,
}
use adr_architecture_kit.Relationships.Derive.{loops}
use adr_architecture_kit.Relationships.Traversal.{
  is_dual, Rules, plain, declared_in-Keeps, supersedes-Keeps, superseded_by_one-Keeps,
  logical_edges-Keeps,
}

-- The verbs of the topology edges of a document.
abbrev pub AllowsVerb : (String → Type 0) → TopologyRelationship → Type 0
AllowsVerb Allowed item = (verb : String) → truthy item.verb ≡ some verb → Allowed verb

abbrev pub AllowsVerbs : (String → Type 0) → PhysicalAdr → Type 0
AllowsVerbs Allowed adr = All (AllowsVerb Allowed) adr.topology_relationships

module _ (dumps : List String → String) (sha256_hex : String → String)
    (relationship_id : String → String → String → String) (entities : List Entity)
    (system_ids : List (String × String)) {P : Derivation → Type 0} {Allowed : String → Type 0}
    (R : Rules dumps sha256_hex relationship_id entities P Allowed) where
  weak_edge-Keeps :
      (from_id to_id source_ref owner : String)
      → Keeps P (
          weak_edge dumps sha256_hex relationship_id entities system_ids from_id to_id source_ref
            owner)
  unfolding weak_edge
  weak_edge-Keeps from_id to_id source_ref owner =
      Keeps-when _ _ (λ _. R.single_edge _ (R.literal "related_to" refl) (λ nonlocal. cc))

  plain_edge :
      (t from_id to_id source_ref : String) (evidence : List String)
      → is_dual t ≡ false
      → Keeps P (
          explicit_edge dumps sha256_hex relationship_id entities t from_id to_id source_ref
            evidence)
  plain_edge = plain dumps sha256_hex relationship_id entities R

  gap_kept : (item : DerivedGapSignal) → Keeps P (add_gap item)
  gap_kept = R.gap

  ruleset base = (keeps_rules, plain_edge, gap_kept)

  implements_edge-Keeps :
      (adr : PhysicalAdr) (id : String)
      → Keeps P (implements_edge dumps sha256_hex relationship_id entities system_ids adr id)
  unfolding implements_edge
  implements_edge-Keeps adr id = search (base)

  physical_superseded_by-Keeps :
      (adr_id : String) (field : SupersededBy)
      → Keeps P
          (physical_superseded_by dumps sha256_hex relationship_id entities system_ids adr_id field)
  unfolding physical_superseded_by
  physical_superseded_by-Keeps adr_id absent = Keeps-skip
  physical_superseded_by-Keeps adr_id (single target) =
      superseded_by_one-Keeps dumps sha256_hex relationship_id entities R adr_id target
  physical_superseded_by-Keeps adr_id (several targets) = Keeps-skip

  interface_edge-Keeps :
      (adr : PhysicalAdr) (component_id interface_id : String)
      → Keeps P (
          interface_edge dumps sha256_hex relationship_id entities system_ids adr component_id
            interface_id)
  unfolding interface_edge
  interface_edge-Keeps adr component_id interface_id = search (base)

  implemented_edge-Keeps :
      (adr : PhysicalAdr) (component_id capability_id : String)
      → Keeps P (
          implemented_edge dumps sha256_hex relationship_id entities system_ids adr component_id
            capability_id)
  unfolding implemented_edge
  implemented_edge-Keeps adr component_id capability_id = search (base)

  system_edge-Keeps :
      (adr : PhysicalAdr) (component_id system_id : String)
      → Keeps P (
          system_edge dumps sha256_hex relationship_id entities system_ids adr component_id
            system_id)
  unfolding system_edge
  system_edge-Keeps adr component_id system_id = search (base)

  component_edges-Keeps :
      (adr : PhysicalAdr) (component_id : String) (component : ComponentSpecification)
      → Keeps P (
          component_edges dumps sha256_hex relationship_id entities system_ids adr component_id
            component)
  unfolding component_edges
  component_edges-Keeps adr component_id component =
      search
        (base, interface_edge-Keeps, implemented_edge-Keeps, system_edge-Keeps, weak_edge-Keeps)
        depth 14

  implementation_edge-Keeps :
      (adr : PhysicalAdr) (decision_id invariant_id : String)
      → Keeps P (
          implementation_edge dumps sha256_hex relationship_id entities system_ids adr decision_id
            invariant_id)
  unfolding implementation_edge
  implementation_edge-Keeps adr decision_id invariant_id = search (base)

  component_adr_edges-Keeps :
      (adr : PhysicalAdr)
      → Keeps P (component_adr_edges dumps sha256_hex relationship_id entities system_ids adr)
  unfolding component_adr_edges
  component_adr_edges-Keeps adr =
      search (base, component_edges-Keeps, implementation_edge-Keeps) depth 10

  composed_edge-Keeps :
      (adr : PhysicalAdr) (system_id : String) (index : ℕ) (topology_id : String)
      (reference : Option String)
      → Keeps P (
          composed_edge dumps sha256_hex relationship_id entities system_ids adr system_id index
            topology_id reference)
  unfolding composed_edge
  composed_edge-Keeps adr system_id index topology_id (some reference) =
      R.single_edge _ (R.literal "composed_of" refl) (λ nonlocal. cc)
  composed_edge-Keeps adr system_id index topology_id none = search (base)

  composed_of-Keeps :
      (adr : PhysicalAdr) (system_id : String) (index : ℕ) (component : TopologyComponent)
      → Keeps P (
          composed_of dumps sha256_hex relationship_id entities system_ids adr system_id index
            component)
  unfolding composed_of
  composed_of-Keeps adr system_id index component = search (base, composed_edge-Keeps)

  verb_edge-Keeps :
      (adr : PhysicalAdr) (index : ℕ) (item : TopologyRelationship)
      (verb from_handle to_handle from_comp to_comp : String)
      → Allowed verb
      → Keeps P (
          verb_edge dumps sha256_hex relationship_id entities system_ids adr index item verb
            from_handle to_handle from_comp to_comp)
  unfolding verb_edge
  verb_edge-Keeps adr index item verb from_handle to_handle from_comp to_comp allowed =
      R.single_edge _ allowed (λ nonlocal. cc)

  topology_edge-Keeps :
      (adr : PhysicalAdr) (handles : List (String × String)) (index : ℕ)
      (item : TopologyRelationship)
      → AllowsVerb Allowed item
      → Keeps P (
          topology_edge dumps sha256_hex relationship_id entities system_ids adr handles index item)
  unfolding topology_edge
  topology_edge-Keeps adr handles index item allowed =
      search (base, verb_edge-Keeps, allowed) depth 12

  each-topology_edge-Keeps :
      (adr : PhysicalAdr) (handles : List (String × String)) (index : ℕ)
      (items : List TopologyRelationship)
      → All (AllowsVerb Allowed) items
      → Keeps P (
          each_from
            (topology_edge dumps sha256_hex relationship_id entities system_ids adr handles)
            index
            items)
  unfolding each_from
  each-topology_edge-Keeps adr handles index [] allowed = Keeps-skip
  each-topology_edge-Keeps adr handles index (item ∷ items) allowed =
      Keeps-then _ _ (topology_edge-Keeps adr handles index item allowed.0)
        (each-topology_edge-Keeps adr handles (index + 1) items allowed.1)

  topology_edges-Keeps :
      (adr : PhysicalAdr) (system_id : String)
      → AllowsVerbs Allowed adr
      → Keeps P (topology_edges dumps sha256_hex relationship_id entities system_ids adr system_id)
  unfolding topology_edges
  topology_edges-Keeps adr system_id allowed =
      search (base, composed_of-Keeps, each-topology_edge-Keeps, weak_edge-Keeps) depth 10

  typed_edges-Keeps :
      (adr : PhysicalAdr) (adr_type : AdrType)
      → AllowsVerbs Allowed adr
      → Keeps P (typed_edges dumps sha256_hex relationship_id entities system_ids adr adr_type)
  unfolding typed_edges system_adr_edges
  typed_edges-Keeps adr physical allowed = Keeps-skip
  typed_edges-Keeps adr physical_component allowed = component_adr_edges-Keeps adr
  typed_edges-Keeps adr physical_system allowed =
      Keeps-given _ _ (λ system_id. topology_edges-Keeps adr system_id allowed)

  physical_edges-Keeps :
      (adr : PhysicalAdr)
      → AllowsVerbs Allowed adr
      → Keeps P (physical_edges dumps sha256_hex relationship_id entities system_ids adr)
  unfolding physical_edges
  physical_edges-Keeps adr allowed =
      search
        (
          base,
          implements_edge-Keeps,
          supersedes-Keeps dumps sha256_hex relationship_id entities R,
          physical_superseded_by-Keeps,
          typed_edges-Keeps,
        )
        depth 14

  each-physical_edges-Keeps :
      (adrs : List PhysicalAdr)
      → All (AllowsVerbs Allowed) adrs
      → Keeps P (each (physical_edges dumps sha256_hex relationship_id entities system_ids) adrs)
  unfolding each
  each-physical_edges-Keeps [] allowed = Keeps-skip
  each-physical_edges-Keeps (adr ∷ adrs) allowed =
      Keeps-then _ _ (physical_edges-Keeps adr allowed.0) (each-physical_edges-Keeps adrs allowed.1)

  pub loops-Keeps :
      (logical_adrs : List LogicalAdr) (physical_adrs : List PhysicalAdr)
      → All (AllowsVerbs Allowed) physical_adrs
      → Keeps P
          (loops dumps sha256_hex relationship_id entities system_ids logical_adrs physical_adrs)
  unfolding loops
  loops-Keeps logical_adrs physical_adrs allowed =
      search
        (
          base,
          declared_in-Keeps dumps sha256_hex relationship_id entities R,
          logical_edges-Keeps dumps sha256_hex relationship_id entities R,
          each-physical_edges-Keeps,
        )
        depth 10
