-- ===== src/Relationships/Tests.antt =====
-- A small set of documents, and the theorems of the relationships at it.
use adr_architecture_kit.Base.{
  String, none, some, List, [], ◌∷◌, false, ◌≡◌, refl, subst, ok, All, format, decimal, before, map,
  IsSorted, IsDistinct, sorted_set, distinct, sort_with, insert_with, digits, digit,
}
use adr_architecture_kit.Relationships.Documents.{
  Entity, absent, LogicalAdr, physical_system, PhysicalAdr,
}
use adr_architecture_kit.Relationships.State.{
  DerivedGapSignal, Derivation, skip, ◌then◌, when, each, each_from, given, for_some, Candidate,
  edge, derived_edge, relationship, add_relationship, add_gap, colon_joined, derive_assertion_id,
}
use adr_architecture_kit.Relationships.Bindings.{bindings}
use adr_architecture_kit.Relationships.Logical.{
  reference_gap, explicit_edge, inverse_edge, pair, declared_in, supersedes, superseded_by_one,
  superseded_by, capability_edge, party_edge, invariant_edge, enabled_edge, decision_target,
  decision_edges, related_edge, logical_edges,
}
use adr_architecture_kit.Relationships.Physical.{
  component_id_of, reference_of, handles_of, weak_edge, implements_edge, physical_superseded_by,
  composed_edge, composed_of, verb_edge, topology_edge, topology_edges, system_of, system_adr_edges,
  typed_edges, physical_edges,
}
use adr_architecture_kit.Relationships.Derive.{
  relationship_key, in_order, loops, derive_relationships,
}
use adr_architecture_kit.Relationships.Traversal.{is_dual}
use adr_architecture_kit.Relationships.Integrity.{
  HasEndpoints, IsNamed, derive_relationships-HasEndpoints, derive_relationships-IsDistinct,
}
use adr_architecture_kit.Relationships.Duality.{HasInverse, derive_relationships-HasInverse}

abbrev entity : String → String → String → Entity
entity id entity_type source_ref = record {
  id = id;
  entity_type = entity_type;
  canonical_source_ref = source_ref;
}

abbrev sample_entities : List Entity
sample_entities =
    entity "ADR-L-0001" "adr" "ADR-L-0001"
    ∷ entity "ADR-L-0002" "adr" "ADR-L-0002"
    ∷ entity "ADR-PS-0001" "adr" "ADR-PS-0001"
    ∷ entity "DEC-0001" "decision" "ADR-L-0001#DEC-0001"
    ∷ entity "CAP-0001" "capability" "ADR-L-0001#CAP-0001"
    ∷ entity "SYS-0001" "system" "SYS"
    ∷ entity "COMP-0001" "component" "COMP"
    ∷ []

abbrev sample_logical : LogicalAdr
sample_logical = record {
  id = "ADR-L-0001";
  related_adrs = [];
  supersedes = "ADR-L-0002" ∷ [];
  superseded_by = absent;
  capabilities =
      record { id = "CAP-0001"; implemented_by_components = "COMP-0001" ∷ "COMP-0009" ∷ [] } ∷ [];
  interaction_contracts = [];
  decisions =
      record {
        id = "DEC-0001";
        related_invariants = [];
        enforces_invariants = "INV-0001" ∷ [];
        enables_capabilities = "CAP-0001" ∷ [];
        governs_components = [];
        supersedes = [];
        refines = [];
      }
      ∷ [];
  invariants = [];
  substrate_bindings = [];
  rule_bindings = [];
  evidence_expectations = [];
}

abbrev sample_physical : PhysicalAdr
sample_physical = record {
  id = "ADR-PS-0001";
  adr_type = physical_system;
  implements_logical = [];
  supersedes = [];
  superseded_by = absent;
  component_specifications = [];
  implements_system = [];
  implementation_decisions = [];
  system_id = some "SYS-0001";
  topology_components = record { id = some "TOPO-0001"; component_ref = some "COMP-0001" } ∷ [];
  topology_relationships =
      record {
        from_handle = some "TOPO-0001";
        to_handle = some "TOPO-0001";
        verb = some "calls";
        protocol = none;
        description = none;
      }
      ∷ [];
  references_components = [];
}

abbrev sample_systems : List (String × String)
sample_systems = ("ADR-PS-0001", "SYS-0001") ∷ []

-- The two functions are json's and hashlib's.
abbrev dumps : List String → String
dumps = format

abbrev sha256_hex : String → String
sha256_hex text = text

abbrev sample_candidates : List Candidate
sample_candidates =
    record (edge "calls" "COMP-0001" "COMP-0001" "ADR-PS-0001#TOPO-0001->TOPO-0001"
      ("ADR-PS-0001" ∷ [])) { source_pointer = some "/component_topology/relationships/0" }
    ∷ record (edge "composed_of" "SYS-0001" "COMP-0001" "ADR-PS-0001#TOPO-0001"
        ("ADR-PS-0001" ∷ [])) { source_pointer = some "/component_topology/components/0" }
    ∷ edge "declared_in" "CAP-0001" "ADR-L-0001" "ADR-L-0001#CAP-0001" ("ADR-L-0001#CAP-0001" ∷ [])
    ∷ edge "declared_in" "DEC-0001" "ADR-L-0001" "ADR-L-0001#DEC-0001" ("ADR-L-0001#DEC-0001" ∷ [])
    ∷ derived_edge "enabled_by" "CAP-0001" "DEC-0001" "ADR-L-0001#DEC-0001" ("ADR-L-0001" ∷ [])
    ∷ edge "enables" "DEC-0001" "CAP-0001" "ADR-L-0001#DEC-0001" ("ADR-L-0001" ∷ [])
    ∷ edge "implemented_by" "CAP-0001" "COMP-0001" "ADR-L-0001#CAP-0001" ("ADR-L-0001" ∷ [])
    ∷ derived_edge "superseded_by" "ADR-L-0002" "ADR-L-0001" "ADR-L-0001" ("ADR-L-0001" ∷ [])
    ∷ edge "supersedes" "ADR-L-0001" "ADR-L-0002" "ADR-L-0001" ("ADR-L-0001" ∷ [])
    ∷ []

abbrev sample_gaps : List DerivedGapSignal
sample_gaps =
    reference_gap "GAP-IMPL-" "capability_without_implementing_component" "ADR-L-0001" "CAP-0001"
      "COMP-0009" "implemented_by"
    ∷ reference_gap "GAP-INV-" "unresolved_reference" "ADR-L-0001" "DEC-0001" "INV-0001" "enforces"
    ∷ []

abbrev sample_result : Derivation
sample_result = record {
  relationships =
      map (relationship dumps sha256_hex colon_joined sample_entities) sample_candidates;
  generator_gaps = sample_gaps;
}

sample_run :
    derive_relationships dumps sha256_hex colon_joined sample_entities sample_systems
      (sample_logical ∷ [])
      (sample_physical ∷ [])
    ≡ ok sample_result
unfolding derive_relationships loops in_order each each_from when given for_some skip ◌then◌
    declared_in logical_edges related_edge supersedes superseded_by superseded_by_one pair
    explicit_edge inverse_edge add_relationship relationship add_gap capability_edge party_edge
    decision_edges invariant_edge enabled_edge decision_target bindings physical_edges
    implements_edge physical_superseded_by typed_edges system_adr_edges topology_edges composed_of
    composed_edge topology_edge verb_edge weak_edge sorted_set distinct sort_with insert_with
    decimal digits digit before component_id_of reference_of handles_of system_of
    derive_assertion_id colon_joined
sample_run = refl

derive_relationships-HasEndpoints_example :
    All (HasEndpoints sample_entities) sample_result.relationships
derive_relationships-HasEndpoints_example =
    derive_relationships-HasEndpoints dumps sha256_hex colon_joined sample_entities sample_systems
      (sample_logical ∷ []) (sample_physical ∷ []) sample_result sample_run

derive_relationships-IsDistinct_example :
    IsSorted relationship_key sample_result.relationships
    × IsDistinct relationship_key sample_result.relationships
    × All (IsNamed colon_joined) sample_result.relationships
derive_relationships-IsDistinct_example =
    derive_relationships-IsDistinct dumps sha256_hex colon_joined sample_entities sample_systems
      (sample_logical ∷ []) (sample_physical ∷ []) sample_result sample_run

plain_verb : (verb : String) → some "calls" ≡ some verb → is_dual verb ≡ false
plain_verb verb e = let e' : "calls" ≡ verb = cc in subst (λ v. is_dual v ≡ false) e' refl

derive_relationships-HasInverse_example :
    All
      (HasInverse dumps sha256_hex colon_joined sample_entities sample_result.relationships)
      sample_result.relationships
derive_relationships-HasInverse_example =
    derive_relationships-HasInverse dumps sha256_hex colon_joined sample_entities sample_systems
      (sample_logical ∷ []) (sample_physical ∷ []) sample_result ((plain_verb, tt), tt) sample_run
