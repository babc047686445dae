-- ===== src/Relationships/Documents.antt =====
-- The authored documents that relationship derivation reads: src/adr_kit/models (the fields it uses).
use adr_architecture_kit.Base.{String, Option, List}

pub record Entity : Type 0 where
  pub id : String
  pub entity_type : String
  pub canonical_source_ref : String

-- Absent, one text, or a list in a document that was read as a mapping.
pub data SupersededBy : Type 0 where
  absent : SupersededBy
  single : String → SupersededBy
  several : List String → SupersededBy

pub record ExternalReference : Type 0 where
  pub namespace : String
  pub id : String
  pub kind : String
  pub fingerprint : String

pub data EntityReference : Type 0 where
  local : String → EntityReference
  external : ExternalReference → EntityReference

pub record SubstrateBinding : Type 0 where
  pub external_namespace : String
  pub artifact_id : String
  pub kind : String
  pub version : String
  pub fingerprint : String
  pub source_pack : Option String
  pub role : String
  pub selected_by : String
  pub local_config_ref : Option String
  pub supersedes : List EntityReference

pub record RuleBinding : Type 0 where
  pub rule_id : String
  pub namespace : String
  pub version : String
  pub fingerprint : String
  pub disposition : String
  pub rationale : Option String
  pub exception_ref : Option String
  pub owner : Option String
  pub affected_entities : List EntityReference
  pub expected_evidence_ref : Option String

pub record EvidenceExpectation : Type 0 where
  pub expectation_id : String
  pub kind : String
  pub description : String
  pub related_entities : List EntityReference

pub record Capability : Type 0 where
  pub id : String
  pub implemented_by_components : List String

pub record InteractionContract : Type 0 where
  pub id : String
  pub parties : List String

pub record Decision : Type 0 where
  pub id : String
  pub related_invariants : List String
  pub enforces_invariants : List String
  pub enables_capabilities : List String
  pub governs_components : List String
  pub supersedes : List String
  pub refines : List String

pub record Invariant : Type 0 where
  pub id : String
  pub supersedes : List String

pub record LogicalAdr : Type 0 where
  pub id : String
  pub related_adrs : List String
  pub supersedes : List String
  pub superseded_by : SupersededBy
  pub capabilities : List Capability
  pub interaction_contracts : List InteractionContract
  pub decisions : List Decision
  pub invariants : List Invariant
  pub substrate_bindings : List SubstrateBinding
  pub rule_bindings : List RuleBinding
  pub evidence_expectations : List EvidenceExpectation

-- `component_id` of the older models is optional, `id` is not.
pub record ComponentSpecification : Type 0 where
  pub component_id : Option String
  pub id : String
  pub interfaces : List String
  pub implements_capabilities : List String
  pub dependencies : List String

pub record ImplementationDecision : Type 0 where
  pub id : String
  pub implements_invariants : List String

pub record TopologyComponent : Type 0 where
  pub id : Option String
  pub component_ref : Option String

pub record TopologyRelationship : Type 0 where
  pub from_handle : Option String
  pub to_handle : Option String
  pub verb : Option String
  pub protocol : Option String
  pub description : Option String

pub data AdrType : Type 0 where
  physical : AdrType
  physical_system : AdrType
  physical_component : AdrType

-- Also of a physical-system and a physical-component ADR; a field the document lacks is empty.
-- `system_id` is the id of the authored `system`.
pub record PhysicalAdr : Type 0 where
  pub id : String
  pub adr_type : AdrType
  pub implements_logical : List String
  pub supersedes : List String
  pub superseded_by : SupersededBy
  pub component_specifications : List ComponentSpecification
  pub implements_system : List String
  pub implementation_decisions : List ImplementationDecision
  pub system_id : Option String
  pub topology_components : List TopologyComponent
  pub topology_relationships : List TopologyRelationship
  pub references_components : List String
