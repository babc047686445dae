-- ===== src/Relationships/Logical.antt =====
-- src/adr_kit/compiler/passes/derive_relationships.py: the edges of one entity and of one logical ADR.
use adr_architecture_kit.Base.{
  String, some, List, [], ◌∷◌, ◌++◌, if◌then◌else◌, ◌==◌, not, ◌&&◌, format, characters, before,
  sorted_set,
}
use adr_architecture_kit.Relationships.Documents.{
  Entity, SupersededBy, absent, single, several, Capability, InteractionContract, Decision,
  LogicalAdr,
}
use adr_architecture_kit.Relationships.State.{
  DerivedGapSignal, Step, skip, ◌then◌, when, each, known, edge, derived_edge, add_relationship,
  add_gap,
}
use adr_architecture_kit.Relationships.Bindings.{bindings}

-- f"{adr.id}#{id}"
abbrev pub fragment : String → String → String
fragment owner id = format (owner ∷ "#" ∷ id ∷ [])

-- A gap of severity `important` about one reference.
abbrev pub gap : String → String → String → String → String → String → String → DerivedGapSignal
gap prefix gap_type owner id source_ref reference expected = record {
  gap_id = format (prefix ∷ id ∷ "-" ∷ reference ∷ []);
  gap_type = gap_type;
  source_entity_id = id;
  severity = "important";
  source_ref = source_ref;
  evidence = owner ∷ reference ∷ [];
  related_entity_id = some reference;
  expected_relationship = some expected;
}

-- The same, with the source `{owner}#{id}`.
abbrev pub reference_gap : String → String → String → String → String → String → DerivedGapSignal
reference_gap prefix gap_type owner id reference expected =
    gap prefix gap_type owner id (fragment owner id) reference expected

module _ (dumps : List String → String) (sha256_hex : String → String)
    (relationship_id : String → String → String → String) (entities : List Entity) where
  unfoldable pub explicit_edge : String → String → String → String → List String → Step
  explicit_edge relationship_type from_id to_id source_ref evidence =
      add_relationship dumps sha256_hex relationship_id entities
        (edge relationship_type from_id to_id source_ref evidence)

  unfoldable pub inverse_edge : String → String → String → String → List String → Step
  inverse_edge relationship_type from_id to_id source_ref evidence =
      add_relationship dumps sha256_hex relationship_id entities
        (derived_edge relationship_type from_id to_id source_ref evidence)

  -- An edge and its derived inverse.
  unfoldable pub pair : String → String → String → String → String → List String → Step
  unfolding explicit_edge inverse_edge ◌then◌
  pair relationship_type inverse from_id to_id source_ref evidence =
      explicit_edge relationship_type from_id to_id source_ref evidence
      then inverse_edge inverse to_id from_id source_ref evidence

  unfoldable pub declared_in : Entity → Step
  unfolding explicit_edge when
  declared_in entity =
      let adr_id = before "#" entity.canonical_source_ref in
      when (not (entity.entity_type == "adr") && known entities adr_id) (
        explicit_edge "declared_in" entity.id adr_id entity.canonical_source_ref
          (entity.canonical_source_ref ∷ []))

  unfoldable pub supersedes : String → String → String → String → Step
  unfolding pair when
  supersedes owner id source_ref target =
      when (known entities target)
        (pair "supersedes" "superseded_by" id target source_ref (owner ∷ []))

  unfoldable pub superseded_by_one : String → String → Step
  unfolding pair when
  superseded_by_one adr_id target =
      when (known entities target)
        (pair "superseded_by" "supersedes" adr_id target adr_id (adr_id ∷ []))

  unfoldable pub superseded_by : String → SupersededBy → Step
  unfolding superseded_by_one each
  superseded_by adr_id absent = skip
  superseded_by adr_id (single target) =
      if known entities target
      then superseded_by_one adr_id target
      else each (superseded_by_one adr_id) (characters target)
  superseded_by adr_id (several targets) = each (superseded_by_one adr_id) targets

  unfoldable pub capability_edge : LogicalAdr → Capability → String → Step
  unfolding explicit_edge add_gap
  capability_edge adr capability component_id =
      if known entities component_id
      then explicit_edge "implemented_by" capability.id component_id (fragment adr.id capability.id)
          (adr.id ∷ [])
      else add_gap (
          reference_gap "GAP-IMPL-" "capability_without_implementing_component" adr.id capability.id
            component_id "implemented_by")

  unfoldable pub party_edge : LogicalAdr → InteractionContract → String → Step
  unfolding explicit_edge when
  party_edge adr contract party =
      when (known entities party)
        (explicit_edge "related_to" contract.id party (fragment adr.id contract.id) (adr.id ∷ []))

  unfoldable pub invariant_edge : LogicalAdr → Decision → String → Step
  unfolding explicit_edge add_gap
  invariant_edge adr decision invariant_id =
      if known entities invariant_id
      then explicit_edge "enforces" decision.id invariant_id (fragment adr.id decision.id)
          (adr.id ∷ [])
      else add_gap (
          reference_gap "GAP-INV-" "unresolved_reference" adr.id decision.id invariant_id
            "enforces")

  unfoldable pub enabled_edge : LogicalAdr → Decision → String → Step
  unfolding pair add_gap
  enabled_edge adr decision capability_id =
      if known entities capability_id
      then pair "enables" "enabled_by" decision.id capability_id (fragment adr.id decision.id)
          (adr.id ∷ [])
      else add_gap (
          reference_gap "GAP-CAP-" "unresolved_reference" adr.id decision.id capability_id
            "enables")

  unfoldable pub decision_target : String → LogicalAdr → Decision → String → Step
  unfolding explicit_edge when
  decision_target relationship_type adr decision target = when (known entities target) (
      explicit_edge relationship_type decision.id target (fragment adr.id decision.id)
        (adr.id ∷ []))

  unfoldable pub decision_edges : LogicalAdr → Decision → Step
  unfolding each ◌then◌ invariant_edge enabled_edge decision_target supersedes
  decision_edges adr decision =
      each (invariant_edge adr decision)
        (sorted_set (decision.related_invariants ++ decision.enforces_invariants))
      then each (enabled_edge adr decision) decision.enables_capabilities
      then each (decision_target "governs" adr decision) decision.governs_components
      then each (supersedes adr.id decision.id (fragment adr.id decision.id)) decision.supersedes
      then each (decision_target "refines" adr decision) decision.refines

  unfoldable pub related_edge : LogicalAdr → String → Step
  unfolding explicit_edge when
  related_edge adr related =
      when (known entities related) (explicit_edge "references" adr.id related adr.id (adr.id ∷ []))

  unfoldable pub logical_edges : LogicalAdr → Step
  unfolding each ◌then◌ related_edge supersedes superseded_by capability_edge party_edge
      decision_edges bindings
  logical_edges adr =
      each (related_edge adr) adr.related_adrs
      then each (supersedes adr.id adr.id adr.id) adr.supersedes
      then superseded_by adr.id adr.superseded_by
      then each
          (λ capability. each (capability_edge adr capability) capability.implemented_by_components)
          adr.capabilities
      then each (λ contract. each (party_edge adr contract) contract.parties)
          adr.interaction_contracts
      then each (decision_edges adr) adr.decisions
      then each
          (λ invariant.
            each (supersedes adr.id invariant.id (fragment adr.id invariant.id))
              invariant.supersedes)
          adr.invariants
      then bindings dumps sha256_hex relationship_id entities adr
