-- ===== src/Relationships/Bindings.antt =====
-- src/adr_kit/compiler/passes/derive_relationships.py: `normalized_binding_reference` and the
-- substrate, rule and evidence bindings of a logical ADR.
use adr_architecture_kit.Base.{
  ℕ, ◌+◌, String, some, List, [], ◌∷◌, true, false, if◌then◌else◌, Result, ok, raise, ◌>>=◌, format,
  decimal,
}
use adr_architecture_kit.Relationships.Documents.{
  Entity, ExternalReference, EntityReference, local, external, SubstrateBinding, RuleBinding,
  EvidenceExpectation, LogicalAdr,
}
use adr_architecture_kit.Relationships.State.{
  QualifiedReference, BindingReference, local_reference, qualified, substrate, rule, expectation,
  DerivationError, unresolved_reference, Step, ◌then◌, each_from, given, known, Candidate, edge,
  add_relationship,
}

abbrev pub qualified_id : ExternalReference → String
qualified_id reference = format (reference.namespace ∷ ":" ∷ reference.id ∷ [])

abbrev pub payload : ExternalReference → QualifiedReference
payload reference = record {
  namespace = reference.namespace;
  id = reference.id;
  kind = reference.kind;
  fingerprint = reference.fingerprint;
  qualified_id = qualified_id reference;
}

-- f"{base}/{name}/{index}"
abbrev pub pointer_to : String → String → ℕ → String
pointer_to base name index = format (base ∷ "/" ∷ name ∷ "/" ∷ decimal index ∷ [])

abbrev pub substrate_id : SubstrateBinding → String
substrate_id binding = format (binding.external_namespace ∷ ":" ∷ binding.artifact_id ∷ [])

abbrev pub substrate_reference : SubstrateBinding → QualifiedReference
substrate_reference binding = record {
  namespace = binding.external_namespace;
  id = binding.artifact_id;
  kind = binding.kind;
  fingerprint = binding.fingerprint;
  qualified_id = substrate_id binding;
}

abbrev pub rule_qualified_id : RuleBinding → String
rule_qualified_id binding = format (binding.namespace ∷ ":" ∷ binding.rule_id ∷ [])

abbrev pub rule_reference : RuleBinding → QualifiedReference
rule_reference binding = record {
  namespace = binding.namespace;
  id = binding.rule_id;
  kind = "rule";
  fingerprint = binding.fingerprint;
  qualified_id = rule_qualified_id binding;
}

-- An edge that need not end at an entity, with its pointer.
abbrev pub nonlocal_edge : String → LogicalAdr → String → String → Candidate
nonlocal_edge relationship_type adr target pointer =
    record (edge relationship_type adr.id target adr.id (adr.id ∷ [])) {
      source_pointer = some pointer;
      allow_nonlocal_target = true;
    }

module _ (entities : List Entity) where
  unfoldable pub normalized_binding_reference :
      EntityReference → String → String → Result DerivationError BindingReference
  normalized_binding_reference (local id) owner pointer =
      if known entities id
      then ok (local_reference id)
      else raise (unresolved_reference id owner pointer)
  normalized_binding_reference (external reference) owner pointer =
      ok (qualified (payload reference))

  -- [normalized_binding_reference(item, ...) for item_index, item in enumerate(items)]
  unfoldable pub normalized_references :
      List EntityReference
      → String
      → String
      → String
      → ℕ
      → Result DerivationError (List BindingReference)
  unfolding normalized_binding_reference
  normalized_references [] owner base name index = ok []
  normalized_references (item ∷ items) owner base name index =
      normalized_binding_reference item owner (pointer_to base name index) >>= λ reference.
      normalized_references items owner base name (index + 1) >>= λ references.
      ok (reference ∷ references)

module _ (dumps : List String → String) (sha256_hex : String → String)
    (relationship_id : String → String → String → String) (entities : List Entity) where
  unfoldable pub substrate_binding : LogicalAdr → ℕ → SubstrateBinding → Step
  unfolding normalized_binding_reference normalized_references
  substrate_binding adr index binding =
      let pointer = format ("/substrate_bindings/" ∷ decimal index ∷ []) in
      given
        (normalized_binding_reference entities (local binding.selected_by) adr.id
          (format (pointer ∷ "/selected_by" ∷ [])))
        λ _.
          given (normalized_references entities binding.supersedes adr.id pointer "supersedes" 0)
            λ references.
              add_relationship dumps sha256_hex relationship_id entities
                record (nonlocal_edge "binds_substrate" adr (substrate_id binding) pointer) {
                  metadata =
                      substrate (substrate_reference binding) binding.version binding.source_pack
                        binding.role binding.selected_by binding.local_config_ref references;
                }

  unfoldable pub rule_binding : LogicalAdr → ℕ → RuleBinding → Step
  unfolding normalized_references
  rule_binding adr index binding =
      let pointer = format ("/rule_bindings/" ∷ decimal index ∷ []) in
      given
        (normalized_references entities binding.affected_entities adr.id pointer "affected_entities"
          0)
        λ references.
          add_relationship dumps sha256_hex relationship_id entities
            record (nonlocal_edge "binds_rule" adr (rule_qualified_id binding) pointer) {
              metadata =
                  rule (rule_reference binding) binding.version binding.disposition
                    binding.rationale binding.exception_ref binding.owner references
                    binding.expected_evidence_ref;
            }

  unfoldable pub evidence_expectation : LogicalAdr → ℕ → EvidenceExpectation → Step
  unfolding normalized_references
  evidence_expectation adr index item =
      let pointer = format ("/evidence_expectations/" ∷ decimal index ∷ []) in
      given
        (normalized_references entities item.related_entities adr.id pointer "related_entities" 0)
        λ references.
          add_relationship dumps sha256_hex relationship_id entities
            record (nonlocal_edge "expects_evidence" adr item.expectation_id pointer) {
              metadata = expectation item.kind item.description references false;
            }

  unfoldable pub bindings : LogicalAdr → Step
  bindings adr =
      each_from (substrate_binding adr) 0 adr.substrate_bindings
      then each_from (rule_binding adr) 0 adr.rule_bindings
      then each_from (evidence_expectation adr) 0 adr.evidence_expectations
