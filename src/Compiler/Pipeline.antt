-- ===== src/Compiler/Pipeline.antt =====
-- src/adr_kit/compiler/pipeline.py: the state of the compiler pipeline and the passes on it.
use adr_architecture_kit.Base.{
  ℕ, String, Option, none, some, List, [], ◌∷◌, ◌++◌, map, Bool, not, ◌&&◌, ◌||◌, ◌==◌, ltb,
  texts_le, if◌then◌else◌, Result, ok, raise, ◌>>=◌, any, contains, filter, length, sort_with,
}
use adr_architecture_kit.Relationships.State.{
  empty, Classification, DerivedRelationship, DerivedGapSignal,
}
use adr_architecture_kit.Compiler.{
  SourceRef, CanonicalSource, IrEntity, IrRelationship, IrUnresolved, IrError, duplicate_entity,
  duplicate_unresolved, duplicate_canonical_entity, unresolved_endpoint, is_some, get, add,
  add_if_absent, entity_id, relationship_key, unresolved_id, post_init,
}

pub record PipelineState : Type 0 where
  pub entities : List IrEntity
  pub relationships : List IrRelationship
  pub unresolved : List IrUnresolved
  pub reference_source_refs : List (String × List SourceRef)

-- item.source_ref, item.mention_role
abbrev pub mention_key : SourceRef → List String
mention_key item = item.source_ref ∷ item.mention_role ∷ []

abbrev pub mention_le : SourceRef → SourceRef → Bool
mention_le a b = texts_le (mention_key a) (mention_key b)

abbrev pub same_mention : SourceRef → SourceRef → Bool
same_mention a b = a.source_ref == b.source_ref && a.mention_role == b.mention_role

-- What both methods do with the references of an entity.
unfoldable pub add_mention : SourceRef → List SourceRef → List SourceRef
add_mention ref refs =
    if any (λ item. same_mention item ref) refs
    then refs
    else sort_with mention_le (refs ++ (ref ∷ []))

-- self.reference_source_refs.setdefault(id, []), with the list changed by `change` in place
unfoldable pub change_refs :
    String
    → (List SourceRef → List SourceRef)
    → List (String × List SourceRef)
    → List (String × List SourceRef)
change_refs id change [] = (id, change []) ∷ []
change_refs id change (entry ∷ entries) =
    let rest = change_refs id change entries in
    if entry.0 == id then (entry.0, change entry.1) ∷ entries else entry ∷ rest

unfoldable pub append_source_ref : IrEntity → SourceRef → PipelineState → PipelineState
unfolding change_refs add_mention
append_source_ref entity ref state = record state {
  reference_source_refs = change_refs entity.id (add_mention ref) state.reference_source_refs;
}

-- The mention of an entity that is there already.
abbrev pub mention_of : CanonicalSource → SourceRef
mention_of source = record {
  source_type = source.source_type;
  source_ref = source.source_ref;
  artifact_path = source.artifact_path;
  mention_role = "reference";
}

unfoldable pub add_entity : IrEntity → Bool → PipelineState → Result IrError PipelineState
unfolding get add append_source_ref
add_entity entity allow_reference_merge state =
    if not (is_some (get entity_id entity.id state.entities))
    then (add entity_id duplicate_entity entity state.entities >>= λ entities.
        ok (record state { entities = entities }))
    else if not allow_reference_merge
    then raise (duplicate_canonical_entity entity.id)
    else ok (append_source_ref entity (mention_of entity.canonical_source) state)

-- The relationship of these arguments; evidence, classification and confidence are as given.
unfoldable pub new_relationship :
    String → String → String → String → Classification → List String → ℕ → IrRelationship
new_relationship relationship_type from_id to_id source_ref classification evidence confidence =
    record {
      relationship_type = relationship_type;
      from_entity_id = from_id;
      to_entity_id = to_id;
      canonical_source_ref = source_ref;
      provenance_classification = classification;
      evidence = evidence;
      confidence = confidence;
      metadata = empty;
      relationship_id = "";
      assertion_id = "";
      source_pointer = none;
    }

abbrev pub has_entity : String → PipelineState → Bool
has_entity id state = is_some (get entity_id id state.entities)

-- entity.source_refs.extend(refs) and the sort, of the entity with this id
unfoldable pub extend_entity : String → List SourceRef → List IrEntity → List IrEntity
extend_entity id refs [] = []
extend_entity id refs (entity ∷ entities) =
    let rest = extend_entity id refs entities in
    if entity.id == id
    then record entity { source_refs = sort_with mention_le (entity.source_refs ++ refs) }
      ∷ entities
    else entity ∷ rest

unfoldable pub extend_entities : List (String × List SourceRef) → List IrEntity → List IrEntity
unfolding extend_entity
extend_entities [] entities = entities
extend_entities (entry ∷ entries) entities =
    extend_entities entries (extend_entity entry.0 entry.1 entities)

unfoldable pub finalize_source_refs : PipelineState → PipelineState
unfolding extend_entities
finalize_source_refs state = record state {
  entities = extend_entities state.reference_source_refs state.entities;
}

-- UnresolvedDetectionPass.run: a gap as an unresolved record, then its addition.
unfoldable pub unresolved_of : DerivedGapSignal → IrUnresolved
unresolved_of gap = record {
  id = gap.gap_id;
  gap_class = "generator_derived";
  gap_type = gap.gap_type;
  source_entity_id = gap.source_entity_id;
  severity = gap.severity;
  evidence = gap.evidence;
  related_entity_id = gap.related_entity_id;
  expected_relationship = gap.expected_relationship;
}

unfoldable pub detect_unresolved : List DerivedGapSignal → List IrUnresolved
unfolding unresolved_of
detect_unresolved generator_gaps = map unresolved_of generator_gaps

unfoldable pub add_all_unresolved :
    List IrUnresolved → List IrUnresolved → Result IrError (List IrUnresolved)
unfolding add
add_all_unresolved [] store = ok store
add_all_unresolved (item ∷ items) store =
    add unresolved_id duplicate_unresolved item store >>= λ next. add_all_unresolved items next

unfoldable pub run_unresolved_detection :
    List DerivedGapSignal → PipelineState → Result IrError PipelineState
unfolding detect_unresolved add_all_unresolved
run_unresolved_detection generator_gaps state =
    add_all_unresolved (detect_unresolved generator_gaps) state.unresolved >>= λ unresolved.
    ok (record state { unresolved = unresolved })

module _ (dumps : List String → String) (sha256_hex : String → String) where
  -- CompilerPipelineState.add_relationship
  unfoldable pub state_add_relationship :
      String
      → String
      → String
      → String
      → Classification
      → List String
      → ℕ
      → PipelineState
      → PipelineState
  unfolding new_relationship post_init add_if_absent
  state_add_relationship relationship_type from_id to_id source_ref classification evidence
        confidence state =
      if not (has_entity from_id state) || not (has_entity to_id state)
      then state
      else record state {
        relationships =
            add_if_absent relationship_key
              (post_init dumps sha256_hex (
                new_relationship relationship_type from_id to_id source_ref classification evidence
                  confidence))
              state.relationships;
      }

  -- RelationshipInferencePass.run: the record of a derived relationship.
  unfoldable pub relationship_of : DerivedRelationship → IrRelationship
  unfolding post_init
  relationship_of item = post_init dumps sha256_hex (record {
    relationship_type = item.relationship_type;
    from_entity_id = item.from_entity_id;
    to_entity_id = item.to_entity_id;
    canonical_source_ref = item.canonical_source_ref;
    provenance_classification = item.provenance_classification;
    evidence = item.evidence;
    confidence = item.confidence;
    metadata = item.metadata;
    relationship_id = "";
    assertion_id = item.assertion_id;
    source_pointer = item.source_pointer;
  })

  unfoldable pub infer_relationships :
      List DerivedRelationship → List IrRelationship → List IrRelationship
  unfolding relationship_of add_if_absent
  infer_relationships [] graph = graph
  infer_relationships (item ∷ items) graph =
      infer_relationships items (add_if_absent relationship_key (relationship_of item) graph)

  -- ExtensionEntityExtractionPass.run: the relationships of the extensions.
  unfoldable pub add_extension_relationships :
      List IrRelationship → PipelineState → Result IrError PipelineState
  unfolding add_if_absent
  add_extension_relationships [] state = ok state
  add_extension_relationships (item ∷ items) state =
      let rest =
        add_extension_relationships items record state {
          relationships = add_if_absent relationship_key item state.relationships;
        } in
      if not (has_entity item.from_entity_id state) || not (has_entity item.to_entity_id state)
      then raise (unresolved_endpoint item.from_entity_id item.to_entity_id)
      else rest

-- versions & {"1.3", "1.4", "1.5", "1.6"}
abbrev pub authoring_lines : List String
authoring_lines = "1.3" ∷ "1.4" ∷ "1.5" ∷ "1.6" ∷ []

unfoldable pub authoring_versions : List String → List String
authoring_versions versions = filter (λ line. contains line versions) authoring_lines

abbrev pub has_legacy : List String → Bool
has_legacy versions = any (λ version. not (contains version authoring_lines)) versions

-- VersionDetectionPass.run; `none` is MixedSchemaVersionError.
unfoldable pub detect_version : List String → Option String
unfolding authoring_versions
detect_version versions =
    if ltb 1 (length (authoring_versions versions))
      || ltb 0 (length (authoring_versions versions)) && has_legacy versions
    then none
    else if contains "1.6" (authoring_versions versions) && not (has_legacy versions)
    then some "2.3"
    else if contains "1.5" (authoring_versions versions) && not (has_legacy versions)
    then some "2.2"
    else if contains "1.4" (authoring_versions versions) && not (has_legacy versions)
    then some "2.1"
    else if contains "1.3" (authoring_versions versions)
    then some "2.0"
    else some "1.1"
