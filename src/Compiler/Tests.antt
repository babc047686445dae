-- ===== src/Compiler/Tests.antt =====
-- The stores and the passes of the pipeline at concrete values.
use adr_architecture_kit.Base.{
  String, none, some, List, [], ◌∷◌, map, true, false, ◌==◌, ◌&&◌, ◌≡◌, refl, ◌↔◌, ◌⊎◌,
  if◌then◌else◌, ok, raise, IsDistinct, distinct, sort_with, insert_with, sorted_set, format,
  before,
}
use adr_architecture_kit.Relationships.Documents.{Entity}
use adr_architecture_kit.Relationships.State.{
  explicit, skip, ◌then◌, when, each, Derivation, DerivedGapSignal, edge, relationship,
  add_relationship, colon_joined, derive_assertion_id,
}
use adr_architecture_kit.Relationships.Logical.{declared_in, explicit_edge}
use adr_architecture_kit.Relationships.Derive.{gap_key, derive_relationships, loops, in_order}
use adr_architecture_kit.Compiler.{
  IrEntity, duplicate_entity, is_some, get, add, values, post_init, entity_id, relationship_key,
  unresolved_id,
}
use adr_architecture_kit.Compiler.Stores.{swap, values-deterministic, add-refines}
use adr_architecture_kit.Compiler.Pipeline.{
  PipelineState, has_entity, new_relationship, add_entity, state_add_relationship,
  detect_unresolved, run_unresolved_detection, relationship_of, infer_relationships,
}
use adr_architecture_kit.Compiler.WellFormed.{
  IsWellFormed, add_entity-IsWellFormed, first_of, state_add_relationship-get,
}
use adr_architecture_kit.Compiler.Filling.{
  AreNew, infer_relationships-derive_relationships, run_unresolved_detection-IsDistinct,
}

abbrev sample_ir : String → IrEntity
sample_ir id = record {
  id = id;
  entity_type = "component";
  canonical_source = record {
    source_type = "physical_component_adr";
    source_ref = "ADR-PC-0001";
    artifact_path = "adrs/physical-component/ADR-PC-0001.yaml";
  };
  source_refs = [];
}

add-refines_example :
    ((is_some (get entity_id "COMP-0001" []) ≡ true)
      × (add entity_id duplicate_entity (sample_ir "COMP-0001") []
          ≡ raise (duplicate_entity "COMP-0001")))
    ⊎ ((ys : List IrEntity) × (add entity_id duplicate_entity (sample_ir "COMP-0001") [] ≡ ok ys)
        × IsDistinct entity_id ys
        × ((id : String)
            → get entity_id id ys
              ≡ (if "COMP-0001" == id then some (sample_ir "COMP-0001") else get entity_id id [])))
add-refines_example = add-refines entity_id duplicate_entity (sample_ir "COMP-0001") [] tt

same_answers :
    (id : String)
    → get entity_id id (sample_ir "COMP-0002" ∷ sample_ir "COMP-0001" ∷ [])
      ≡ get entity_id id (sample_ir "COMP-0001" ∷ sample_ir "COMP-0002" ∷ [])
unfolding get
same_answers id = swap entity_id id (sample_ir "COMP-0001") (sample_ir "COMP-0002") none refl

values-deterministic_example :
    values entity_id (sample_ir "COMP-0002" ∷ sample_ir "COMP-0001" ∷ [])
    ≡ values entity_id (sample_ir "COMP-0001" ∷ sample_ir "COMP-0002" ∷ [])
values-deterministic_example =
    values-deterministic entity_id (sample_ir "COMP-0002" ∷ sample_ir "COMP-0001" ∷ [])
      (sample_ir "COMP-0001" ∷ sample_ir "COMP-0002" ∷ []) (refl, (refl, tt)) (refl, (refl, tt))
      same_answers

abbrev sample_entities : List Entity
sample_entities =
    record { id = "ADR-L-0001"; entity_type = "adr"; canonical_source_ref = "ADR-L-0001" }
    ∷ record {
      id = "CAP-0001";
      entity_type = "capability";
      canonical_source_ref = "ADR-L-0001#CAP-0001";
    }
    ∷ []

-- json.dumps and hashlib's sha256.
abbrev same : String → String
same text = text

abbrev sample_result : Derivation
sample_result = record {
  relationships =
      relationship format same colon_joined sample_entities (
        edge "declared_in" "CAP-0001" "ADR-L-0001" "ADR-L-0001#CAP-0001"
          ("ADR-L-0001#CAP-0001" ∷ []))
      ∷ [];
  generator_gaps = [];
}

sample_run :
    derive_relationships format same colon_joined sample_entities [] [] [] ≡ ok sample_result
unfolding derive_relationships loops in_order each when skip ◌then◌ declared_in explicit_edge
    add_relationship relationship sorted_set distinct sort_with insert_with derive_assertion_id
    colon_joined before
sample_run = refl

infer_relationships-derive_relationships_example :
    values relationship_key (infer_relationships format same sample_result.relationships [])
    ≡ map (relationship_of format same) sample_result.relationships
infer_relationships-derive_relationships_example =
    infer_relationships-derive_relationships format same sample_entities [] [] [] sample_result
      sample_run

abbrev sample_state : PipelineState
sample_state = record {
  entities = [];
  relationships = [];
  unresolved = [];
  reference_source_refs = [];
}

abbrev sample_gaps : List DerivedGapSignal
sample_gaps =
    record {
      gap_id = "GAP-INV-DEC-0001-INV-0001";
      gap_type = "unresolved_reference";
      source_entity_id = "DEC-0001";
      severity = "medium";
      source_ref = "ADR-L-0001#DEC-0001";
      evidence = "ADR-L-0001" ∷ [];
      related_entity_id = some "INV-0001";
      expected_relationship = some "enforces";
    }
    ∷ []

abbrev sample_next : PipelineState
sample_next = record sample_state { unresolved = detect_unresolved sample_gaps }

run_unresolved_detection-IsDistinct_example :
    (run_unresolved_detection sample_gaps sample_state ≡ ok sample_next) ↔ (
      AreNew unresolved_id [] (detect_unresolved sample_gaps)
      × IsDistinct gap_key sample_gaps
      × (◌≡◌ {A = PipelineState} sample_next sample_next))
run_unresolved_detection-IsDistinct_example =
    run_unresolved_detection-IsDistinct sample_gaps sample_state sample_next

abbrev sample_filled : PipelineState
sample_filled = record sample_state { entities = sample_ir "COMP-0001" ∷ [] }

sample_added : add_entity (sample_ir "COMP-0001") false sample_state ≡ ok sample_filled
unfolding add_entity add get
sample_added = refl

add_entity-IsWellFormed_example : IsWellFormed sample_filled
add_entity-IsWellFormed_example =
    add_entity-IsWellFormed (sample_ir "COMP-0001") false sample_state sample_filled (tt, tt, tt)
      sample_added

state_add_relationship-get_example :
    let new =
      post_init format same
        (new_relationship "related_to" "COMP-0001" "COMP-0001" "ADR-PC-0001" explicit [] 100) in
    let after =
      state_add_relationship format same "related_to" "COMP-0001" "COMP-0001" "ADR-PC-0001" explicit
        [] 100 sample_filled in
    ((id : String)
      → get relationship_key id after.relationships
        ≡ first_of (get relationship_key id sample_filled.relationships) (
            if has_entity "COMP-0001" sample_filled
              && has_entity "COMP-0001" sample_filled
              && relationship_key new == id
            then some new
            else none))
    × (after.entities ≡ sample_filled.entities)
    × (after.reference_source_refs ≡ sample_filled.reference_source_refs)
state_add_relationship-get_example =
    state_add_relationship-get format same "related_to" "COMP-0001" "COMP-0001" "ADR-PC-0001"
      explicit [] 100 sample_filled
