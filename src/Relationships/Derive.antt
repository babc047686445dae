-- ===== src/Relationships/Derive.antt =====
-- src/adr_kit/compiler/passes/derive_relationships.py: `derive_relationships`, the whole pass.
use adr_architecture_kit.Base.{String, List, [], Result, ok, ◌>>=◌, sort_by}
use adr_architecture_kit.Relationships.Documents.{Entity, LogicalAdr, PhysicalAdr}
use adr_architecture_kit.Relationships.State.{
  DerivedRelationship, DerivedGapSignal, Derivation, DerivationError, Step, ◌then◌, each,
}
use adr_architecture_kit.Relationships.Logical.{declared_in, logical_edges}
use adr_architecture_kit.Relationships.Physical.{physical_edges}

abbrev pub no_relationships : Derivation
no_relationships = record { relationships = []; generator_gaps = [] }

abbrev pub relationship_key : DerivedRelationship → String
relationship_key item = item.relationship_id

abbrev pub gap_key : DerivedGapSignal → String
gap_key item = item.gap_id

-- The two sorts at the end.
unfoldable pub in_order : Derivation → Derivation
in_order s = record {
  relationships = sort_by relationship_key s.relationships;
  generator_gaps = sort_by gap_key s.generator_gaps;
}

module _ (dumps : List String → String) (sha256_hex : String → String)
    (relationship_id : String → String → String → String) (entities : List Entity)
    (system_ids : List (String × String)) where
  -- The three loops.
  unfoldable pub loops : List LogicalAdr → List PhysicalAdr → Step
  loops logical_adrs physical_adrs =
      each (declared_in dumps sha256_hex relationship_id entities) entities
      then each (logical_edges dumps sha256_hex relationship_id entities) logical_adrs
      then each (physical_edges dumps sha256_hex relationship_id entities system_ids) physical_adrs

  unfoldable pub derive_relationships :
      List LogicalAdr → List PhysicalAdr → Result DerivationError Derivation
  derive_relationships logical_adrs physical_adrs =
      loops logical_adrs physical_adrs no_relationships >>= λ s. ok (in_order s)
