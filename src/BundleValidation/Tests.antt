-- ===== src/BundleValidation/Tests.antt =====
-- A sound bundle, and one with a dangling relationship.
use adr_architecture_kit.Base.{
  none, some, List, [], ◌∷◌, true, false, ◌≡◌, refl, ◌↔◌, IsOrdered, sort_with, insert_with,
  distinct,
}
use adr_architecture_kit.BundleValidation.{
  DiagnosticLog, error, warning, log_error, as_list, is_valid, EntityRecord, RelationshipRecord,
  UnresolvedRecord, check_unresolved_ids, check_relationships, check_target, check_targets,
  check_summary, check_entities, check_unresolved, validate_bundle,
}
use mathlib.Core.List.{Perm}
use adr_architecture_kit.BundleValidation.Ordering.{comes_first, as_list-IsOrdered}
use adr_architecture_kit.BundleValidation.Correctness.{
  IsClean, IsSoundBundle, validate_bundle-IsSoundBundle,
}

abbrev sample_entities : List EntityRecord
sample_entities =
    record { id = "DEC-0001"; relationships = ("enables", "CAP-0001" ∷ []) ∷ [] }
    ∷ record { id = "CAP-0001"; relationships = [] }
    ∷ []

abbrev enables : RelationshipRecord
enables = record {
  relationship_id = "enables:DEC-0001:CAP-0001";
  relationship_type = "enables";
  from_entity_id = "DEC-0001";
  to_entity_id = "CAP-0001";
  target_scope = none;
}

abbrev dangling : RelationshipRecord
dangling = record enables {
  relationship_id = "enables:DEC-0001:CAP-0002";
  to_entity_id = "CAP-0002";
}

abbrev unresolved_one : UnresolvedRecord
unresolved_one = record { id = "UNRES-1"; source_entity_id = "DEC-0001" }

dangling_refused :
    is_valid (validate_bundle sample_entities (enables ∷ dangling ∷ []) (unresolved_one ∷ []) [])
    ≡ false
unfolding is_valid validate_bundle as_list check_unresolved_ids check_relationships check_target
    check_targets check_summary check_entities check_unresolved log_error sort_with insert_with
    distinct
dangling_refused = refl

validate_bundle-IsSoundBundle_example :
    (is_valid (validate_bundle sample_entities (enables ∷ []) (unresolved_one ∷ []) []) ≡ true)
    ↔ (IsClean [] × IsSoundBundle sample_entities (enables ∷ []) (unresolved_one ∷ []))
validate_bundle-IsSoundBundle_example =
    validate_bundle-IsSoundBundle sample_entities (enables ∷ []) (unresolved_one ∷ []) []

abbrev two_diagnostics : DiagnosticLog
two_diagnostics =
    record { level = error; code = "E402"; message = "m"; path = none; source_ref = some "b" }
    ∷ record { level = warning; code = "W1"; message = "m"; path = none; source_ref = none }
    ∷ []

as_list-IsOrdered_example :
    IsOrdered comes_first (as_list two_diagnostics) × Perm (as_list two_diagnostics) two_diagnostics
as_list-IsOrdered_example = as_list-IsOrdered two_diagnostics
