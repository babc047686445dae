-- ===== src/BundleValidation.antt =====
-- src/adr_kit/compiler/diagnostics.py: the log of diagnostics, and
-- src/adr_kit/compiler/passes/validate_bundle.py: the integrity checks of a registry bundle.
mod Correctness
mod Ordering
mod Tests
use adr_architecture_kit.Base.{
  ℕ, String, Option, none, some, List, [], ◌∷◌, ◌++◌, map, Bool, true, false, not, ◌&&◌, ◌||◌, ◌==◌,
  texts_le, text_le, ltb, eqb, if◌then◌else◌, any, contains, IsDistinct, sort_by, sort_with,
  distinct, filter, count, length, format,
}

pub data DiagnosticLevel : Type 0 where
  info : DiagnosticLevel
  warning : DiagnosticLevel
  error : DiagnosticLevel

abbrev pub int : DiagnosticLevel → ℕ
int info = 10
int warning = 20
int error = 30

pub record Diagnostic : Type 0 where
  pub level : DiagnosticLevel
  pub code : String
  pub message : String
  pub path : Option String
  pub source_ref : Option String

abbrev pub or_blank : Option String → String
or_blank none = ""
or_blank (some text) = text

abbrev pub sort_texts : Diagnostic → List String
sort_texts item = or_blank item.path ∷ or_blank item.source_ref ∷ item.code ∷ item.message ∷ []

-- a.sort_key() <= b.sort_key()
abbrev pub sort_key_le : Diagnostic → Diagnostic → Bool
sort_key_le a b =
    if eqb (int a.level) (int b.level)
    then texts_le (sort_texts a) (sort_texts b)
    else ltb (int a.level) (int b.level)

-- The list of a `DiagnosticLog`.
abbrev pub DiagnosticLog : Type 0
DiagnosticLog = List Diagnostic

-- log.error(code, message, source_ref=source_ref), of a log without paths
unfoldable pub log_error : String → String → String → DiagnosticLog → DiagnosticLog
log_error code message source_ref log =
    log
    ++ record {
      level = error;
      code = code;
      message = message;
      path = none;
      source_ref = some source_ref;
    }
      ∷ []

unfoldable pub as_list : DiagnosticLog → List Diagnostic
as_list log = sort_with sort_key_le log

abbrev pub is_error : Diagnostic → Bool
is_error item = eqb (int item.level) 30

unfoldable pub has_errors : DiagnosticLog → Bool
has_errors log = any is_error log

-- BundleValidationResult.is_valid and first_error
unfoldable pub is_valid : List Diagnostic → Bool
is_valid diagnostics = not (any is_error diagnostics)

unfoldable pub first_error : List Diagnostic → Option Diagnostic
first_error [] = none
first_error (item ∷ items) =
    let rest = first_error items in if is_error item then some item else rest

-- `relationships` is `relationships.model_dump(mode="json").items()`.
pub record EntityRecord : Type 0 where
  pub id : String
  pub relationships : List (String × List String)

pub record RelationshipRecord : Type 0 where
  pub relationship_id : String
  pub relationship_type : String
  pub from_entity_id : String
  pub to_entity_id : String
  pub target_scope : Option String

pub record UnresolvedRecord : Type 0 where
  pub id : String
  pub source_entity_id : String

abbrev pub is_entity : List EntityRecord → String → Bool
is_entity entities id = any (λ entity. entity.id == id) entities

-- (relationship_type, from_id, to_id) in relationship_keys
abbrev pub is_key : List RelationshipRecord → String → String → String → Bool
is_key relationships relationship_type from_id to_id =
    any
      (λ item.
        item.relationship_type == relationship_type
        && item.from_entity_id == from_id
        && item.to_entity_id == to_id)
      relationships

abbrev pub external_target_is_allowed : Option String → Bool
external_target_is_allowed none = false
external_target_is_allowed (some scope) = scope == "external" || scope == "expectation"

-- `", ".join(ids)`
abbrev pub joined : List String → String
joined [] = ""
joined (id ∷ []) = id
joined (id ∷ other ∷ ids) = format (id ∷ ", " ∷ joined (other ∷ ids) ∷ [])

-- ids.count(id) > 1
abbrev pub is_repeated : List String → String → Bool
is_repeated ids id = ltb 1 (count id ids)

-- sorted(item for item in set(ids) if ids.count(item) > 1)
unfoldable pub duplicates_of : List String → List String
duplicates_of ids = sort_by (λ id. id) (filter (is_repeated ids) (distinct ids))

abbrev pub unresolved_ids : List UnresolvedRecord → List String
unresolved_ids unresolved = map (λ item. item.id) unresolved

unfoldable pub check_unresolved_ids : List UnresolvedRecord → DiagnosticLog → DiagnosticLog
unfolding duplicates_of
check_unresolved_ids unresolved log =
    let ids = unresolved_ids unresolved in
    if not (eqb (length ids) (length (distinct ids)))
    then log_error "E401"
        (format ("Duplicate unresolved IDs detected: " ∷ joined (duplicates_of ids) ∷ []))
        "unresolved_registry" log
    else log

module _ (entities : List EntityRecord) (relationships : List RelationshipRecord) where
  abbrev pub is_dangling : RelationshipRecord → Bool
  is_dangling item =
      not (is_entity entities item.from_entity_id)
      || not (is_entity entities item.to_entity_id)
        && not (external_target_is_allowed item.target_scope)

  unfoldable pub check_relationships : List RelationshipRecord → DiagnosticLog → DiagnosticLog
  check_relationships [] log = log
  check_relationships (item ∷ items) log = check_relationships items (
      if is_dangling item
      then log_error "E402"
          (format ("Relationship references unknown entity: " ∷ item.relationship_id ∷ []))
          item.relationship_id log
      else log)

  unfoldable pub check_target : EntityRecord → String → String → DiagnosticLog → DiagnosticLog
  check_target entity relationship_type target_id log =
      let place = format (entity.id ∷ "." ∷ relationship_type ∷ []) in
      if not (is_entity entities target_id)
      then log_error "E403"
          (format (
            "Entity relationship summary references unknown entity: " ∷ place ∷ " -> " ∷ target_id
            ∷ []))
          place log
      else if not (is_key relationships relationship_type entity.id target_id)
      then log_error "E404"
          (format (
            "Entity relationship summary missing registry edge: " ∷ place ∷ " -> " ∷ target_id
            ∷ []))
          place log
      else log

  unfoldable pub check_targets : EntityRecord → String → List String → DiagnosticLog → DiagnosticLog
  unfolding check_target
  check_targets entity relationship_type [] log = log
  check_targets entity relationship_type (target_id ∷ targets) log =
      check_targets entity relationship_type targets
        (check_target entity relationship_type target_id log)

  unfoldable pub check_summary :
      EntityRecord → List (String × List String) → DiagnosticLog → DiagnosticLog
  unfolding check_targets
  check_summary entity [] log = log
  check_summary entity (item ∷ items) log =
      check_summary entity items (check_targets entity item.0 item.1 log)

  unfoldable pub check_entities : List EntityRecord → DiagnosticLog → DiagnosticLog
  unfolding check_summary
  check_entities [] log = log
  check_entities (entity ∷ others) log =
      check_entities others (check_summary entity entity.relationships log)

  unfoldable pub check_unresolved : List UnresolvedRecord → DiagnosticLog → DiagnosticLog
  check_unresolved [] log = log
  check_unresolved (item ∷ items) log = check_unresolved items (
      if is_entity entities item.source_entity_id
      then log
      else log_error "E405"
          (format (
            "Unresolved record references unknown source entity: " ∷ item.id ∷ " -> "
            ∷ item.source_entity_id ∷ []))
          item.id log)

-- The diagnostics of the result; `log` holds those of the log that the caller passes.
unfoldable pub validate_bundle :
    List EntityRecord
    → List RelationshipRecord
    → List UnresolvedRecord
    → DiagnosticLog
    → List Diagnostic
unfolding check_unresolved_ids check_relationships check_entities check_unresolved as_list
validate_bundle entities relationships unresolved log = as_list (
    check_unresolved entities relationships unresolved (
      check_entities entities relationships entities (
        check_relationships entities relationships relationships
          (check_unresolved_ids unresolved log))))
