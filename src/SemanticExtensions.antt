-- ===== src/SemanticExtensions.antt =====
-- src/adr_kit/semantic_extensions.py: the types and the alias prefixes of consumer extensions.
pub mod Grammar
pub mod Registrations
mod Tests
use adr_architecture_kit.Base.{
  ℕ, Option, none, some, List, [], ◌∷◌, ◌++◌, map, Bool, true, false, not, ◌&&◌, ◌||◌, leb, eqb,
  if◌then◌else◌, Result, ok, raise, ◌>>=◌, any, length, Text, codes, is_digit, is_lower, is_upper,
  same_text,
}
use adr_architecture_kit.Identity.{split_once, all_in, is_among}

pub data ExtensionValidationError : Type 0 where
  invalid_namespace : Text → ExtensionValidationError
  not_qualified : Text → ExtensionValidationError
  other_namespace : Text → ExtensionValidationError
  shadows_core_type : Text → ExtensionValidationError
  invalid_alias_id : Text → ExtensionValidationError
  reserved_prefix : Text → ExtensionValidationError
  registered_to_both : Text → ExtensionValidationError
  already_registered : Text → ExtensionValidationError

abbrev pub core_entity_types : List Text
core_entity_types = map codes (
    "adr" ∷ "system" ∷ "component" ∷ "decision" ∷ "capability" ∷ "invariant" ∷ "boundary"
    ∷ "contract" ∷ "constraint" ∷ "nfr" ∷ "gap" ∷ "interface" ∷ "integration"
    ∷ "implementation_decision" ∷ [])

abbrev pub core_relationship_types : List Text
core_relationship_types = map codes (
    "declared_in" ∷ "references" ∷ "related_to" ∷ "enforces" ∷ "enabled_by" ∷ "enables" ∷ "governs"
    ∷ "implemented_by" ∷ "embodied_in" ∷ "implements_logical" ∷ "supersedes" ∷ "superseded_by"
    ∷ "refines" ∷ "provides_interface" ∷ "composed_of" ∷ "binds_substrate" ∷ "binds_rule"
    ∷ "expects_evidence" ∷ [])

abbrev pub core_relationship_types_v22 : List Text
core_relationship_types_v22 =
    core_relationship_types
    ++ map codes (
        "depends_on" ∷ "calls" ∷ "publishes_to" ∷ "subscribes_to" ∷ "reads_from" ∷ "writes_to"
        ∷ "consumes_interface" ∷ [])

abbrev pub core_alias_prefixes : List Text
core_alias_prefixes = map codes (
    "ADR" ∷ "BOUND" ∷ "CAP" ∷ "COMP" ∷ "CONTRACT" ∷ "DEC" ∷ "GAP" ∷ "IFACE" ∷ "IMPL" ∷ "INV" ∷ "NFR"
    ∷ "REL" ∷ "SYS" ∷ [])

-- [A-Za-z0-9] and [A-Za-z0-9._-]
abbrev pub is_alphanumeric : ℕ → Bool
is_alphanumeric c = is_lower c || is_upper c || is_digit c

abbrev pub is_namespace_character : ℕ → Bool
is_namespace_character c = is_alphanumeric c || eqb c 46 || eqb c 95 || eqb c 45

-- ARCHITECTURE_NAMESPACE_RE.fullmatch
abbrev pub matches_namespace : Text → Bool
matches_namespace [] = false
matches_namespace (c ∷ text) = is_alphanumeric c && all_in is_namespace_character text

abbrev pub is_local_character : ℕ → Bool
is_local_character c = is_lower c || is_digit c || eqb c 95

-- [a-z][a-z0-9_]{1,63}
abbrev pub matches_local : Text → Bool
matches_local [] = false
matches_local (c ∷ text) =
    is_lower c && all_in is_local_character text && (leb 1 (length text) && leb (length text) 63)

unfoldable pub validate_architecture_namespace : Text → Result ExtensionValidationError Text
validate_architecture_namespace namespace =
    if not (matches_namespace namespace) then raise (invalid_namespace namespace) else ok namespace

abbrev pub matching_parts : Option (Text × Text) → Option (Text × Text)
matching_parts none = none
matching_parts (some parts) =
    if matches_namespace parts.0 && matches_local parts.1 then some parts else none

-- The groups of EXTENSION_TYPE_RE.fullmatch. No namespace and no local type has a colon, so the
-- first one stands between them.
unfoldable pub extension_parts : Text → Option (Text × Text)
unfolding split_once
extension_parts value = matching_parts (split_once (codes ":") value)

abbrev pub is_version : Text → Option Text → Bool
is_version version none = false
is_version version (some other) = same_text other version

unfoldable pub reserved_core_relationships : Option Text → Option Text → List Text
reserved_core_relationships authoring_version model_version =
    if is_version (codes "1.5") authoring_version || is_version (codes "2.2") model_version
    then core_relationship_types_v22
    else core_relationship_types

pub data Kind : Type 0 where
  entity : Kind
  relationship : Kind

unfoldable pub reserved_types : Kind → Option Text → Option Text → List Text
unfolding reserved_core_relationships
reserved_types entity authoring_version model_version = core_entity_types
reserved_types relationship authoring_version model_version =
    reserved_core_relationships authoring_version model_version

-- A namespace is wanted, and this is another one.
abbrev pub is_other : Text → Option Text → Bool
is_other namespace none = false
is_other namespace (some wanted) = not (same_text namespace wanted)

unfoldable pub validate_parts :
    Text → Option (Text × Text) → Option Text → List Text → Result ExtensionValidationError Text
validate_parts value none architecture_namespace reserved = raise (not_qualified value)
validate_parts value (some parts) architecture_namespace reserved =
    if is_other parts.0 architecture_namespace
    then raise (other_namespace parts.0)
    else if is_among parts.1 reserved
    then raise (shadows_core_type parts.1)
    else ok value

unfoldable pub validate_extension_type :
    Text → Option Text → Kind → Option Text → Option Text → Result ExtensionValidationError Text
unfolding extension_parts validate_parts reserved_types
validate_extension_type value architecture_namespace kind authoring_version model_version =
    validate_parts value (extension_parts value) architecture_namespace
      (reserved_types kind authoring_version model_version)

abbrev pub is_prefix_character : ℕ → Bool
is_prefix_character c = is_upper c || is_digit c

-- [A-Z][A-Z0-9]{0,15}
abbrev pub matches_prefix : Text → Bool
matches_prefix [] = false
matches_prefix (c ∷ text) = is_upper c && all_in is_prefix_character text && leb (length text) 15

-- The group of the full match of `{prefix}-\d{4}`, of ASCII digits.
abbrev pub alias_prefix : Option (Text × Text) → Option Text
alias_prefix none = none
alias_prefix (some parts) =
    if matches_prefix parts.0 && (eqb (length parts.1) 4 && all_in is_digit parts.1)
    then some parts.0
    else none

-- `registrations`, from types to prefixes
abbrev pub Registrations : Type 0
Registrations = List (Text × Text)

abbrev pub prior_of : Text → Registrations → Option Text
prior_of type [] = none
prior_of type (item ∷ items) = if same_text item.0 type then some item.1 else prior_of type items

abbrev pub differs : Text → Option Text → Bool
differs prefix none = false
differs prefix (some prior) = not (same_text prior prefix)

abbrev pub is_taken : Text → Text → Registrations → Bool
is_taken type prefix registrations =
    any (λ item. not (same_text item.0 type) && same_text item.1 prefix) registrations

unfoldable pub validate_prefix :
    Text → Option Text → Text → Registrations → List Text → Result ExtensionValidationError Text
validate_prefix type none alias_id registrations reserved = raise (invalid_alias_id alias_id)
validate_prefix type (some prefix) alias_id registrations reserved =
    if is_among prefix core_alias_prefixes || is_among prefix reserved
    then raise (reserved_prefix prefix)
    else if differs prefix (prior_of type registrations)
    then raise (registered_to_both prefix)
    else if is_taken type prefix registrations
    then raise (already_registered prefix)
    else ok prefix

-- Without registrations the source checks none, as with an empty mapping.
unfoldable pub validate_alias_registration :
    Text → Text → Option Text → Registrations → List Text → Result ExtensionValidationError Text
unfolding validate_extension_type validate_prefix split_once
validate_alias_registration semantic_type alias_id architecture_namespace registrations reserved =
    validate_extension_type semantic_type architecture_namespace entity none none >>= λ _.
    validate_prefix semantic_type (alias_prefix (split_once (codes "-") alias_id)) alias_id
      registrations reserved
