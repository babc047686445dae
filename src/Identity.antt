-- ===== src/Identity.antt =====
-- src/adr_kit/_uuidv7.py, src/adr_kit/identity.py and the entity URIs of
-- src/adr_kit/repository/provider_registry.py, over texts as code points.
pub mod Uri
pub mod AliasName
pub mod Providers
mod Tests
use adr_architecture_kit.Base.{
  ℕ, zero, suc, String, Option, none, some, List, [], ◌∷◌, ◌++◌, map, Bool, true, false, not, ◌&&◌,
  ◌||◌, if◌then◌else◌, ltb, leb, eqb, Result, ok, raise, ◌>>=◌, ◌>>◌, raise_if, any, filter, length,
  Text, codes, is_digit, is_lower, is_hex, same_text, is_prefix, drop_prefix, fits, at_dollar,
}

abbrev pub is_dash : ℕ → Bool
is_dash c = eqb c 45

abbrev pub is_variant : ℕ → Bool
is_variant c = eqb c 56 || eqb c 57 || eqb c 97 || eqb c 98

-- `count` classes before others
abbrev pub times : ℕ → (ℕ → Bool) → List (ℕ → Bool) → List (ℕ → Bool)
times zero class classes = classes
times (suc count) class classes = class ∷ times count class classes

-- [0-9a-f]{8}-[0-9a-f]{4}-7[0-9a-f]{3}-[89ab][0-9a-f]{3}-[0-9a-f]{12}
abbrev pub uuidv7_classes : List (ℕ → Bool)
uuidv7_classes = times 8 is_hex (
    is_dash
    ∷ times 4 is_hex (
        is_dash
        ∷ (λ c. eqb c 55)
        ∷ times 3 is_hex (is_dash ∷ is_variant ∷ times 3 is_hex (is_dash ∷ times 12 is_hex []))))

-- bool(UUIDV7_PATTERN.match(text))
unfoldable pub matches_uuidv7 : Text → Bool
matches_uuidv7 text = fits at_dollar uuidv7_classes text

pub data IdentityError : Type 0 where
  not_uuidv7 : Text → IdentityError
  length_out_of_range : ℕ → IdentityError
  no_alias_name : Text → IdentityError
  uuid_shaped : IdentityError
  reserved_name : Text → IdentityError
  repeats_type : Text → IdentityError

-- `uuid_parse value` is `uuid.UUID(value)` as its version and its text, `none` if it raises.
module _ (uuid_parse : Text → Option (ℕ × Text)) where
  unfoldable pub is_version_7 : Text → Bool
  is_version_7 value = elim (uuid_parse value) [
    | none ↦ false
    | some parsed ↦ eqb parsed.0 7 && same_text parsed.1 value
  ]

  unfoldable pub validate_uuidv7 : Text → Result IdentityError Text
  unfolding matches_uuidv7 is_version_7
  validate_uuidv7 value =
      if not (matches_uuidv7 value)
      then raise (not_uuidv7 value)
      else if not (is_version_7 value)
      then raise (not_uuidv7 value)
      else ok value

  -- f"adr://{architecture_namespace}/entities/{uuid}"
  unfoldable pub derive_entity_uri : Text → Text → Result IdentityError Text
  unfolding validate_uuidv7
  derive_entity_uri architecture_namespace uuid = validate_uuidv7 uuid >>= λ _.
      ok (codes "adr://" ++ (architecture_namespace ++ (codes "/entities/" ++ uuid)))

  -- f"{relationship_type}:{source_uuid}:{target_uuid}"
  unfoldable pub derive_relationship_id_v13 : Text → Text → Text → Result IdentityError Text
  unfolding validate_uuidv7
  derive_relationship_id_v13 relationship_type source_uuid target_uuid =
      validate_uuidv7 source_uuid >>= λ _. validate_uuidv7 target_uuid >>= λ _.
      ok (relationship_type ++ (codes ":" ++ (source_uuid ++ (codes ":" ++ target_uuid))))

-- f"{alias_id}:{alias_name}"
unfoldable pub derive_alias_ref : Text → Text → Text
derive_alias_ref alias_id alias_name = alias_id ++ (codes ":" ++ alias_name)

-- remainder.split(marker, 1), if the marker is in the text
unfoldable pub split_once : Text → Text → Option (Text × Text)
split_once marker [] = if is_prefix marker [] then some ([], []) else none
split_once marker (c ∷ text) =
    let rest = split_once marker text in
    if is_prefix marker (c ∷ text)
    then some ([], drop_prefix marker (c ∷ text))
    else elim rest [ none ↦ none | some parts ↦ some (c ∷ parts.0, parts.1) ]

pub data UriError : Type 0 where
  not_entity_uri : Text → UriError

abbrev pub is_blank : Text → Bool
is_blank [] = true
is_blank (c ∷ text) = false

unfoldable pub checked_parts : Text → Option (Text × Text) → Result UriError (Text × Text)
checked_parts uri none = raise (not_entity_uri uri)
checked_parts uri (some parts) =
    if is_blank parts.0 || not (matches_uuidv7 parts.1)
    then raise (not_entity_uri uri)
    else ok parts

unfoldable pub parse_entity_uri : Text → Result UriError (Text × Text)
unfolding checked_parts split_once
parse_entity_uri uri =
    if not (is_prefix (codes "adr://") uri)
    then raise (not_entity_uri uri)
    else checked_parts uri (split_once (codes "/entities/") (drop_prefix (codes "adr://") uri))

abbrev pub is_word : ℕ → Bool
is_word c = is_lower c || is_digit c

-- The rest of ^[a-z][a-z0-9]*(?:-[a-z0-9]+)*$ after a dash or after another character.
unfoldable pub alias_rest : Bool → Text → Bool
alias_rest dashed [] = not dashed
alias_rest dashed (c ∷ text) =
    let after = alias_rest (is_dash c) text in
    if is_word c || is_dash c && not dashed then after else not dashed && at_dollar (c ∷ text)

unfoldable pub matches_alias_name : Text → Bool
unfolding alias_rest
matches_alias_name [] = false
matches_alias_name (c ∷ text) = is_lower c && alias_rest false text

abbrev pub all_in : (ℕ → Bool) → Text → Bool
all_in class [] = true
all_in class (c ∷ text) = class c && all_in class text

-- text in texts
abbrev pub is_among : Text → List Text → Bool
is_among text texts = any (λ other. same_text other text) texts

abbrev pub reserved_names : List Text
reserved_names = map codes (
    "decision" ∷ "system" ∷ "repository" ∷ "identity" ∷ "entity" ∷ "component" ∷ "capability"
    ∷ "invariant" ∷ "boundary" ∷ "contract" ∷ "interface" ∷ "adr" ∷ [])

-- name.replace("-", "")
abbrev pub hex_only : Text → Text
hex_only name = filter (λ c. not (is_dash c)) name

-- `lower` is str.lower; `_ENTITY_TYPE_SEGMENTS` gives each of its keys itself.
module _ (lower : Text → Text) where
  abbrev pub repeats : Text → Option Text → Bool
  repeats name none = false
  repeats name (some entity_type) = same_text name (lower entity_type)

  unfoldable pub validate_alias_name : Text → Option Text → Result IdentityError Text
  unfolding matches_alias_name matches_uuidv7
  validate_alias_name name entity_type =
      if ltb (length name) 3 || ltb 96 (length name)
      then raise (length_out_of_range (length name))
      else if not (matches_alias_name name)
      then raise (no_alias_name name)
      else if matches_uuidv7 name
      then raise uuid_shaped
      else if eqb (length (hex_only name)) 32 && all_in is_hex (hex_only name)
      then raise uuid_shaped
      else if is_among name reserved_names
      then raise (reserved_name name)
      else if repeats name entity_type
      then raise (repeats_type name)
      else ok name
