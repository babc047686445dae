-- ===== src/IntegrityHeaders.antt =====
-- src/adr_kit/integrity/core.py: the integrity headers of generated files, built and parsed.
pub mod YamlHeader
mod Tests
use adr_architecture_kit.Base.{
  ℕ, Option, none, some, List, [], ◌∷◌, ◌++◌, map, Bool, true, false, not, ◌&&◌, ◌||◌, eqb,
  if◌then◌else◌, Result, ok, raise, ◌>>=◌, any, length, Text, codes, is_digit, same_text, is_prefix,
  drop_prefix,
}
use adr_architecture_kit.Identity.{split_once, all_in, is_among}

pub data IntegrityHeaderError : Type 0 where
  fields_do_not_match : IntegrityHeaderError
  not_closed : IntegrityHeaderError
  header_not_found : IntegrityHeaderError
  unexpected_field_count : IntegrityHeaderError
  malformed_line : IntegrityHeaderError
  invalid_order : IntegrityHeaderError
  duplicate_field : IntegrityHeaderError
  unsupported_version : IntegrityHeaderError
  invalid_marker : IntegrityHeaderError
  unsupported_algorithm : IntegrityHeaderError
  kind_mismatch : IntegrityHeaderError
  unsupported_kind : IntegrityHeaderError
  version_not_integer : IntegrityHeaderError

abbrev pub Fields : Type 0
Fields = List (Text × Text)

abbrev pub header_field_order : List Text
header_field_order = map codes (
    "integrity_schema_version" ∷ "generated" ∷ "artifact_kind" ∷ "generator_id"
    ∷ "generator_version" ∷ "hash_algorithm" ∷ "source_hash" ∷ "rendered_hash" ∷ [])

-- fields[key], blank where the source has made sure that the key is there
abbrev pub field : Text → Fields → Text
field key [] = []
field key (item ∷ items) =
    let rest = field key items in if same_text item.0 key then item.1 else rest

abbrev pub every : (Text → Bool) → List Text → Bool
every test [] = true
every test (x ∷ xs) = test x && every test xs

abbrev pub keys : Fields → List Text
keys fields = map (λ item. item.0) fields

-- f"{field}: {value}"
abbrev pub header_line : Fields → Text → Text
header_line fields key = key ++ (codes ": " ++ field key fields)

unfoldable pub ordered_header_lines : Fields → Result IntegrityHeaderError (List Text)
ordered_header_lines fields =
    if not (
      every (λ key. is_among key header_field_order) (keys fields)
      && every (λ key. is_among key (keys fields)) header_field_order)
    then raise fields_do_not_match
    else ok (map (header_line fields) header_field_order)

-- "\n".join(lines)
unfoldable pub joined_lines : List Text → Text
joined_lines [] = []
joined_lines (line ∷ []) = line
joined_lines (line ∷ other ∷ lines) = line ++ (codes "\n" ++ joined_lines (other ∷ lines))

unfoldable pub build_markdown_header : Fields → Result IntegrityHeaderError Text
unfolding ordered_header_lines joined_lines
build_markdown_header fields = ordered_header_lines fields >>= λ lines.
    ok (codes "<!--\n" ++ (joined_lines lines ++ codes "\n-->\n\n"))

-- "".join(f"# {line}\n" for line in lines) + end
unfoldable pub comment_lines : List Text → Text → Text
comment_lines [] end = end
comment_lines (line ∷ lines) end = codes "# " ++ (line ++ (codes "\n" ++ comment_lines lines end))

unfoldable pub build_yaml_header : Fields → Result IntegrityHeaderError Text
unfolding ordered_header_lines comment_lines
build_yaml_header fields =
    ordered_header_lines fields >>= λ lines. ok (comment_lines lines (codes "\n"))

-- What str.splitlines takes for the end of a line.
abbrev pub is_break : ℕ → Bool
is_break c =
    eqb c 10
    || eqb c 11
    || eqb c 12
    || eqb c 13
    || eqb c 28
    || eqb c 29
    || eqb c 30
    || eqb c 133
    || eqb c 8232
    || eqb c 8233

abbrev pub attach : ℕ → List Text → List Text
attach c [] = (c ∷ []) ∷ []
attach c (line ∷ lines) = (c ∷ line) ∷ lines

-- text.splitlines(), where the character before was a carriage return or not
unfoldable pub lines_from : Bool → Text → List Text
lines_from after_return [] = []
lines_from after_return (c ∷ text) =
    let swallowed = lines_from false text in
    let next = lines_from (eqb c 13) text in
    if after_return && eqb c 10
    then swallowed
    else if is_break c
    then [] ∷ next
    else attach c swallowed

-- The lines up to the first without "# ", without that.
unfoldable pub marked_lines : List Text → List Text
marked_lines [] = []
marked_lines (line ∷ lines) =
    let rest = marked_lines lines in
    if is_prefix (codes "# ") line then drop_prefix (codes "# ") line ∷ rest else []

abbrev pub found_lines : List Text → Result IntegrityHeaderError (List Text)
found_lines [] = raise header_not_found
found_lines (line ∷ lines) = ok (line ∷ lines)

unfoldable pub raw_lines : Text → Result IntegrityHeaderError (List Text)
unfolding lines_from marked_lines split_once
raw_lines text =
    if is_prefix (codes "<!--\n") text
    then (elim (split_once (codes "\n-->\n") text) [
      | none ↦ raise not_closed
      | some parts ↦ ok (lines_from false (drop_prefix (codes "<!--\n") parts.0))
    ])
    else found_lines (marked_lines (lines_from false text))

-- One line, by the key that is expected and what was parsed before.
unfoldable pub parse_line : Text → Text → Fields → Result IntegrityHeaderError (Text × Text)
unfolding split_once
parse_line expected line parsed = elim (split_once (codes ": ") line) [
  | none ↦ raise malformed_line
  | some item ↦
      if not (same_text item.0 expected)
      then raise invalid_order
      else if is_among item.0 (keys parsed)
      then raise duplicate_field
      else ok item
]

-- The loop over the lines, of which there are as many as expected keys.
unfoldable pub parse_lines : List Text → List Text → Fields → Result IntegrityHeaderError Fields
unfolding parse_line
parse_lines [] lines parsed = ok parsed
parse_lines (expected ∷ order) [] parsed = ok parsed
parse_lines (expected ∷ order) (line ∷ lines) parsed =
    parse_line expected line parsed >>= λ item. parse_lines order lines (parsed ++ (item ∷ []))

-- `kinds` are the values of ArtifactKind.
abbrev pub kinds : List Text
kinds = map codes (
    "manifest" ∷ "architecture_graph" ∷ "legacy_entity_registry" ∷ "rendered_adr_markdown"
    ∷ "system_overview" ∷ [])

-- A hint is the value of a kind. `str.isdigit` is modelled for ASCII texts.
abbrev pub contradicts : Option Text → Text → Bool
contradicts none kind = false
contradicts (some hint) kind = not (same_text kind hint)

abbrev pub is_digits : Text → Bool
is_digits [] = false
is_digits (c ∷ text) = all_in is_digit (c ∷ text)

unfoldable pub check_fields : Option Text → Fields → Result IntegrityHeaderError Fields
check_fields hint parsed =
    if not (same_text (field (codes "integrity_schema_version") parsed) (codes "1"))
    then raise unsupported_version
    else if not (same_text (field (codes "generated") parsed) (codes "deterministic_projection_v1"))
    then raise invalid_marker
    else if not (same_text (field (codes "hash_algorithm") parsed) (codes "sha256"))
    then raise unsupported_algorithm
    else if contradicts hint (field (codes "artifact_kind") parsed)
    then raise kind_mismatch
    else if not (is_among (field (codes "artifact_kind") parsed) kinds)
    then raise unsupported_kind
    else if not (is_digits (field (codes "generator_version") parsed))
    then raise version_not_integer
    else ok parsed

unfoldable pub parse_integrity_header : Text → Option Text → Result IntegrityHeaderError Fields
unfolding raw_lines parse_lines check_fields
parse_integrity_header text hint = raw_lines text >>= λ lines.
    if not (eqb (length lines) (length header_field_order))
    then raise unexpected_field_count
    else (parse_lines header_field_order lines [] >>= λ parsed. check_fields hint parsed)
