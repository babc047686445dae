-- ===== src/CanonicalInvariants.antt =====
-- src/adr_kit/compiler/passes/resolve_invariant_canonical.py: the one definition of each invariant.
pub mod Uniqueness
mod Tests
use text.Mathlib.Text.{starts_with}
use adr_architecture_kit.Base.{
  ℕ, String, Option, none, some, List, [], ◌∷◌, map, Bool, true, false, not, ◌&&◌, ◌||◌, ◌==◌, ltb,
  eqb, texts_le, if◌then◌else◌, Result, ok, raise, ◌>>=◌, any, filter, length, sort_with, distinct,
  before, characters, codes,
}
use adr_architecture_kit.Identity.{matches_uuidv7}
use adr_architecture_kit.Compiler.{SourceRef, CanonicalSource}
use adr_architecture_kit.Compiler.Pipeline.{mention_le}
use adr_architecture_kit.Topology.{is_empty}

-- A mention: the fields of its payload that the pass reads, its artifact and its source.
pub record Mention : Type 0 where
  pub statement : Option String
  pub name : String
  pub summary : String
  pub lifecycle_stage : String
  pub artifact : String
  pub source_ref : String

pub data ResolutionError : Type 0 where
  duplicate_definition : String → ResolutionError
  semantic_collision : String → ResolutionError
  standalone_authority_retired : String → ResolutionError
  no_definition : String → ResolutionError

pub record InvariantEntity : Type 0 where
  pub id : String
  pub name : String
  pub summary : String
  pub lifecycle_stage : String
  pub canonical_source : CanonicalSource

pub record CanonicalInvariantSelection : Type 0 where
  pub entity : InvariantEntity
  pub reference_source_refs : List SourceRef

unfoldable pub is_logical_adr_source_ref : String → Bool
unfolding matches_uuidv7
is_logical_adr_source_ref source_ref =
    let owner = before "#" source_ref in starts_with owner "ADR-" || matches_uuidv7 (codes owner)

abbrev pub is_standalone_definition : String → Mention → Bool
is_standalone_definition inv_id item = item.source_ref == inv_id

-- "#" in source_ref, and it is the one of a logical ADR
unfoldable pub is_adr_definition : Mention → Bool
unfolding is_logical_adr_source_ref
is_adr_definition item =
    any (λ c. c == "#") (characters item.source_ref) && is_logical_adr_source_ref item.source_ref

abbrev pub is_definition : String → Mention → Bool
is_definition inv_id item = is_adr_definition item || is_standalone_definition inv_id item

abbrev pub statement_payload : Mention → String
statement_payload item = elim item.statement [ none ↦ item.summary | some statement ↦ statement ]

-- len(set(statements)) == 1
abbrev pub all_alike : List Mention → Bool
all_alike items = eqb (length (distinct (map statement_payload items))) 1

unfoldable pub source_ref_of : Mention → SourceRef
unfolding is_logical_adr_source_ref
source_ref_of item = record {
  source_type = if is_logical_adr_source_ref item.source_ref then "logical_adr" else "derived";
  source_ref = item.source_ref;
  artifact_path = item.artifact;
  mention_role = "reference";
}

-- The selection of a definition; a mention is a definition by its source, so the references are the
-- mentions that are none.
unfoldable pub selection : String → List Mention → Mention → CanonicalInvariantSelection
unfolding source_ref_of is_adr_definition
selection inv_id mentions definition = record {
  entity = record {
    id = inv_id;
    name = definition.name;
    summary = definition.summary;
    lifecycle_stage = definition.lifecycle_stage;
    canonical_source = record {
      source_type = "logical_adr";
      source_ref = definition.source_ref;
      artifact_path = definition.artifact;
    };
  };
  reference_source_refs =
      sort_with mention_le
        (map source_ref_of (filter (λ item. not (is_definition inv_id item)) mentions));
}

-- adr_defs[0]; no call has an empty list
unfoldable pub select_first :
    String → List Mention → List Mention → Result ResolutionError CanonicalInvariantSelection
unfolding selection
select_first inv_id mentions [] = raise (no_definition inv_id)
select_first inv_id mentions (definition ∷ definitions) = ok (selection inv_id mentions definition)

-- The body of the loop, by the mentions, the definitions, and the standalone and ADR ones of them.
unfoldable pub resolve_definitions :
    String
    → List Mention
    → List Mention
    → List Mention
    → List Mention
    → Result ResolutionError CanonicalInvariantSelection
unfolding select_first
resolve_definitions inv_id mentions definitions standalone_defs adr_defs =
    if not (is_empty standalone_defs)
    then (if not (is_empty adr_defs) || ltb 1 (length standalone_defs)
        then (if all_alike definitions && ltb 1 (length definitions)
            then raise (duplicate_definition inv_id)
            else raise (semantic_collision inv_id))
        else raise (standalone_authority_retired inv_id))
    else if eqb (length adr_defs) 0
    then raise (no_definition inv_id)
    else if ltb 1 (length adr_defs)
    then (if all_alike adr_defs
        then raise (duplicate_definition inv_id)
        else raise (semantic_collision inv_id))
    else select_first inv_id mentions adr_defs

unfoldable pub resolve_invariant :
    String → List Mention → Result ResolutionError CanonicalInvariantSelection
unfolding is_adr_definition resolve_definitions
resolve_invariant inv_id mentions =
    let definitions = filter (is_definition inv_id) mentions in
    resolve_definitions inv_id mentions definitions
      (filter (is_standalone_definition inv_id) definitions) (filter is_adr_definition definitions)

-- `invariant_mentions` has no key twice; a selection carries the entity and its key.
unfoldable pub resolve_invariant_canonical :
    List (String × List Mention) → Result ResolutionError (List CanonicalInvariantSelection)
unfolding resolve_invariant
resolve_invariant_canonical [] = ok []
resolve_invariant_canonical (entry ∷ entries) = resolve_invariant entry.0 entry.1 >>= λ first.
    resolve_invariant_canonical entries >>= λ rest. ok (first ∷ rest)
