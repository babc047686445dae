-- ===== src/Relationships/State.antt =====
-- src/adr_kit/compiler/passes/derive_relationships.py: what the pass builds, and its two closures
-- `add_relationship` and `add_gap` as steps that may raise.
use adr_architecture_kit.Base.{
  ℕ, ◌+◌, String, Option, none, some, List, [], ◌∷◌, ◌++◌, Bool, false, not, ◌&&◌, ◌||◌, ◌==◌,
  if◌then◌else◌, Result, ok, ◌>>=◌, any, format, sorted_set,
}
use adr_architecture_kit.Relationships.Documents.{Entity}

pub record QualifiedReference : Type 0 where
  pub namespace : String
  pub id : String
  pub kind : String
  pub fingerprint : String
  pub qualified_id : String

pub data BindingReference : Type 0 where
  local_reference : String → BindingReference
  qualified : QualifiedReference → BindingReference

-- The dictionaries that the pass passes as `metadata`.
pub data Metadata : Type 0 where
  empty : Metadata
  edge_notes : Option String → Option String → Metadata
  substrate :
      QualifiedReference
      → String
      → Option String
      → String
      → String
      → Option String
      → List BindingReference
      → Metadata
  rule :
      QualifiedReference
      → String
      → String
      → Option String
      → Option String
      → Option String
      → List BindingReference
      → Option String
      → Metadata
  expectation : String → String → List BindingReference → Bool → Metadata

-- metadata.get("target_scope")
abbrev pub target_scope : Metadata → Option String
target_scope (substrate _ _ _ _ _ _ _) = some "external"
target_scope (rule _ _ _ _ _ _ _ _) = some "external"
target_scope (expectation _ _ _ _) = some "expectation"
target_scope _ = none

-- target_scope in {"external", "expectation"}
abbrev pub allows_missing : Option String → Bool
allows_missing none = false
allows_missing (some scope) = scope == "external" || scope == "expectation"

pub data Classification : Type 0 where
  explicit : Classification
  derived : Classification

-- `confidence` in percent
pub record DerivedRelationship : Type 0 where
  pub relationship_id : String
  pub assertion_id : String
  pub relationship_type : String
  pub from_entity_id : String
  pub to_entity_id : String
  pub provenance_classification : Classification
  pub evidence : List String
  pub canonical_source_ref : String
  pub source_pointer : Option String
  pub confidence : ℕ
  pub metadata : Metadata

pub record DerivedGapSignal : Type 0 where
  pub gap_id : String
  pub gap_type : String
  pub source_entity_id : String
  pub severity : String
  pub source_ref : String
  pub evidence : List String
  pub related_entity_id : Option String
  pub expected_relationship : Option String

-- `relationships.values()` in the order of insertion, and `result.generator_gaps`.
pub record Derivation : Type 0 where
  pub relationships : List DerivedRelationship
  pub generator_gaps : List DerivedGapSignal

pub data DerivationError : Type 0 where
  unresolved_reference : String → String → String → DerivationError
  missing_system : String → DerivationError

abbrev pub Step : Type 0
Step = Derivation → Result DerivationError Derivation

unfoldable pub skip : Step
skip s = ok s

infixr 4 ◌then◌
unfoldable pub ◌then◌ : Step → Step → Step
(m then k) s = m s >>= k

-- if test: m
unfoldable pub when : Bool → Step → Step
unfolding skip
when test m = if test then m else skip

-- for x in xs: f(x)
unfoldable pub each {ℓ} : {A : Type ℓ} → (A → Step) → List A → Step
unfolding skip ◌then◌
each f [] = skip
each f (x ∷ xs) = f x then each f xs

-- for index, x in enumerate(xs): f(index, x)
unfoldable pub each_from {ℓ} : {A : Type ℓ} → (ℕ → A → Step) → ℕ → List A → Step
unfolding skip ◌then◌
each_from f index [] = skip
each_from f index (x ∷ xs) = f index x then each_from f (index + 1) xs

-- A step that first computes a value, or raises.
unfoldable pub given : {A : Type 0} → Result DerivationError A → (A → Step) → Step
given r f s = r >>= λ a. f a s

-- if value is not None: f(value)
unfoldable pub for_some : {A : Type 0} → Option A → (A → Step) → Step
unfolding skip
for_some none f = skip
for_some (some a) f = f a

abbrev pub known : List Entity → String → Bool
known entities id = any (λ entity. entity.id == id) entities

abbrev pub has_id : String → List DerivedRelationship → Bool
has_id id relationships = any (λ item. item.relationship_id == id) relationships

-- The arguments of `add_relationship`.
pub record Candidate : Type 0 where
  pub relationship_type : String
  pub from_id : String
  pub to_id : String
  pub source_ref : String
  pub evidence : List String
  pub classification : Classification
  pub confidence : ℕ
  pub metadata : Metadata
  pub source_pointer : Option String
  pub allow_nonlocal_target : Bool

-- The call without keyword arguments.
abbrev pub edge : String → String → String → String → List String → Candidate
edge relationship_type from_id to_id source_ref evidence = record {
  relationship_type = relationship_type;
  from_id = from_id;
  to_id = to_id;
  source_ref = source_ref;
  evidence = evidence;
  classification = explicit;
  confidence = 100;
  metadata = empty;
  source_pointer = none;
  allow_nonlocal_target = false;
}

abbrev pub derived_edge : String → String → String → String → List String → Candidate
derived_edge relationship_type from_id to_id source_ref evidence =
    record (edge relationship_type from_id to_id source_ref evidence) { classification = derived }

-- `source_pointer or ""`
abbrev pub or_empty : Option String → String
or_empty (some text) = text
or_empty none = ""

-- The value that the pipeline passes as `relationship_id`.
unfoldable pub colon_joined : String → String → String → String
colon_joined relationship_type from_id to_id =
    format (relationship_type ∷ ":" ∷ from_id ∷ ":" ∷ to_id ∷ [])

-- `dumps` and `sha256_hex` are json's and hashlib's.
module _ (dumps : List String → String) (sha256_hex : String → String) where
  unfoldable pub derive_assertion_id : String → String → String → String → Option String → String
  derive_assertion_id relationship_type from_id to_id source_ref source_pointer = format (
      "asrt-"
      ∷ sha256_hex
          (dumps (relationship_type ∷ from_id ∷ to_id ∷ source_ref ∷ or_empty source_pointer ∷ []))
      ∷ [])

  module _ (relationship_id : String → String → String → String) (entities : List Entity) where
    unfoldable pub relationship : Candidate → DerivedRelationship
    unfolding derive_assertion_id
    relationship a = record {
      relationship_id = relationship_id a.relationship_type a.from_id a.to_id;
      assertion_id =
          derive_assertion_id a.relationship_type a.from_id a.to_id a.source_ref a.source_pointer;
      relationship_type = a.relationship_type;
      from_entity_id = a.from_id;
      to_entity_id = a.to_id;
      provenance_classification = a.classification;
      evidence = sorted_set a.evidence;
      canonical_source_ref = a.source_ref;
      source_pointer = a.source_pointer;
      confidence = a.confidence;
      metadata = a.metadata;
    }

    unfoldable pub add_relationship : Candidate → Step
    unfolding relationship
    add_relationship a s =
        if not (known entities a.from_id)
        then ok s
        else if not (known entities a.to_id) && not a.allow_nonlocal_target
        then ok s
        else if has_id (relationship_id a.relationship_type a.from_id a.to_id) s.relationships
        then ok s
        else ok record s { relationships = s.relationships ++ (relationship a ∷ []) }

unfoldable pub add_gap : DerivedGapSignal → Step
add_gap gap s = ok (record s { generator_gaps = s.generator_gaps ++ (gap ∷ []) })
