-- ===== src/Compiler.antt =====
-- src/adr_kit/compiler/ir: the stores of the intermediate representation. A dictionary is the list
-- of its values in the order of insertion, since each value carries its key.
mod Tests
pub mod Stores
pub mod Pipeline
pub mod Filling
pub mod WellFormed
use adr_architecture_kit.Base.{
  ℕ, String, Option, none, some, List, [], ◌∷◌, ◌++◌, Bool, true, false, ◌==◌, if◌then◌else◌,
  Result, ok, raise, filter, sort_by, format, sorted_set,
}
use adr_architecture_kit.Relationships.State.{Metadata, Classification, derive_assertion_id}

pub record SourceRef : Type 0 where
  pub source_type : String
  pub source_ref : String
  pub artifact_path : String
  pub mention_role : String

pub record CanonicalSource : Type 0 where
  pub source_type : String
  pub source_ref : String
  pub artifact_path : String

pub record IrEntity : Type 0 where
  pub id : String
  pub entity_type : String
  pub canonical_source : CanonicalSource
  pub source_refs : List SourceRef

-- `confidence` in percent
pub record IrRelationship : Type 0 where
  pub relationship_type : String
  pub from_entity_id : String
  pub to_entity_id : String
  pub canonical_source_ref : String
  pub provenance_classification : Classification
  pub evidence : List String
  pub confidence : ℕ
  pub metadata : Metadata
  pub relationship_id : String
  pub assertion_id : String
  pub source_pointer : Option String

pub record IrUnresolved : Type 0 where
  pub id : String
  pub gap_class : String
  pub gap_type : String
  pub source_entity_id : String
  pub severity : String
  pub evidence : List String
  pub related_entity_id : Option String
  pub expected_relationship : Option String

pub data IrError : Type 0 where
  duplicate_entity : String → IrError
  duplicate_unresolved : String → IrError
  duplicate_canonical_entity : String → IrError
  standalone_retired : IrError
  unresolved_endpoint : String → String → IrError

abbrev pub is_some : {A : Type 0} → Option A → Bool
is_some none = false
is_some (some a) = true

-- The methods of the three stores, by the attribute that is the key.
module _ {A : Type 0} (key : A → String) where
  -- self._items.get(id)
  unfoldable pub get : String → List A → Option A
  get id [] = none
  get id (x ∷ xs) = let rest = get id xs in if key x == id then some x else rest

  -- EntityGraph.add and UnresolvedList.add
  unfoldable pub add : (String → IrError) → A → List A → Result IrError (List A)
  unfolding get
  add duplicate x xs =
      if is_some (get (key x) xs) then raise (duplicate (key x)) else ok (xs ++ (x ∷ []))

  -- self._relationships[id] = relationship: what is there under the key is overwritten.
  unfoldable pub assign : A → List A → List A
  assign x [] = x ∷ []
  assign x (y ∷ ys) = let rest = assign x ys in if key y == key x then x ∷ ys else y ∷ rest

  -- RelGraph.add
  unfoldable pub add_if_absent : A → List A → List A
  unfolding get assign
  add_if_absent x xs = if is_some (get (key x) xs) then xs else assign x xs

  -- [self._items[key] for key in sorted(self._items)]
  unfoldable pub values : List A → List A
  values xs = sort_by key xs

abbrev pub entity_id : IrEntity → String
entity_id entity = entity.id

abbrev pub relationship_key : IrRelationship → String
relationship_key relationship = relationship.relationship_id

abbrev pub unresolved_id : IrUnresolved → String
unresolved_id item = item.id

-- EntityGraph.by_type
unfoldable pub by_type : String → List IrEntity → List IrEntity
unfolding values
by_type entity_type graph =
    filter (λ entity. entity.entity_type == entity_type) (values entity_id graph)

-- RelGraph.outgoing
unfoldable pub outgoing : String → List IrRelationship → List IrRelationship
unfolding values
outgoing id graph =
    filter (λ relationship. relationship.from_entity_id == id) (values relationship_key graph)

abbrev pub or_else : String → String → String
or_else value other = if value == "" then other else value

-- IRRelationship.__post_init__
unfoldable pub post_init :
    (List String → String) → (String → String) → IrRelationship → IrRelationship
unfolding derive_assertion_id
post_init dumps sha256_hex r = record r {
  relationship_id =
      or_else r.relationship_id
        (format (r.relationship_type ∷ ":" ∷ r.from_entity_id ∷ ":" ∷ r.to_entity_id ∷ []));
  assertion_id = or_else r.assertion_id (
      derive_assertion_id dumps sha256_hex r.relationship_type r.from_entity_id r.to_entity_id
        r.canonical_source_ref r.source_pointer);
  evidence = sorted_set r.evidence;
}
