-- ===== src/NeighborPaths/Selection.antt =====
-- src/adr_kit/compiler/backend/neighbor_paths.py: the selection of one path for each neighbor.
use adr_architecture_kit.Base.{
  ℕ, ◌+◌, String, Option, none, some, List, [], ◌∷◌, ◌++◌, Bool, true, false, ◌==◌, ◌&&◌, not,
  if◌then◌else◌, item_of, put, map, contains, ltb, texts_le, sort_with,
}
use adr_architecture_kit.Compiler.{IrRelationship, add_if_absent, values}
use adr_architecture_kit.NeighborPaths.{distance_of, structural_distance}

pub record NeighborPath : Type 0 where
  pub peer_adr_id : String
  pub semantic_verb : String
  pub from_id : String
  pub to_id : String
  pub source_pointer : Option String
  pub hop_count : ℕ
  pub bridge_count : ℕ
  pub relationship : IrRelationship

abbrev pub semantic_architecture : List String
semantic_architecture =
    "depends_on" ∷ "calls" ∷ "publishes_to" ∷ "subscribes_to" ∷ "reads_from" ∷ "writes_to"
    ∷ "implements_logical" ∷ "implemented_by" ∷ "governs" ∷ "provides_interface"
    ∷ "consumes_interface" ∷ "enforces" ∷ "enables" ∷ "enabled_by" ∷ "refines" ∷ []

-- entity_types.get(entity_id) == "adr"
unfoldable pub is_adr : List (String × String) → String → Bool
is_adr entity_types id = elim (item_of id entity_types) [ none ↦ false | some type ↦ type == "adr" ]

unfoldable pub owning_adr : String → List (String × String) → List (String × String) → Option String
unfolding is_adr
owning_adr entity_id declared_in entity_types =
    if is_adr entity_types entity_id then some entity_id else item_of entity_id declared_in

-- The loop that fills `declared_in`.
unfoldable pub declarations :
    List (String × String) → List IrRelationship → List (String × String) → List (String × String)
unfolding is_adr
declarations entity_types [] declared_in = declared_in
declarations entity_types (rel ∷ rels) declared_in = declarations entity_types rels (
    if rel.relationship_type == "declared_in" && is_adr entity_types rel.to_entity_id
    then put rel.from_entity_id rel.to_entity_id declared_in
    else declared_in)

-- The loop that fills `owned`, but for the subject.
unfoldable pub owned_by : String → List (String × String) → List String
owned_by subject_id [] = []
owned_by subject_id (item ∷ items) =
    let rest = owned_by subject_id items in if item.1 == subject_id then item.0 ∷ rest else rest

-- min(numbers), of a number and more
unfoldable pub min_of : ℕ → List ℕ → ℕ
min_of n [] = n
min_of n (m ∷ ms) = min_of (if ltb m n then m else n) ms

-- min(numbers, default=0)
unfoldable pub min_or_zero : List ℕ → ℕ
unfolding min_of
min_or_zero [] = 0
min_or_zero (n ∷ ns) = min_of n ns

abbrev pub or_empty : Option String → String
or_empty none = ""
or_empty (some text) = text

-- p <= q, by the key of the sort
unfoldable pub path_le : NeighborPath → NeighborPath → Bool
path_le p q =
    if ltb p.bridge_count q.bridge_count
    then true
    else if ltb q.bridge_count p.bridge_count
    then false
    else if ltb p.hop_count q.hop_count
    then true
    else if ltb q.hop_count p.hop_count
    then false
    else texts_le
        (p.semantic_verb ∷ p.from_id ∷ p.to_id ∷ or_empty p.source_pointer ∷ p.peer_adr_id ∷ [])
        (q.semantic_verb ∷ q.from_id ∷ q.to_id ∷ or_empty q.source_pointer ∷ q.peer_adr_id ∷ [])

abbrev pub peer_of : NeighborPath → String
peer_of path = path.peer_adr_id

-- The loop over the sorted candidates.
unfoldable pub first_of_each : List NeighborPath → List NeighborPath → List NeighborPath
unfolding add_if_absent
first_of_each [] selected = selected
first_of_each (path ∷ paths) selected = first_of_each paths (add_if_absent peer_of path selected)

-- The candidate that is appended for a peer.
unfoldable pub path_of : IrRelationship → String → ℕ → ℕ → NeighborPath
path_of rel peer prefix suffix = record {
  peer_adr_id = peer;
  semantic_verb = rel.relationship_type;
  from_id = rel.from_entity_id;
  to_id = rel.to_entity_id;
  source_pointer = rel.source_pointer;
  hop_count = prefix + 1 + suffix;
  bridge_count = prefix + suffix;
  relationship = rel;
}

-- Both lists, if there are both: `none` stands for a search without fuel enough.
abbrev pub both {ℓ} : {A : Type ℓ} → Option (List A) → Option (List A) → Option (List A)
both none _ = none
both (some xs) none = none
both (some xs) (some ys) = some (xs ++ ys)

module _ (entity_types declared_in : List (String × String)) where
  -- _owning_adr(node, declared_in, entity_types) == peer
  unfoldable pub is_owner : String → String → Bool
  unfolding owning_adr
  is_owner peer node = elim (owning_adr node declared_in entity_types) [
    | none ↦ false
    | some owner ↦ owner == peer
  ]

  -- The owners of the nodes, but for the subject.
  unfoldable pub peers_of : String → List (String × ℕ) → List String
  unfolding owning_adr
  peers_of subject_id [] = []
  peers_of subject_id (entry ∷ far_side) =
      let rest = peers_of subject_id far_side in
      elim (owning_adr entry.0 declared_in entity_types) [
        | none ↦ rest
        | some owner ↦ if not (owner == "") && not (owner == subject_id) then owner ∷ rest else rest
      ]

  -- The distances of those of the given entries that the peer owns.
  unfoldable pub nearby : List (String × ℕ) → String → List (String × ℕ) → List ℕ
  unfolding is_owner distance_of
  nearby far_side peer [] = []
  nearby far_side peer (entry ∷ entries) =
      let rest = nearby far_side peer entries in
      if is_owner peer entry.0 then distance_of far_side entry.0 ∷ rest else rest

  -- The loop over the peers.
  unfoldable pub paths_to : IrRelationship → ℕ → List (String × ℕ) → List String → List NeighborPath
  unfolding path_of nearby min_or_zero
  paths_to rel prefix far_side peers =
      map (λ peer. path_of rel peer prefix (min_or_zero (nearby far_side peer far_side))) peers

module _ (iterate : List String → List String) (subject_id : String)
    (relationships : List IrRelationship) (entity_types declared_in : List (String × String)) where
  -- far_side and peers; where the loop goes on with the next end, there are none.
  unfoldable pub far_and_peers : String → Option (List (String × ℕ) × List String)
  unfolding is_adr structural_distance peers_of
  far_and_peers far =
      if is_adr entity_types far
      then if far == subject_id then some ([], []) else some ((far, 0) ∷ [], far ∷ [])
      else elim (structural_distance iterate relationships (far ∷ [])) [
        | none ↦ none
        | some far_side ↦ some (far_side, peers_of entity_types declared_in subject_id far_side)
      ]

  -- The body of the loop over the two ends.
  unfoldable pub from_end :
      List (String × ℕ) → IrRelationship → String → String → Option (List NeighborPath)
  unfolding far_and_peers paths_to
  from_end subject_side rel start far = elim (item_of start subject_side) [
    | none ↦ some []
    | some prefix ↦ elim (far_and_peers far) [
      | none ↦ none
      | some found ↦ some (paths_to entity_types declared_in rel prefix found.0 (iterate found.1))
    ]
  ]

  -- The loop over the relationships.
  unfoldable pub candidates : List (String × ℕ) → List IrRelationship → Option (List NeighborPath)
  unfolding from_end
  candidates subject_side [] = some []
  candidates subject_side (rel ∷ rels) =
      let rest = candidates subject_side rels in
      if contains rel.relationship_type semantic_architecture
      then both (from_end subject_side rel rel.from_entity_id rel.to_entity_id)
          (both (from_end subject_side rel rel.to_entity_id rel.from_entity_id) rest)
      else rest

-- The candidates of a subject.
unfoldable pub candidate_paths :
    (List String → List String)
    → String
    → List IrRelationship
    → List (String × String)
    → Option (List NeighborPath)
unfolding declarations owned_by structural_distance candidates
candidate_paths iterate subject_id relationships entity_types =
    let declared_in = declarations entity_types relationships [] in
    elim (structural_distance iterate relationships
      (subject_id ∷ owned_by subject_id declared_in)) [
        | none ↦ none
        | some subject_side ↦
            candidates iterate subject_id relationships entity_types declared_in subject_side
              relationships
      ]

unfoldable pub select_neighbor_paths :
    (List String → List String)
    → String
    → List IrRelationship
    → List (String × String)
    → Option (List NeighborPath)
unfolding candidate_paths path_le first_of_each sort_with values
select_neighbor_paths iterate subject_id relationships entity_types =
    elim (candidate_paths iterate subject_id relationships entity_types) [
      | none ↦ none
      | some paths ↦ some (values peer_of (first_of_each (sort_with path_le paths) []))
    ]
