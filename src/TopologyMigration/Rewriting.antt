-- ===== src/TopologyMigration/Rewriting.antt =====
-- src/adr_kit/migrators/topology_identity.py: the candidates of a document, and its references
-- rewritten.
use adr_architecture_kit.Base.{
  ℕ, suc, String, Option, none, some, List, [], ◌∷◌, ◌++◌, Bool, false, ◌==◌, not, if◌then◌else◌,
  item_of, put, decimal, sorted_set,
}
use adr_architecture_kit.TopologyMigration.{
  Value, absent, other, text, TopologyComponent, TopologyEdge, Report, ◌and◌, nothing, pointer_to,
}

abbrev pub changed : String → String → Value → Value → Report
changed path pointer before after = record {
  changes = record { file_path = path; pointer = pointer; before = before; after = after } ∷ [];
  diagnostics = [];
}

abbrev pub blocked : String → String → String → Report
blocked path pointer code = record {
  changes = [];
  diagnostics = record { file_path = path; pointer = pointer; code = code } ∷ [];
}

-- candidates.get(key, [])
unfoldable pub candidates_for : String → List (String × List String) → List String
candidates_for key candidates = elim (item_of key candidates) [ none ↦ [] | some ids ↦ ids ]

-- candidates.setdefault(key, []).append(id)
unfoldable pub append_candidate :
    String → String → List (String × List String) → List (String × List String)
unfolding candidates_for
append_candidate key id candidates = put key (candidates_for key candidates ++ (id ∷ [])) candidates

unfoldable pub add_candidate :
    TopologyComponent → List (String × List String) → List (String × List String)
unfolding append_candidate
add_candidate component candidates = elim component.id [
  | absent ↦ candidates
  | other ↦ candidates
  | text id ↦
      let by_id = append_candidate id id candidates in
      elim component.name [
        | absent ↦ by_id
        | other ↦ by_id
        | text name ↦ append_candidate name id by_id
      ]
]

unfoldable pub candidates_of :
    List (Option TopologyComponent) → List (String × List String) → List (String × List String)
unfolding add_candidate
candidates_of [] candidates = candidates
candidates_of (none ∷ components) candidates = candidates_of components candidates
candidates_of (some component ∷ components) candidates =
    candidates_of components (add_candidate component candidates)

module _ (path : String) (candidates : List (String × List String)) where
  unfoldable pub resolve_matches : String → Value → List String → Value × Report
  resolve_matches pointer value [] = (value, blocked path pointer "dangling_reference")
  resolve_matches pointer value (id ∷ []) = (text id, nothing)
  resolve_matches pointer value (id ∷ next ∷ ids) = (value, blocked path pointer "ambiguous_name")

  unfoldable pub resolve : Value → String → Value × Report
  unfolding resolve_matches candidates_for
  resolve (text name) pointer =
      resolve_matches pointer (text name) (sorted_set (candidates_for name candidates))
  resolve value pointer = (value, blocked path pointer "dangling_reference")

  -- before != after, for what `resolve` makes of a value: another type stays as it is.
  unfoldable pub is_changed : Value → Value → Bool
  is_changed (text before) (text after) = not (before == after)
  is_changed before after = false

  unfoldable pub rewrite_reference : String → Value → Value × Report
  unfolding resolve is_changed
  rewrite_reference pointer before =
      let resolved = resolve before pointer in
      (
        resolved.0,
        resolved.1
            and (if is_changed before resolved.0
                then changed path pointer before resolved.0
                else nothing),
      )

  -- A field that is not there is left.
  unfoldable pub rewrite_field : String → Value → Value × Report
  unfolding rewrite_reference
  rewrite_field pointer absent = (absent, nothing)
  rewrite_field pointer value = rewrite_reference pointer value

  unfoldable pub rewrite_edges :
      ℕ → List (Option TopologyEdge) → List (Option TopologyEdge) × Report
  unfolding rewrite_field
  rewrite_edges index [] = ([], nothing)
  rewrite_edges index (none ∷ edges) =
      let rest = rewrite_edges (suc index) edges in (none ∷ rest.0, rest.1)
  rewrite_edges index (some edge ∷ edges) =
      let at = λ (field : String).
        pointer_to ("/component_topology/relationships/" ∷ decimal index ∷ field ∷ []) in
      let source = rewrite_field (at "/from") edge.source in
      let target = rewrite_field (at "/to") edge.target in
      let rest = rewrite_edges (suc index) edges in
      (
        some (record { source = source.0; target = target.0 }) ∷ rest.0,
        source.1 and target.1 and rest.1,
      )

  unfoldable pub rewrite_path : ℕ → ℕ → List Value → List Value × Report
  unfolding rewrite_reference
  rewrite_path flow_index index [] = ([], nothing)
  rewrite_path flow_index index (value ∷ values) =
      let pointer =
        pointer_to ("/data_flows/" ∷ decimal flow_index ∷ "/path/" ∷ decimal index ∷ []) in
      let first = rewrite_reference pointer value in
      let rest = rewrite_path flow_index (suc index) values in
      (first.0 ∷ rest.0, first.1 and rest.1)

  unfoldable pub rewrite_flows :
      ℕ → List (Option (List Value)) → List (Option (List Value)) × Report
  unfolding rewrite_path
  rewrite_flows index [] = ([], nothing)
  rewrite_flows index (none ∷ flows) =
      let rest = rewrite_flows (suc index) flows in (none ∷ rest.0, rest.1)
  rewrite_flows index (some values ∷ flows) =
      let first = rewrite_path index 0 values in
      let rest = rewrite_flows (suc index) flows in (some first.0 ∷ rest.0, first.1 and rest.1)
