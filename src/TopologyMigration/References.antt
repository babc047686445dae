-- ===== src/TopologyMigration/References.antt =====
-- src/adr_kit/migrators/topology_identity.py: the references between the components.
use adr_architecture_kit.Base.{
  ℕ, suc, String, Option, none, some, List, [], ◌∷◌, ◌++◌, true, ◌==◌, ◌||◌, ◌≡◌, refl, sym, ap,
  ◌∙◌, inl, inr, arith, eq_iff, Bool-cases, if◌then◌else◌, contains, any-append, All, put,
  item_of-put, distinct, sorted_set, le_by, any-sort_with,
}
use adr_architecture_kit.TopologyMigration.{
  Value, absent, other, text, TopologyComponent, TopologyEdge,
}
use adr_architecture_kit.TopologyMigration.Rewriting.{
  candidates_for, append_candidate, add_candidate, candidates_of, resolve_matches, resolve,
  rewrite_reference, rewrite_field, rewrite_edges, rewrite_path, rewrite_flows,
}
use adr_architecture_kit.TopologyMigration.Fresh.{ids_of, append-empty}

-- A reference that is one of the ids, and a field that may be missing.
abbrev pub IsIdOf : List String → Value → Type 0
IsIdOf ids absent = ⊥
IsIdOf ids other = ⊥
IsIdOf ids (text id) = contains id ids ≡ true

abbrev pub IsFieldOf : List String → Value → Type 0
IsFieldOf ids absent = Unit
IsFieldOf ids other = ⊥
IsFieldOf ids (text id) = contains id ids ≡ true

abbrev pub AreEnds : List String → Option TopologyEdge → Type 0
AreEnds ids none = Unit
AreEnds ids (some edge) = IsFieldOf ids edge.source × IsFieldOf ids edge.target

abbrev pub IsFlow : List String → Option (List Value) → Type 0
IsFlow ids none = Unit
IsFlow ids (some path) = All (IsIdOf ids) path

-- All candidates are among the ids.
abbrev pub AreAmong : List String → List (String × List String) → Type 0
AreAmong ids candidates =
    (key id : String) → contains id (candidates_for key candidates) ≡ true → contains id ids ≡ true

candidates_for-put :
    (other_key key : String) (found : List String) (candidates : List (String × List String))
    → candidates_for other_key (put key found candidates)
      ≡ (if key == other_key then found else candidates_for other_key candidates)
unfolding candidates_for
candidates_for-put other_key key found candidates = elim (Bool-cases (key == other_key)) [
  | inl e ↦ rw (item_of-put key other_key found candidates, candidates_for, e) refl
  | inr e ↦ rw (item_of-put key other_key found candidates, candidates_for, e) refl
]

append_candidate-AreAmong :
    (ids : List String) (key id : String) (candidates : List (String × List String))
    → contains id ids ≡ true
    → AreAmong ids candidates
    → AreAmong ids (append_candidate key id candidates)
unfolding append_candidate
append_candidate-AreAmong ids key id candidates h among other_key x c =
    let found = candidates_for key candidates ++ (id ∷ []) in
    let c' = ap (contains x) (sym (candidates_for-put other_key key found candidates)) ∙ c in
    elim (Bool-cases (key == other_key)) [
      | inr e ↦ among other_key x (
          ap (λ b. contains x (if b then found else candidates_for other_key candidates)) (sym e)
          ∙ c')
      | inl e ↦
          let there : contains x found ≡ true =
            ap (λ b. contains x (if b then found else candidates_for other_key candidates)) (sym e)
            ∙ c' in
          elim (Bool-cases (id == x)) [
            | inl same ↦ ap (λ y. contains y ids) (sym ((eq_iff id x).0 same)) ∙ h
            | inr new ↦
                among key x (
                  ground
                    (arith, any-append (λ y. y == x) (candidates_for key candidates) (id ∷ [])))
          ]
    ]

add_candidate-AreAmong :
    (ids : List String) (id name : Value) (candidates : List (String × List String))
    → ((t : String) → id ≡ text t → contains t ids ≡ true)
    → AreAmong ids candidates
    → AreAmong ids (add_candidate (record { id = id; name = name }) candidates)
unfolding add_candidate
add_candidate-AreAmong ids absent name candidates h among = among
add_candidate-AreAmong ids other name candidates h among = among
add_candidate-AreAmong ids (text id) absent candidates h among =
    append_candidate-AreAmong ids id id candidates (h id refl) among
add_candidate-AreAmong ids (text id) other candidates h among =
    append_candidate-AreAmong ids id id candidates (h id refl) among
add_candidate-AreAmong ids (text id) (text name) candidates h among =
    append_candidate-AreAmong ids name id (append_candidate id id candidates) (h id refl)
      (append_candidate-AreAmong ids id id candidates (h id refl) among)

-- The ids of a rest of the components are among those of all.
pub candidates_of-AreAmong :
    (ids : List String) (components : List (Option TopologyComponent))
    (candidates : List (String × List String))
    → ((x : String) → contains x (ids_of components) ≡ true → contains x ids ≡ true)
    → AreAmong ids candidates
    → AreAmong ids (candidates_of components candidates)
unfolding candidates_of
candidates_of-AreAmong ids [] candidates h among = among
candidates_of-AreAmong ids (none ∷ components) candidates h among =
    candidates_of-AreAmong ids components candidates h among
candidates_of-AreAmong ids (some component ∷ components) candidates h among =
    candidates_of-AreAmong ids components (add_candidate component candidates)
      (λ x c. h x (later component.id component.name x c))
      (add_candidate-AreAmong ids component.id component.name candidates
        (λ t e. h t (first component.id component.name t e)) among)
  where
    later :
        (id name : Value) (x : String)
        → contains x (ids_of components) ≡ true
        → contains x (ids_of (some (record { id = id; name = name }) ∷ components)) ≡ true
    later absent name x c = c
    later other name x c = c
    later (text id) name x c = ground arith

    first :
        (id name : Value) (t : String)
        → id ≡ text t
        → contains t (ids_of (some (record { id = id; name = name }) ∷ components)) ≡ true
    first absent name t e = absurd (cc (e))
    first other name t e = absurd (cc (e))
    first (text id) name t e = let same : id ≡ t = cc (e) in ground (arith, eq_iff id t)

contains-distinct : (x : String) (xs : List String) → contains x (distinct xs) ≡ contains x xs
unfolding distinct
contains-distinct x [] = refl
contains-distinct x (y ∷ ys) = elim (Bool-cases (contains y ys)) [
  | inr e ↦ rw (e) (ground (arith, contains-distinct x ys))
  | inl e ↦ rw (e) (elim (Bool-cases (y == x)) [
    | inl same ↦
        let there = ap (λ z. contains z ys) (sym ((eq_iff y x).0 same)) ∙ e in
        contains-distinct x ys ∙ there ∙ ap (λ b. b || contains x ys) (sym same)
    | inr new ↦ contains-distinct x ys ∙ ap (λ b. b || contains x ys) (sym new)
  ])
]

contains-sorted_set : (x : String) (xs : List String) → contains x (sorted_set xs) ≡ contains x xs
unfolding sorted_set
contains-sorted_set x xs =
    any-sort_with (le_by (λ value. value)) (λ y. y == x) (distinct xs) ∙ contains-distinct x xs

-- Where nothing is reported, each reference is rewritten to an id.
module _ (path : String) (candidates : List (String × List String)) (ids : List String)
    (among : AreAmong ids candidates) where
  matches-IsIdOf :
      (pointer : String) (value : Value) (matches : List String)
      → ((x : String) → contains x matches ≡ true → contains x ids ≡ true)
      → (resolve_matches path candidates pointer value matches).1.diagnostics ≡ []
      → IsIdOf ids (resolve_matches path candidates pointer value matches).0
  unfolding resolve_matches
  matches-IsIdOf pointer value [] h quiet = absurd (cc (quiet))
  matches-IsIdOf pointer value (id ∷ []) h quiet = h id (ground (arith, eq_iff id id))
  matches-IsIdOf pointer value (id ∷ next ∷ more) h quiet = absurd (cc (quiet))

  resolve-IsIdOf :
      (value : Value) (pointer : String)
      → (resolve path candidates value pointer).1.diagnostics ≡ []
      → IsIdOf ids (resolve path candidates value pointer).0
  unfolding resolve
  resolve-IsIdOf absent pointer quiet = absurd (cc (quiet))
  resolve-IsIdOf other pointer quiet = absurd (cc (quiet))
  resolve-IsIdOf (text name) pointer quiet =
      matches-IsIdOf pointer (text name) (sorted_set (candidates_for name candidates))
        (λ x c. among name x (sym (contains-sorted_set x (candidates_for name candidates)) ∙ c))
        quiet

  rewrite_reference-IsIdOf :
      (pointer : String) (value : Value)
      → (rewrite_reference path candidates pointer value).1.diagnostics ≡ []
      → IsIdOf ids (rewrite_reference path candidates pointer value).0
  unfolding rewrite_reference
  rewrite_reference-IsIdOf pointer value quiet =
      resolve-IsIdOf value pointer (append-empty _ _ quiet).0

  IsIdOf-IsFieldOf : (v : Value) → IsIdOf ids v → IsFieldOf ids v
  IsIdOf-IsFieldOf absent h = tt
  IsIdOf-IsFieldOf other h = h
  IsIdOf-IsFieldOf (text id) h = h

  rewrite_field-IsFieldOf :
      (pointer : String) (value : Value)
      → (rewrite_field path candidates pointer value).1.diagnostics ≡ []
      → IsFieldOf ids (rewrite_field path candidates pointer value).0
  unfolding rewrite_field
  rewrite_field-IsFieldOf pointer absent quiet = tt
  rewrite_field-IsFieldOf pointer other quiet =
      IsIdOf-IsFieldOf (rewrite_reference path candidates pointer other).0
        (rewrite_reference-IsIdOf pointer other quiet)
  rewrite_field-IsFieldOf pointer (text name) quiet =
      IsIdOf-IsFieldOf (rewrite_reference path candidates pointer (text name)).0
        (rewrite_reference-IsIdOf pointer (text name) quiet)

  pub rewrite_edges-AreEnds :
      (index : ℕ) (edges : List (Option TopologyEdge))
      → (rewrite_edges path candidates index edges).1.diagnostics ≡ []
      → All (AreEnds ids) (rewrite_edges path candidates index edges).0
  unfolding rewrite_edges
  rewrite_edges-AreEnds index [] quiet = tt
  rewrite_edges-AreEnds index (none ∷ edges) quiet =
      (tt, rewrite_edges-AreEnds (suc index) edges quiet)
  rewrite_edges-AreEnds index (some edge ∷ edges) quiet =
      let (ends, rest) = append-empty _ _ quiet in
      let (source, target) = append-empty _ _ ends in
      (
        (
          rewrite_field-IsFieldOf _ edge.source source,
          rewrite_field-IsFieldOf _ edge.target target,
        ),
        rewrite_edges-AreEnds (suc index) edges rest,
      )

  rewrite_path-IsFlow :
      (flow_index index : ℕ) (values : List Value)
      → (rewrite_path path candidates flow_index index values).1.diagnostics ≡ []
      → All (IsIdOf ids) (rewrite_path path candidates flow_index index values).0
  unfolding rewrite_path
  rewrite_path-IsFlow flow_index index [] quiet = tt
  rewrite_path-IsFlow flow_index index (value ∷ values) quiet =
      let (first, rest) = append-empty _ _ quiet in
      (
        rewrite_reference-IsIdOf _ value first,
        rewrite_path-IsFlow flow_index (suc index) values rest,
      )

  pub rewrite_flows-IsFlow :
      (index : ℕ) (flows : List (Option (List Value)))
      → (rewrite_flows path candidates index flows).1.diagnostics ≡ []
      → All (IsFlow ids) (rewrite_flows path candidates index flows).0
  unfolding rewrite_flows
  rewrite_flows-IsFlow index [] quiet = tt
  rewrite_flows-IsFlow index (none ∷ flows) quiet =
      (tt, rewrite_flows-IsFlow (suc index) flows quiet)
  rewrite_flows-IsFlow index (some values ∷ flows) quiet =
      let (first, rest) = append-empty _ _ quiet in
      (rewrite_path-IsFlow index 0 values first, rewrite_flows-IsFlow (suc index) flows rest)
