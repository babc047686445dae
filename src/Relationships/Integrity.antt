-- ===== src/Relationships/Integrity.antt =====
-- The derived relationships: their endpoints, their ids, their order.
use adr_architecture_kit.Base.{
  String, List, [], ◌∷◌, true, not, ◌&&◌, ◌||◌, ◌≡◌, refl, subst, inl, inr, arith, Bool-cases, ok,
  Returns-bind, All, All-append, All-sort_with, le_by, All-map, IsDistinct, IsDistinct-append,
  IsDistinct-sort_by, IsSorted, sort_by-IsSorted,
}
use adr_architecture_kit.Relationships.Documents.{Entity, LogicalAdr, PhysicalAdr}
use adr_architecture_kit.Relationships.State.{
  target_scope, allows_missing, DerivedRelationship, Derivation, known, has_id, Candidate,
  relationship, add_relationship, add_gap,
}
use adr_architecture_kit.Relationships.Keeps.{Ends, Keeps, Keeps-then}
use adr_architecture_kit.Relationships.Logical.{explicit_edge, inverse_edge, pair}
use adr_architecture_kit.Relationships.Derive.{
  no_relationships, relationship_key, in_order, loops, derive_relationships,
}
use adr_architecture_kit.Relationships.Traversal.{IsScoped, inverse_of, Rules}
use adr_architecture_kit.Relationships.Traversal.Physical.{AllowsVerbs, loops-Keeps}

-- The source is an entity; so is the target, unless the metadata give its scope.
abbrev pub HasEndpoints : List Entity → DerivedRelationship → Type 0
HasEndpoints entities item =
    (known entities item.from_entity_id ≡ true)
    × ((known entities item.to_entity_id || allows_missing (target_scope item.metadata)) ≡ true)

-- The id is the one of the type and the endpoints.
abbrev pub IsNamed : (String → String → String → String) → DerivedRelationship → Type 0
IsNamed relationship_id item =
    item.relationship_id
    ≡ relationship_id item.relationship_type item.from_entity_id item.to_entity_id

module _ (dumps : List String → String) (sha256_hex : String → String)
    (relationship_id : String → String → String → String) (entities : List Entity) where
  abbrev IsSound : Derivation → Type 0
  IsSound s =
      All (λ item. HasEndpoints entities item × IsNamed relationship_id item) s.relationships
      × IsDistinct relationship_key s.relationships

  add_relationship-IsSound :
      (a : Candidate)
      → IsScoped a
      → Keeps IsSound (add_relationship dumps sha256_hex relationship_id entities a)
  unfolding add_relationship relationship
  add_relationship-IsSound a scoped = record {
    at = λ s h. elim (Bool-cases (known entities a.from_id)) [
      | inr source ↦ rw (source) h
      | inl source ↦
          rw (source)
            elim (Bool-cases (not (known entities a.to_id) && not a.allow_nonlocal_target)) [
              | inl target ↦ rw (target) h
              | inr target ↦
                  rw (target)
                    elim (Bool-cases (
                      has_id (relationship_id a.relationship_type a.from_id a.to_id)
                        s.relationships)) [
                          | inl present ↦ rw (present) h
                          | inr fresh ↦ rw (fresh) (
                            All-append _ s.relationships _ h.0
                                (((source, ground (arith, scoped)), refl), tt),
                            IsDistinct-append relationship_key s.relationships _ fresh h.1,
                          )
                        ]
            ]
    ];
  }

  -- A rule of single edges gives the one of pairs.
  pub pair-Keeps :
      (P : Derivation → Type 0)
      → ((a : Candidate)
          → IsScoped a
          → Keeps P (add_relationship dumps sha256_hex relationship_id entities a))
      → (t inverse from_id to_id source_ref : String) (evidence : List String)
      → Keeps P (
          pair dumps sha256_hex relationship_id entities t inverse from_id to_id source_ref
            evidence)
  unfolding pair explicit_edge inverse_edge
  pair-Keeps P kept t inverse from_id to_id source_ref evidence =
      Keeps-then _ _ (kept _ (λ nonlocal. cc)) (kept _ (λ nonlocal. cc))

  IsSound-rules : Rules dumps sha256_hex relationship_id entities IsSound (λ _. Unit)
  unfolding add_gap
  IsSound-rules = record {
    gap = λ item. record { at = λ s h. h };
    single_edge = λ a _. add_relationship-IsSound a;
    literal = λ t h. tt;
    both = λ t from_id to_id source_ref evidence h.
        pair-Keeps IsSound add_relationship-IsSound t (inverse_of t) from_id to_id source_ref
          evidence;
  }

pub All-of {ℓ} : {A : Type ℓ} {P : A → Type 0} (xs : List A) → ((x : A) → P x) → All P xs
All-of [] f = tt
All-of (x ∷ xs) f = (f x, All-of xs f)

pub every_verb : (adrs : List PhysicalAdr) → All (AllowsVerbs (λ _. Unit)) adrs
every_verb adrs = All-of adrs (λ adr. All-of adr.topology_relationships (λ item verb h. tt))

module _ (dumps : List String → String) (sha256_hex : String → String)
    (relationship_id : String → String → String → String) (entities : List Entity)
    (system_ids : List (String × String)) where
  -- What the loops keep holds of the result before the sorts.
  pub derive_relationships-Keeps :
      (P : Derivation → Type 0) (logical_adrs : List LogicalAdr) (physical_adrs : List PhysicalAdr)
      (result : Derivation)
      → Keeps P
          (loops dumps sha256_hex relationship_id entities system_ids logical_adrs physical_adrs)
      → P no_relationships
      → derive_relationships dumps sha256_hex relationship_id entities system_ids logical_adrs
          physical_adrs
        ≡ ok result
      → (s : Derivation) × P s × (in_order s ≡ result)
  unfolding derive_relationships
  derive_relationships-Keeps P logical_adrs physical_adrs result kept start e =
      let run =
        Returns-bind
          (loops dumps sha256_hex relationship_id entities system_ids logical_adrs physical_adrs
            no_relationships)
          (λ s. ok (in_order s)) e in
      (run.0, subst (Ends P) run.1 (kept.at no_relationships start), cc (run.2))

  sound :
      (logical_adrs : List LogicalAdr) (physical_adrs : List PhysicalAdr) (result : Derivation)
      → derive_relationships dumps sha256_hex relationship_id entities system_ids logical_adrs
          physical_adrs
        ≡ ok result
      → (s : Derivation) × IsSound dumps sha256_hex relationship_id entities s
        × (in_order s ≡ result)
  sound logical_adrs physical_adrs result e =
      derive_relationships-Keeps _ logical_adrs physical_adrs result
        (loops-Keeps dumps sha256_hex relationship_id entities system_ids
          (IsSound-rules dumps sha256_hex relationship_id entities) logical_adrs physical_adrs
          (every_verb physical_adrs))
        (tt, tt) e

  -- If the pass returns, each relationship starts at an entity and ends at one, unless its metadata
  -- give an external or an expectation scope.
  pub derive_relationships-HasEndpoints :
      (logical_adrs : List LogicalAdr) (physical_adrs : List PhysicalAdr) (result : Derivation)
      → derive_relationships dumps sha256_hex relationship_id entities system_ids logical_adrs
          physical_adrs
        ≡ ok result
      → All (HasEndpoints entities) result.relationships
  unfolding in_order
  derive_relationships-HasEndpoints logical_adrs physical_adrs result e =
      let run = sound logical_adrs physical_adrs result e in
      subst (λ r. All (HasEndpoints entities) r.relationships) run.2
        (All-sort_with (le_by relationship_key) (HasEndpoints entities) run.0.relationships
          (All-map run.0.relationships (λ item h. h.0) run.1.0))

  -- If the pass returns, the relationships are sorted by their ids, no id occurs twice, and each is
  -- the id of the type and the endpoints.
  pub derive_relationships-IsDistinct :
      (logical_adrs : List LogicalAdr) (physical_adrs : List PhysicalAdr) (result : Derivation)
      → derive_relationships dumps sha256_hex relationship_id entities system_ids logical_adrs
          physical_adrs
        ≡ ok result
      → IsSorted relationship_key result.relationships
        × IsDistinct relationship_key result.relationships
        × All (IsNamed relationship_id) result.relationships
  unfolding in_order
  derive_relationships-IsDistinct logical_adrs physical_adrs result e =
      let run = sound logical_adrs physical_adrs result e in
      subst
        (λ r.
          IsSorted relationship_key r.relationships
          × IsDistinct relationship_key r.relationships
          × All (IsNamed relationship_id) r.relationships)
        run.2
        (
          sort_by-IsSorted relationship_key run.0.relationships,
          IsDistinct-sort_by relationship_key run.0.relationships run.1.1,
          All-sort_with (le_by relationship_key) (IsNamed relationship_id) run.0.relationships
              (All-map run.0.relationships (λ item h. h.1) run.1.0),
        )
