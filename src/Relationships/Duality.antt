-- ===== src/Relationships/Duality.antt =====
-- The edges that come with their inverse: supersedes and superseded_by, enables and enabled_by.
use adr_architecture_kit.Base.{
  String, List, [], ◌∷◌, ◌++◌, true, false, not, ◌&&◌, ◌==◌, eq_iff, eq_refl, ◌≡◌, refl, sym, subst,
  ◌⊎◌, inl, inr, arith, if◌then◌else◌, Bool-cases, ok, All, All-append, All-sort_with, le_by,
  All-map, sort_by, any-append, any-sort_with,
}
use adr_architecture_kit.Relationships.Documents.{Entity, LogicalAdr, PhysicalAdr}
use adr_architecture_kit.Relationships.State.{
  DerivedRelationship, Derivation, ◌then◌, known, has_id, Candidate, edge, derived_edge,
  relationship, add_relationship, add_gap,
}
use adr_architecture_kit.Relationships.Keeps.{Keeps}
use adr_architecture_kit.Relationships.Logical.{explicit_edge, inverse_edge, pair}
use adr_architecture_kit.Relationships.Derive.{relationship_key, in_order, derive_relationships}
use adr_architecture_kit.Relationships.Traversal.{IsScoped, is_dual, inverse_of, Rules}
use adr_architecture_kit.Relationships.Traversal.Physical.{AllowsVerbs, loops-Keeps}
use adr_architecture_kit.Relationships.Integrity.{derive_relationships-Keeps}

inverse_of-involution : (t : String) → is_dual t ≡ true → inverse_of (inverse_of t) ≡ t
inverse_of-involution t h = elim (Bool-cases (t == "supersedes")) [
  | inl e ↦ rw (e) (sym ((eq_iff t "supersedes").0 e))
  | inr e ↦ rw (e) elim (Bool-cases (t == "superseded_by")) [
    | inl e' ↦ rw (e') (sym ((eq_iff t "superseded_by").0 e'))
    | inr e' ↦ rw (e') elim (Bool-cases (t == "enables")) [
      | inl e'' ↦ rw (e'') (sym ((eq_iff t "enables").0 e''))
      | inr e'' ↦ rw (e'') (sym ((eq_iff t "enabled_by").0 (ground arith)))
    ]
  ]
]

module _ (dumps : List String → String) (sha256_hex : String → String)
    (relationship_id : String → String → String → String) (entities : List Entity) where
  abbrev id_of : Candidate → String
  id_of a = relationship_id a.relationship_type a.from_id a.to_id

  -- The relationships after an edge between two entities.
  pub extended : Candidate → List DerivedRelationship → List DerivedRelationship
  extended a xs =
      if has_id (id_of a) xs
      then xs
      else xs ++ (relationship dumps sha256_hex relationship_id entities a ∷ [])

  pub add_relationship-known :
      (a : Candidate) (s : Derivation)
      → known entities a.from_id ≡ true
      → known entities a.to_id ≡ true
      → add_relationship dumps sha256_hex relationship_id entities a s
        ≡ ok (record s { relationships = extended a s.relationships })
  unfolding add_relationship extended
  add_relationship-known a s source target =
      rw (source, target)
        elim (Bool-cases (has_id (id_of a) s.relationships)) [
          | inl e ↦ rw (e) refl
          | inr e ↦ rw (e) refl
        ]

  pub has_id-extended_old :
      (id : String) (a : Candidate) (xs : List DerivedRelationship)
      → has_id id xs ≡ true
      → has_id id (extended a xs) ≡ true
  unfolding extended
  has_id-extended_old id a xs h = elim (Bool-cases (has_id (id_of a) xs)) [
    | inl e ↦ rw (e) h
    | inr e ↦ rw (e) (
        ground (
          arith,
          any-append (λ item. item.relationship_id == id) xs
              (relationship dumps sha256_hex relationship_id entities a ∷ []),
        ))
  ]

  pub has_id-extended_new :
      (a : Candidate) (xs : List DerivedRelationship) → has_id (id_of a) (extended a xs) ≡ true
  unfolding extended relationship
  has_id-extended_new a xs = elim (Bool-cases (has_id (id_of a) xs)) [
    | inl e ↦ rw (e) e
    | inr e ↦ rw (e) (
        ground (
          arith,
          eq_refl (id_of a),
          any-append (λ item. item.relationship_id == id_of a) xs
              (relationship dumps sha256_hex relationship_id entities a ∷ []),
        ))
  ]

  pub All-extended :
      (P : DerivedRelationship → Type 0) (a : Candidate) (xs : List DerivedRelationship)
      → All P xs
      → P (relationship dumps sha256_hex relationship_id entities a)
      → All P (extended a xs)
  unfolding extended
  All-extended P a xs h new = elim (Bool-cases (has_id (id_of a) xs)) [
    | inl e ↦ rw (e) h
    | inr e ↦ rw (e) (All-append P xs _ h (new, tt))
  ]

  -- Among `xs` is the inverse of the relationship, if it has one.
  abbrev pub HasInverse : List DerivedRelationship → DerivedRelationship → Type 0
  HasInverse xs item =
      is_dual item.relationship_type ≡ true
      → has_id
          (relationship_id (inverse_of item.relationship_type) item.to_entity_id
            item.from_entity_id)
          xs
        ≡ true

  abbrev IsPaired : Derivation → Type 0
  IsPaired s = All (HasInverse s.relationships) s.relationships

  All-HasInverse-extended :
      (a : Candidate) (xs ys : List DerivedRelationship)
      → All (HasInverse xs) ys
      → All (HasInverse (extended a xs)) ys
  All-HasInverse-extended a xs ys h =
      All-map ys (λ item k dual. has_id-extended_old _ a xs (k dual)) h

  -- An edge and its inverse, between entities.
  pair-HasInverse :
      (a b : Candidate) (xs : List DerivedRelationship)
      → is_dual a.relationship_type ≡ true
      → b.relationship_type ≡ inverse_of a.relationship_type
      → b.from_id ≡ a.to_id
      → b.to_id ≡ a.from_id
      → All (HasInverse xs) xs
      → All (HasInverse (extended b (extended a xs))) (extended b (extended a xs))
  unfolding relationship
  pair-HasInverse a b xs dual inverse from to h =
      let ys = extended a xs in
      let zs = extended b ys in
      let there : id_of b ≡ relationship_id (inverse_of a.relationship_type) a.to_id a.from_id =
        rw (inverse, from, to) refl in
      let back : id_of a ≡ relationship_id (inverse_of b.relationship_type) b.to_id b.from_id =
        rw (inverse, from, to, inverse_of-involution a.relationship_type dual) refl in
      All-extended _ b ys
        (All-extended _ a xs (All-HasInverse-extended b ys xs (All-HasInverse-extended a xs xs h))
          λ _. subst (λ id. has_id id zs ≡ true) there (has_id-extended_new b ys))
        λ _.
          subst (λ id. has_id id zs ≡ true) back
            (has_id-extended_old (id_of a) b ys (has_id-extended_new a xs))

  add_relationship-unknown :
      (a : Candidate) (s : Derivation)
      → a.allow_nonlocal_target ≡ false
      → (known entities a.from_id && known entities a.to_id) ≡ false
      → add_relationship dumps sha256_hex relationship_id entities a s ≡ ok s
  unfolding add_relationship
  add_relationship-unknown a s nonlocal h = elim (Bool-cases (known entities a.from_id)) [
    | inr source ↦ rw (source) refl
    | inl source ↦
        let target : known entities a.to_id ≡ false = ground arith in
        rw (source, target, nonlocal) refl
  ]

  pair-IsPaired :
      (t from_id to_id source_ref : String) (evidence : List String)
      → is_dual t ≡ true
      → Keeps IsPaired (
          pair dumps sha256_hex relationship_id entities t
            (inverse_of t)
            from_id
            to_id
            source_ref
            evidence)
  unfolding pair explicit_edge inverse_edge ◌then◌
  pair-IsPaired t from_id to_id source_ref evidence dual =
      let a = edge t from_id to_id source_ref evidence in
      let b = derived_edge (inverse_of t) to_id from_id source_ref evidence in
      record {
        at = λ s h. elim (Bool-cases (known entities from_id && known entities to_id)) [
          | inl e ↦
              let source : known entities from_id ≡ true = ground arith in
              let target : known entities to_id ≡ true = ground arith in
              rw
                (
                  add_relationship-known a s source target,
                  add_relationship-known b (record s { relationships = extended a s.relationships })
                      target source,
                )
                (pair-HasInverse a b s.relationships dual refl refl refl h)
          | inr e ↦
              let e' : (known entities to_id && known entities from_id) ≡ false = ground arith in
              rw (add_relationship-unknown a s refl e, add_relationship-unknown b s refl e') h
        ];
      }

  -- A call changes nothing, or makes sure of the relationship.
  pub add_relationship-cases :
      (a : Candidate) (s : Derivation)
      → (add_relationship dumps sha256_hex relationship_id entities a s ≡ ok s)
        ⊎ (add_relationship dumps sha256_hex relationship_id entities a s
            ≡ ok (record s { relationships = extended a s.relationships }))
  unfolding add_relationship extended
  add_relationship-cases a s = elim (Bool-cases (known entities a.from_id)) [
    | inr source ↦ rw (source) (inl refl)
    | inl source ↦
        rw (source)
          elim (Bool-cases (not (known entities a.to_id) && not a.allow_nonlocal_target)) [
            | inl target ↦ rw (target) (inl refl)
            | inr target ↦ rw (target) elim (Bool-cases (has_id (id_of a) s.relationships)) [
              | inl e ↦ rw (e) (inl refl)
              | inr e ↦ rw (e) (inr refl)
            ]
          ]
  ]

  single-IsPaired :
      (a : Candidate)
      → is_dual a.relationship_type ≡ false
      → IsScoped a
      → Keeps IsPaired (add_relationship dumps sha256_hex relationship_id entities a)
  unfolding relationship
  single-IsPaired a plain scoped = record {
    at = λ s h. elim (add_relationship-cases a s) [
      | inl e ↦ rw (e) h
      | inr e ↦ rw (e) (
          All-extended _ a s.relationships
            (All-HasInverse-extended a s.relationships s.relationships h) (λ dual. cc))
    ];
  }

  IsPaired-rules : Rules dumps sha256_hex relationship_id entities IsPaired (λ t. is_dual t ≡ false)
  unfolding add_gap
  IsPaired-rules = record {
    gap = λ item. record { at = λ s h. h };
    single_edge = single-IsPaired;
    literal = λ t h. h;
    both = pair-IsPaired;
  }

  HasInverse-sort_by :
      (xs : List DerivedRelationship)
      → All (HasInverse xs) xs
      → All (HasInverse (sort_by relationship_key xs)) (sort_by relationship_key xs)
  HasInverse-sort_by xs h =
      All-sort_with (le_by relationship_key) _ xs
        (All-map xs (λ item k dual. rw (any-sort_with (le_by relationship_key)) (k dual)) h)

module _ (dumps : List String → String) (sha256_hex : String → String)
    (relationship_id : String → String → String → String) (entities : List Entity)
    (system_ids : List (String × String)) where
  -- If the pass returns and no topology edge uses one of the four types, then with each supersedes,
  -- superseded_by, enables or enabled_by relationship there is one with the id of its inverse.
  pub derive_relationships-HasInverse :
      (logical_adrs : List LogicalAdr) (physical_adrs : List PhysicalAdr) (result : Derivation)
      → All (AllowsVerbs (λ verb. is_dual verb ≡ false)) physical_adrs
      → derive_relationships dumps sha256_hex relationship_id entities system_ids logical_adrs
          physical_adrs
        ≡ ok result
      → All
          (HasInverse dumps sha256_hex relationship_id entities result.relationships)
          result.relationships
  unfolding in_order
  derive_relationships-HasInverse logical_adrs physical_adrs result governed e =
      let run =
        derive_relationships-Keeps dumps sha256_hex relationship_id entities system_ids _
          logical_adrs physical_adrs result
          (loops-Keeps dumps sha256_hex relationship_id entities system_ids
            (IsPaired-rules dumps sha256_hex relationship_id entities) logical_adrs physical_adrs
            governed)
          tt e in
      subst
        (λ r.
          All (HasInverse dumps sha256_hex relationship_id entities r.relationships)
            r.relationships)
        run.2
        (HasInverse-sort_by dumps sha256_hex relationship_id entities run.0.relationships run.1)
