-- ===== src/Compiler/WellFormed.antt =====
-- src/adr_kit/compiler/pipeline.py: what the methods of the pipeline's state keep.
use adr_architecture_kit.Base.{
  ℕ, String, Option, none, some, List, [], true, false, ◌&&◌, refl, sym, ap, eq_iff, if◌then◌else◌,
  ◌∷◌, ◌++◌, Bool, not, ◌==◌, ◌≡◌, ◌∙◌, subst, inl, inr, Bool-cases, ok, Returns-bind, passes_iff,
  any, All, IsDistinct, IsDistinct-append, IsOrdered, sort_with-IsOrdered, texts_le_total,
  texts_le_trans,
}
use adr_architecture_kit.Relationships.State.{Classification}
use adr_architecture_kit.Compiler.{
  SourceRef, IrEntity, IrError, duplicate_entity, is_some, get, add, assign, add_if_absent,
  post_init, entity_id, relationship_key,
}
use adr_architecture_kit.Compiler.Stores.{absent_iff, swap}
use adr_architecture_kit.Compiler.Pipeline.{
  PipelineState, mention_key, mention_le, same_mention, add_mention, change_refs, append_source_ref,
  mention_of, add_entity, has_entity, new_relationship, state_add_relationship,
}

-- No entity and no relationship twice, and the mentions of each entity in order.
abbrev pub IsWellFormed : PipelineState → Type 0
IsWellFormed state =
    IsDistinct entity_id state.entities
    × IsDistinct relationship_key state.relationships
    × All (λ (entry : String × List SourceRef). IsOrdered mention_le entry.1)
        state.reference_source_refs

add_mention-IsOrdered :
    (ref : SourceRef) (refs : List SourceRef)
    → IsOrdered mention_le refs
    → IsOrdered mention_le (add_mention ref refs)
unfolding add_mention
add_mention-IsOrdered ref refs h = elim (Bool-cases (any (λ item. same_mention item ref) refs)) [
  | inl e ↦ rw (e) h
  | inr e ↦ rw (e) (
      sort_with-IsOrdered mention_le (λ a b. texts_le_total (mention_key a) (mention_key b))
        (λ a b c. texts_le_trans (mention_key a) (mention_key b) (mention_key c))
        (refs ++ (ref ∷ [])))
]

change_refs-All :
    (P : List SourceRef → Type 0) (id : String) (change : List SourceRef → List SourceRef)
    (entries : List (String × List SourceRef))
    → ((refs : List SourceRef) → P refs → P (change refs))
    → P []
    → All (λ entry. P entry.1) entries
    → All (λ entry. P entry.1) (change_refs id change entries)
unfolding change_refs
change_refs-All P id change [] keeps start h = (keeps [] start, tt)
change_refs-All P id change (entry ∷ entries) keeps start h = elim (Bool-cases (entry.0 == id)) [
  | inl e ↦ rw (e) (keeps entry.1 h.0, h.1)
  | inr e ↦ rw (e) (h.0, change_refs-All P id change entries keeps start h.1)
]

append_source_ref-IsWellFormed :
    (entity : IrEntity) (ref : SourceRef) (state : PipelineState)
    → IsWellFormed state
    → IsWellFormed (append_source_ref entity ref state)
unfolding append_source_ref
append_source_ref-IsWellFormed entity ref state h = (
  h.0,
  h.1,
  change_refs-All (IsOrdered mention_le) entity.id (add_mention ref) state.reference_source_refs
      (add_mention-IsOrdered ref) tt h.2,
)

abbrev pub first_of : {A : Type 0} → Option A → Option A → Option A
first_of none other = other
first_of (some x) other = some x

module _ {A : Type 0} (key : A → String) where
  add-IsDistinct :
      (duplicate : String → IrError) (x : A) (xs ys : List A)
      → add key duplicate x xs ≡ ok ys
      → IsDistinct key xs
      → IsDistinct key ys
  unfolding add
  add-IsDistinct duplicate x xs ys h d =
      let fresh = (passes_iff (is_some (get key (key x) xs)) _ (ok _) ys).0 h in
      let same : xs ++ (x ∷ []) ≡ ys = cc (fresh.1) in
      subst (IsDistinct key) same
        (IsDistinct-append key xs x (absent_iff key (key x) xs ∙ fresh.0) d)

  get-assign :
      (x : A) (xs : List A) (id : String)
      → get key id (assign key x xs) ≡ (if key x == id then some x else get key id xs)
  unfolding get assign
  get-assign x [] id = refl
  get-assign x (y ∷ ys) id = elim (Bool-cases (key y == key x)) [
    | inl e ↦
        let same : (key y == id) ≡ (key x == id) =
          ap (λ k. k == id) ((eq_iff (key y) (key x)).0 e) in
        rw (e, get) (rw (same) (twice (key x == id) (some x) (some y) (get key id ys)))
    | inr e ↦
        rw (e, get)
          (ap (λ rest. if key y == id then some y else rest) (get-assign x ys id)
            ∙ swap key id x y (get key id ys) e)
  ]
    where
      twice :
          (b : Bool) (p q r : Option A)
          → (if b then p else r) ≡ (if b then p else (if b then q else r))
      twice true p q r = refl
      twice false p q r = refl

  -- What is there under a key stays.
  get-add_if_absent :
      (x : A) (xs : List A) (id : String)
      → get key id (add_if_absent key x xs)
        ≡ first_of (get key id xs) (if key x == id then some x else none)
  unfolding add_if_absent
  get-add_if_absent x xs id = elim (Bool-cases (is_some (get key (key x) xs))) [
    | inl e ↦ rw (e) (elim (Bool-cases (key x == id)) [
      | inl f ↦
          let there : is_some (get key id xs) ≡ true =
            ap (λ k. is_some (get key k xs)) (sym ((eq_iff (key x) id).0 f)) ∙ e in
          present (get key id xs) (if key x == id then some x else none) there
      | inr f ↦ rw (f) (with_none (get key id xs))
    ])
    | inr e ↦ rw (e) (
        get-assign x xs id ∙ elim (Bool-cases (key x == id)) [
          | inl f ↦
              let missing : is_some (get key id xs) ≡ false =
                ap (λ k. is_some (get key k xs)) (sym ((eq_iff (key x) id).0 f)) ∙ e in
              rw (f) (fresh (get key id xs) (some x) missing)
          | inr f ↦ rw (f) (with_none (get key id xs))
        ])
  ]
    where
      present : (o other : Option A) → is_some o ≡ true → o ≡ first_of o other
      present none other h = absurd (cc)
      present (some a) other h = refl

      fresh : (o other : Option A) → is_some o ≡ false → other ≡ first_of o other
      fresh none other h = refl
      fresh (some a) other h = absurd (cc)

      with_none : (o : Option A) → o ≡ first_of o none
      with_none none = refl
      with_none (some a) = refl

-- If an entity is added to a well formed state, or its mention where it is there and may be
-- mentioned, no entity and no relationship is there twice and the mentions of each entity are in
-- order.
pub add_entity-IsWellFormed :
    (entity : IrEntity) (allow_reference_merge : Bool) (state next : PipelineState)
    → IsWellFormed state
    → add_entity entity allow_reference_merge state ≡ ok next
    → IsWellFormed next
unfolding add_entity
add_entity-IsWellFormed entity allow_reference_merge state next w h =
    elim (Bool-cases (not (is_some (get entity_id entity.id state.entities)))) [
      | inl e ↦
          let run =
            Returns-bind (add entity_id duplicate_entity entity state.entities) _
              (rw (e, add_entity) at h) in
          let same : record state { entities = run.0 } ≡ next = cc (run.2) in
          subst IsWellFormed same (
            add-IsDistinct entity_id duplicate_entity entity state.entities run.0 run.1 w.0,
            w.1,
            w.2,
          )
      | inr e ↦
          let allowed =
            (passes_iff (not allow_reference_merge) _ _ next).0 (rw (e, add_entity) at h) in
          let same : append_source_ref entity (mention_of entity.canonical_source) state ≡ next =
            cc (allowed.1) in
          subst IsWellFormed same
            (append_source_ref-IsWellFormed entity (mention_of entity.canonical_source) state w)
    ]

module _ (dumps : List String → String) (sha256_hex : String → String) where
  -- If both ends are entities, the new relationship is found under its id, unless there was one: the
  -- one that was there stays. Under each other id nothing changes, and nothing at all if an end is no
  -- entity; entities and mentions stay in each case.
  pub state_add_relationship-get :
      (relationship_type from_id to_id source_ref : String) (classification : Classification)
      (evidence : List String) (confidence : ℕ) (state : PipelineState)
      → let new = post_init dumps sha256_hex (
          new_relationship relationship_type from_id to_id source_ref classification evidence
            confidence) in
        let after =
          state_add_relationship dumps sha256_hex relationship_type from_id to_id source_ref
            classification evidence confidence state in
        ((id : String)
          → get relationship_key id after.relationships
            ≡ first_of (get relationship_key id state.relationships) (
                if has_entity from_id state && has_entity to_id state && relationship_key new == id
                then some new
                else none))
        × (after.entities ≡ state.entities)
        × (after.reference_source_refs ≡ state.reference_source_refs)
  unfolding state_add_relationship
  state_add_relationship-get relationship_type from_id to_id source_ref classification evidence
        confidence state =
      elim (Bool-cases (has_entity from_id state)) [
        | inl e ↦ elim (Bool-cases (has_entity to_id state)) [
          | inl f ↦ rw (e, f) (get-add_if_absent relationship_key _ state.relationships, refl, refl)
          | inr f ↦ rw (e, f) (λ id. kept (get relationship_key id state.relationships), refl, refl)
        ]
        | inr e ↦ rw (e) (λ id. kept (get relationship_key id state.relationships), refl, refl)
      ]
    where
      kept : {B : Type 0} (o : Option B) → o ≡ first_of o none
      kept none = refl
      kept (some x) = refl
