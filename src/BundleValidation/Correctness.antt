-- ===== src/BundleValidation/Correctness.antt =====
-- The validation finds an error exactly in the bundles that are not sound.
use adr_architecture_kit.Base.{
  ◌≤◌, String, List, [], ◌∷◌, ◌++◌, Bool, true, false, not, ◌≡◌, refl, ◌↔◌, ◌⊎◌, inl, inr, arith,
  eqb, if◌then◌else◌, Bool-cases, All, any, any-append, any-sort_with, IsDistinct, distinct, length,
}
use adr_architecture_kit.BundleValidation.{
  Diagnostic, DiagnosticLog, log_error, as_list, is_error, has_errors, is_valid, sort_key_le,
  EntityRecord, RelationshipRecord, UnresolvedRecord, is_entity, is_key, external_target_is_allowed,
  unresolved_ids, check_unresolved_ids, is_dangling, check_relationships, check_target,
  check_targets, check_summary, check_entities, check_unresolved, validate_bundle,
}

-- The log has no error.
abbrev pub IsClean : DiagnosticLog → Type 0
IsClean log = has_errors log ≡ false

-- The log is clean after a check exactly if it was before and `Good` holds.
abbrev Decides : DiagnosticLog → DiagnosticLog → Type 0 → Type 0
Decides after before Good = IsClean after ↔ (IsClean before × Good)

any-append_last :
    (item : Diagnostic) (items : List Diagnostic)
    → is_error item ≡ true
    → any is_error (items ++ (item ∷ [])) ≡ true
any-append_last item items h = ground (arith, any-append is_error items (item ∷ []))

log_error-not-IsClean :
    (code message source_ref : String) (log : DiagnosticLog)
    → has_errors (log_error code message source_ref log) ≡ true
unfolding has_errors log_error
log_error-not-IsClean code message source_ref log = any-append_last _ log refl

Decides-error :
    (code message source_ref : String) (log : DiagnosticLog) (Good : Type 0)
    → (Good → false ≡ true)
    → Decides (log_error code message source_ref log) log Good
Decides-error code message source_ref log Good bad = (
  λ h. absurd (cc (log_error-not-IsClean code message source_ref log)),
  λ h. absurd (cc (bad h.1)),
)

Decides-if :
    (test : Bool) (code message source_ref : String) (log : DiagnosticLog)
    → Decides (if test then log_error code message source_ref log else log) log (test ≡ false)
Decides-if true code message source_ref log =
    Decides-error code message source_ref log _ (λ good. cc)
Decides-if false code message source_ref log = (λ h. (h, refl), λ h. h.0)

Decides-unless :
    (test : Bool) (code message source_ref : String) (log : DiagnosticLog)
    → Decides (if test then log else log_error code message source_ref log) log (test ≡ true)
Decides-unless true code message source_ref log = (λ h. (h, refl), λ h. h.0)
Decides-unless false code message source_ref log =
    Decides-error code message source_ref log _ (λ good. cc)

Decides-then :
    (before between after : DiagnosticLog) (P Q : Type 0)
    → Decides between before P
    → Decides after between Q
    → Decides after before (P × Q)
Decides-then before between after P Q p q =
    (λ h. let k = q.0 h in let l = p.0 k.0 in (l.0, (l.1, k.1)), λ h. q.1 (p.1 (h.0, h.1.0), h.1.1))

Decides-same :
    (after before : DiagnosticLog) (P Q : Type 0)
    → P ↔ Q
    → Decides after before P
    → Decides after before Q
Decides-same after before P Q e d = (λ h. let k = d.0 h in (k.0, e.0 k.1), λ h. d.1 (h.0, e.1 h.1))

-- A loop of checks decides what each round decides.
Decides-loop :
    {A : Type 0} (Good : A → Type 0) (check : A → DiagnosticLog → DiagnosticLog)
    (loop : List A → DiagnosticLog → DiagnosticLog)
    → ((log : DiagnosticLog) → loop [] log ≡ log)
    → ((x : A) (xs : List A) (log : DiagnosticLog) → loop (x ∷ xs) log ≡ loop xs (check x log))
    → ((x : A) (log : DiagnosticLog) → Decides (check x log) log (Good x))
    → (xs : List A) (log : DiagnosticLog) → Decides (loop xs log) log (All Good xs)
Decides-loop Good check loop nil cons round [] log = rw (nil log) (λ h. (h, tt), λ h. h.0)
Decides-loop Good check loop nil cons round (x ∷ xs) log = rw (cons x xs log) (
    Decides-then log (check x log) (loop xs (check x log)) (Good x) (All Good xs) (round x log)
      (Decides-loop Good check loop nil cons round xs (check x log)))

length-distinct : (ids : List String) → length (distinct ids) ≤ length ids
unfolding distinct
length-distinct [] = ground arith
length-distinct (id ∷ ids) = ground (arith, length-distinct ids)

-- The test of the lengths is the one for a repeated id.
distinct-length :
    (ids : List String)
    → (not (eqb (length ids) (length (distinct ids))) ≡ false) ↔ IsDistinct (λ id. id) ids
unfolding distinct
distinct-length [] = (λ h. tt, λ h. refl)
distinct-length (id ∷ ids) = (
  λ h. (
    ground (arith, length-distinct ids),
    (distinct-length ids).0 (ground (arith, length-distinct ids)),
  ),
  λ h. let rest = (distinct-length ids).1 h.1 in ground (arith, h.0),
)

-- The ends of the relationship are entities; the target may be of an allowed external scope.
abbrev pub IsBound : List EntityRecord → RelationshipRecord → Type 0
IsBound entities item =
    (is_entity entities item.from_entity_id ≡ true)
    × ((is_entity entities item.to_entity_id ≡ true)
        ⊎ (external_target_is_allowed item.target_scope ≡ true))

-- Each target of the summary is an entity and has its relationship in the registry.
abbrev pub IsBacked :
    List EntityRecord → List RelationshipRecord → String → String → String → Type 0
IsBacked entities relationships relationship_type id target_id =
    (is_entity entities target_id ≡ true)
    × (is_key relationships relationship_type id target_id ≡ true)

abbrev pub IsSummarized : List EntityRecord → List RelationshipRecord → EntityRecord → Type 0
IsSummarized entities relationships entity =
    All (λ item. All (IsBacked entities relationships item.0 entity.id) item.1) entity.relationships

abbrev pub IsSoundBundle :
    List EntityRecord → List RelationshipRecord → List UnresolvedRecord → Type 0
IsSoundBundle entities relationships unresolved =
    ((IsDistinct (λ id. id) (unresolved_ids unresolved) × All (IsBound entities) relationships)
      × All (IsSummarized entities relationships) entities)
    × All (λ item. is_entity entities item.source_entity_id ≡ true) unresolved

check_unresolved_ids-Decides :
    (unresolved : List UnresolvedRecord) (log : DiagnosticLog)
    → Decides
        (check_unresolved_ids unresolved log)
        log
        (IsDistinct (λ id. id) (unresolved_ids unresolved))
unfolding check_unresolved_ids
check_unresolved_ids-Decides unresolved log =
    Decides-same _ log _ _ (distinct-length (unresolved_ids unresolved)) (Decides-if _ _ _ _ log)

module _ (entities : List EntityRecord) (relationships : List RelationshipRecord) where
  is_dangling-IsBound :
      (item : RelationshipRecord)
      → (is_dangling entities relationships item ≡ false) ↔ IsBound entities item
  is_dangling-IsBound item = (
    λ h. (
      ground arith,
      elim (Bool-cases (is_entity entities item.to_entity_id)) [
        | inl e ↦ inl e
        | inr e ↦ inr (ground arith)
      ],
    ),
    λ h. elim h.1 [ inl e ↦ ground (arith, h.0, e) | inr e ↦ ground (arith, h.0, e) ],
  )

  check_relationships-Decides :
      (items : List RelationshipRecord) (log : DiagnosticLog)
      → Decides
          (check_relationships entities relationships items log)
          log
          (All (IsBound entities) items)
  unfolding check_relationships
  check_relationships-Decides =
      Decides-loop (IsBound entities) _ (check_relationships entities relationships) (λ log. refl)
        (λ x xs log. refl)
        λ item log. Decides-same _ log _ _ (is_dangling-IsBound item) (Decides-if _ _ _ _ log)

  check_target-Decides :
      (entity : EntityRecord) (relationship_type target_id : String) (log : DiagnosticLog)
      → Decides
          (check_target entities relationships entity relationship_type target_id log)
          log
          (IsBacked entities relationships relationship_type entity.id target_id)
  unfolding check_target
  check_target-Decides entity relationship_type target_id log =
      elim (Bool-cases (is_entity entities target_id)) [
        | inr e ↦ rw (e) (Decides-error _ _ _ log _ (λ good. good.0))
        | inl e ↦
            rw (e) elim (Bool-cases (is_key relationships relationship_type entity.id target_id)) [
              | inr e' ↦ rw (e') (Decides-error _ _ _ log _ (λ good. good.1))
              | inl e' ↦ rw (e') (λ h. (h, (refl, refl)), λ h. h.0)
            ]
      ]

  check_targets-Decides :
      (entity : EntityRecord) (relationship_type : String) (targets : List String)
      (log : DiagnosticLog)
      → Decides
          (check_targets entities relationships entity relationship_type targets log)
          log
          (All (IsBacked entities relationships relationship_type entity.id) targets)
  unfolding check_targets
  check_targets-Decides entity relationship_type =
      Decides-loop _ (check_target entities relationships entity relationship_type)
        (check_targets entities relationships entity relationship_type) (λ log. refl)
        (λ x xs log. refl) (check_target-Decides entity relationship_type)

  check_summary-Decides :
      (entity : EntityRecord) (items : List (String × List String)) (log : DiagnosticLog)
      → Decides
          (check_summary entities relationships entity items log)
          log
          (All (λ item. All (IsBacked entities relationships item.0 entity.id) item.1) items)
  unfolding check_summary
  check_summary-Decides entity =
      Decides-loop _ (λ item. check_targets entities relationships entity item.0 item.1)
        (check_summary entities relationships entity) (λ log. refl) (λ x xs log. refl)
        (λ item. check_targets-Decides entity item.0 item.1)

  check_entities-Decides :
      (others : List EntityRecord) (log : DiagnosticLog)
      → Decides
          (check_entities entities relationships others log)
          log
          (All (IsSummarized entities relationships) others)
  unfolding check_entities
  check_entities-Decides =
      Decides-loop _ (λ entity. check_summary entities relationships entity entity.relationships)
        (check_entities entities relationships) (λ log. refl) (λ x xs log. refl)
        (λ entity. check_summary-Decides entity entity.relationships)

  check_unresolved-Decides :
      (items : List UnresolvedRecord) (log : DiagnosticLog)
      → Decides
          (check_unresolved entities relationships items log)
          log
          (All (λ item. is_entity entities item.source_entity_id ≡ true) items)
  unfolding check_unresolved
  check_unresolved-Decides =
      Decides-loop _ _ (check_unresolved entities relationships) (λ log. refl) (λ x xs log. refl)
        (λ item log. Decides-unless _ _ _ _ log)

-- The result is valid exactly if the given log has no error and the bundle is sound: no unresolved
-- id twice, no dangling relationship, each summary target an entity with its relationship in the
-- registry, and the source of each unresolved record an entity.
pub validate_bundle-IsSoundBundle :
    (entities : List EntityRecord) (relationships : List RelationshipRecord)
    (unresolved : List UnresolvedRecord) (log : DiagnosticLog)
    → (is_valid (validate_bundle entities relationships unresolved log) ≡ true)
      ↔ (IsClean log × IsSoundBundle entities relationships unresolved)
unfolding validate_bundle is_valid as_list has_errors
validate_bundle-IsSoundBundle entities relationships unresolved log =
    let first = check_unresolved_ids unresolved log in
    let second = check_relationships entities relationships relationships first in
    let third = check_entities entities relationships entities second in
    let last = check_unresolved entities relationships unresolved third in
    let decided =
      Decides-then log third last _ _
        (Decides-then log second third _ _
          (Decides-then log first second _ _ (check_unresolved_ids-Decides unresolved log)
            (check_relationships-Decides entities relationships relationships first))
          (check_entities-Decides entities relationships entities second))
        (check_unresolved-Decides entities relationships unresolved third) in
    (
      λ h. decided.0 (ground (arith, any-sort_with sort_key_le is_error last)),
      λ h. ground (arith, decided.1 h, any-sort_with sort_key_le is_error last),
    )
