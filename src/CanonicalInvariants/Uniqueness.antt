-- ===== src/CanonicalInvariants/Uniqueness.antt =====
-- src/adr_kit/compiler/passes/resolve_invariant_canonical.py: when the invariants resolve.
use adr_architecture_kit.Base.{
  String, List, [], ◌∷◌, Bool, true, false, not, ◌&&◌, ◌||◌, ltb, eqb, ◌≡◌, refl, sym, ap, ◌∙◌, ◌↔◌,
  inl, inr, arith, if◌then◌else◌, Bool-cases, not-false, not-true, ok, raise, Returns-bind,
  passes_iff, refuses_iff, either-raises, All, filter, length,
}
use adr_architecture_kit.Topology.{is_empty}
use adr_architecture_kit.CanonicalInvariants.{
  Mention, duplicate_definition, semantic_collision, standalone_authority_retired, all_alike,
  CanonicalInvariantSelection, is_standalone_definition, is_adr_definition, is_definition,
  selection, select_first, resolve_definitions, resolve_invariant, resolve_invariant_canonical,
}

-- No mention is a standalone definition, and one is the definition in a logical ADR.
abbrev pub IsDefinedBy : String × List Mention → CanonicalInvariantSelection → Type 0
IsDefinedBy entry result =
    All (λ item. is_standalone_definition entry.0 item ≡ false) entry.1
    × ((definition : Mention) × (filter is_adr_definition entry.1 ≡ definition ∷ [])
        × (selection entry.0 entry.1 definition ≡ result))

abbrev pub AreDefinedBy : List (String × List Mention) → List CanonicalInvariantSelection → Type 0
AreDefinedBy [] [] = Unit
AreDefinedBy (entry ∷ entries) (result ∷ results) =
    IsDefinedBy entry result × AreDefinedBy entries results
AreDefinedBy _ _ = ⊥

filter-filter :
    {A : Type 0} (p q : A → Bool) (xs : List A)
    → ((x : A) → p x ≡ true → q x ≡ true)
    → filter p (filter q xs) ≡ filter p xs
filter-filter p q [] h = refl
filter-filter p q (x ∷ xs) h = elim (Bool-cases (q x)) [
  | inl e ↦ rw (e) (ap (λ rest. if p x then x ∷ rest else rest) (filter-filter p q xs h))
  | inr e ↦ elim (Bool-cases (p x)) [
    | inl f ↦ absurd (cc (h x f))
    | inr f ↦ rw (e, f) (filter-filter p q xs h)
  ]
]

empty_iff :
    {A : Type 0} (p : A → Bool) (xs : List A)
    → (is_empty (filter p xs) ≡ true) ↔ All (λ x. p x ≡ false) xs
empty_iff p [] = (λ h. tt, λ h. refl)
empty_iff p (x ∷ xs) = elim (Bool-cases (p x)) [
  | inl e ↦ rw (e) (λ h. absurd (cc), λ h. absurd (cc (h.0)))
  | inr e ↦ rw (e) (λ h. (refl, (empty_iff p xs).0 h), λ h. (empty_iff p xs).1 h.1)
]

-- What is left after the guards on the number of definitions.
select_first_iff :
    (inv_id : String) (mentions definitions : List Mention) (result : CanonicalInvariantSelection)
    → ((ltb 1 (length definitions) ≡ false)
        × (select_first inv_id mentions definitions ≡ ok result))
      ↔ ((definition : Mention) × (definitions ≡ definition ∷ [])
          × (selection inv_id mentions definition ≡ result))
unfolding select_first
select_first_iff inv_id mentions [] result = (λ h. absurd (cc (h.1)), λ h. absurd (cc (h.1)))
select_first_iff inv_id mentions (definition ∷ []) result = (
  λ h. (definition, refl, cc (h.1)),
  λ h.
      let same : definition ≡ h.0 = cc (h.1) in
      (refl, ap ok (ap (selection inv_id mentions) same ∙ h.2)),
)
select_first_iff inv_id mentions (definition ∷ other ∷ rest) result =
    (λ h. absurd (ground arith), λ h. absurd (cc (h.1)))

standalone-raises :
    (inv_id : String) (adr several alike more : Bool) (result : CanonicalInvariantSelection)
    → (if not adr || several
        then (if alike && more
            then raise (duplicate_definition inv_id)
            else raise (semantic_collision inv_id))
        else raise (standalone_authority_retired inv_id))
      ≡ ok result
    → ⊥
standalone-raises inv_id adr several alike more result h = elim (Bool-cases (not adr || several)) [
  | inl e ↦ either-raises (alike && more) _ _ result (rw (e) at h)
  | inr e ↦ cc (rw (e) at h)
]

resolve_definitions_iff :
    (inv_id : String) (mentions definitions standalone_defs adr_defs : List Mention)
    (result : CanonicalInvariantSelection)
    → (resolve_definitions inv_id mentions definitions standalone_defs adr_defs ≡ ok result) ↔ (
        (is_empty standalone_defs ≡ true)
        × ((definition : Mention) × (adr_defs ≡ definition ∷ [])
            × (selection inv_id mentions definition ≡ result)))
unfolding resolve_definitions
resolve_definitions_iff inv_id mentions definitions standalone_defs adr_defs result =
    let none_alone = refuses_iff (not (is_empty standalone_defs)) _ _ result (
      standalone-raises inv_id (is_empty adr_defs) (ltb 1 (length standalone_defs))
        (all_alike definitions) (ltb 1 (length definitions)) result) in
    let some_adr = passes_iff (eqb (length adr_defs) 0) _ _ result in
    let one_adr =
      refuses_iff (ltb 1 (length adr_defs)) _ (select_first inv_id mentions adr_defs) result
        (either-raises (all_alike adr_defs) _ _ result) in
    let first = select_first_iff inv_id mentions adr_defs result in
    (
      λ h.
          let h1 = none_alone.0 h in
          let h2 = some_adr.0 h1.1 in (not-false _ h1.0, first.0 (one_adr.0 h2.1)),
      λ h.
          let last = first.1 h.1 in
          none_alone.1 (not-true _ h.0, some_adr.1 (has_one adr_defs h.1.0 h.1.1, one_adr.1 last)),
    )
  where
    has_one : (xs : List Mention) (x : Mention) → xs ≡ x ∷ [] → eqb (length xs) 0 ≡ false
    has_one xs x h = rw (h) refl

resolve_invariant_iff :
    (entry : String × List Mention) (result : CanonicalInvariantSelection)
    → (resolve_invariant entry.0 entry.1 ≡ ok result) ↔ IsDefinedBy entry result
unfolding resolve_invariant
resolve_invariant_iff entry result =
    let definitions = filter (is_definition entry.0) entry.1 in
    let adr =
      filter-filter is_adr_definition (is_definition entry.0) entry.1
        (λ item h. adr_is entry.0 item h) in
    let alone =
      filter-filter (is_standalone_definition entry.0) (is_definition entry.0) entry.1
        (λ item h. alone_is entry.0 item h) in
    let whole =
      resolve_definitions_iff entry.0 entry.1 definitions
        (filter (is_standalone_definition entry.0) definitions)
        (filter is_adr_definition definitions) result in
    let no_alone = empty_iff (is_standalone_definition entry.0) entry.1 in
    (
      λ h.
          let parts = whole.0 h in
          (
            no_alone.0 (ap is_empty (sym alone) ∙ parts.0),
            (parts.1.0, sym adr ∙ parts.1.1, parts.1.2),
          ),
      λ h. whole.1 (ap is_empty alone ∙ no_alone.1 h.0, (h.1.0, adr ∙ h.1.1, h.1.2)),
    )
  where
    adr_is :
        (inv_id : String) (item : Mention)
        → is_adr_definition item ≡ true
        → is_definition inv_id item ≡ true
    adr_is inv_id item h = rw (h) refl

    or_true : (b : Bool) → (b || true) ≡ true
    or_true true = refl
    or_true false = refl

    alone_is :
        (inv_id : String) (item : Mention)
        → is_standalone_definition inv_id item ≡ true
        → is_definition inv_id item ≡ true
    alone_is inv_id item h = rw (h) (or_true (is_adr_definition item))

-- The invariants resolve exactly if each one has no standalone definition and just one in a logical
-- ADR; the result then has the selection of that definition for each, in their order.
pub resolve_invariant_canonical-AreDefinedBy :
    (invariant_mentions : List (String × List Mention)) (results : List CanonicalInvariantSelection)
    → (resolve_invariant_canonical invariant_mentions ≡ ok results)
      ↔ AreDefinedBy invariant_mentions results
unfolding resolve_invariant_canonical
resolve_invariant_canonical-AreDefinedBy [] [] = (λ h. tt, λ h. refl)
resolve_invariant_canonical-AreDefinedBy [] (result ∷ results) = (λ h. absurd (cc), λ h. absurd h)
resolve_invariant_canonical-AreDefinedBy (entry ∷ entries) [] = (
  λ h.
      let first = Returns-bind (resolve_invariant entry.0 entry.1) _ h in
      let rest = Returns-bind (resolve_invariant_canonical entries) _ first.2 in
      absurd (cc (rest.2)),
  λ h. absurd h,
)
resolve_invariant_canonical-AreDefinedBy (entry ∷ entries) (result ∷ results) = (
  λ h.
      let first = Returns-bind (resolve_invariant entry.0 entry.1) _ h in
      let rest = Returns-bind (resolve_invariant_canonical entries) _ first.2 in
      let head : first.0 ≡ result = cc (rest.2) in
      let tail : rest.0 ≡ results = cc (rest.2) in
      (
        (resolve_invariant_iff entry result).0 (first.1 ∙ ap ok head),
        (resolve_invariant_canonical-AreDefinedBy entries results).0 (rest.1 ∙ ap ok tail),
      ),
  λ h.
      rw
        (
          (resolve_invariant_iff entry result).1 h.0,
          (resolve_invariant_canonical-AreDefinedBy entries results).1 h.1,
        )
        refl,
)
