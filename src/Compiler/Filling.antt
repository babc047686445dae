-- ===== src/Compiler/Filling.antt =====
-- src/adr_kit/compiler/pipeline.py: the relationships and the unresolved records of a whole run.
use adr_architecture_kit.Base.{
  false, String, List, [], ◌∷◌, ◌++◌, map, true, false, ◌==◌, ◌≡◌, refl, sym, ap, ◌∙◌, ◌↔◌, arith,
  eq_iff, ok, Returns-bind, bind-passes_iff, any, any-append, All, All-map, IsDistinct,
  append_assoc, append_nil, sort_by, IsSorted, sort_by-sorted, text_le,
}
use adr_architecture_kit.Relationships.Documents.{LogicalAdr, PhysicalAdr, Entity}
use adr_architecture_kit.Relationships.State.{
  DerivedRelationship, DerivedGapSignal, Derivation, colon_joined,
}
use adr_architecture_kit.Relationships.Derive.{gap_key, derive_relationships}
use adr_architecture_kit.Relationships.Derive
use adr_architecture_kit.Relationships.Integrity.{IsNamed, derive_relationships-IsDistinct}
use adr_architecture_kit.Compiler.{
  IrRelationship, IrUnresolved, duplicate_unresolved, is_some, get, add, add_if_absent, values,
  relationship_key, unresolved_id, post_init,
}
use adr_architecture_kit.Compiler.Stores.{absent_iff, assign-new}
use adr_architecture_kit.Compiler.Pipeline.{
  PipelineState, unresolved_of, detect_unresolved, add_all_unresolved, run_unresolved_detection,
  relationship_of, infer_relationships,
}

-- The keys of `xs` are not in the store.
abbrev pub AreNew : {A : Type 0} → (A → String) → List A → List A → Type 0
AreNew key store xs = All (λ x. any (λ y. key y == key x) store ≡ false) xs

module _ {A : Type 0} (key : A → String) where
  AreNew-append :
      (x : A) (store xs : List A)
      → AreNew key (store ++ (x ∷ [])) xs
        ↔ ((any (λ y. key y == key x) xs ≡ false) × AreNew key store xs)
  AreNew-append x store [] = (λ h. (refl, tt), λ h. tt)
  AreNew-append x store (z ∷ zs) =
      let split = any-append (λ y. key y == key z) store (x ∷ []) in
      let same = eq_iff (key x) (key z) in
      let same' = eq_iff (key z) (key x) in
      (
        λ h.
            let later = (AreNew-append x store zs).0 h.1 in
            (ground (arith, split, same, same'), (ground (arith, split), later.1)),
        λ h. (
          ground (arith, split, same, same'),
          (AreNew-append x store zs).1 (ground arith, h.1.1),
        ),
      )

  add_if_absent-new :
      (x : A) (store : List A)
      → any (λ y. key y == key x) store ≡ false
      → add_if_absent key x store ≡ store ++ (x ∷ [])
  unfolding add_if_absent
  add_if_absent-new x store h =
      let absent : is_some (get key (key x) store) ≡ false =
        sym (absent_iff key (key x) store) ∙ h in
      rw (absent) (assign-new key x store h)

  all_new : (xs : List A) → AreNew key [] xs
  all_new [] = tt
  all_new (x ∷ xs) = (refl, all_new xs)

  IsDistinct-map :
      {B : Type 0} (f : B → A) (id : B → String) (xs : List B)
      → All (λ x. key (f x) ≡ id x) xs
      → IsDistinct id xs ↔ IsDistinct key (map f xs)
  IsDistinct-map f id [] same = (λ d. tt, λ d. tt)
  IsDistinct-map f id (x ∷ xs) same =
      let here = any-map f id x xs same.0 same.1 in
      let later = IsDistinct-map f id xs same.1 in
      (λ d. (here ∙ d.0, later.0 d.1), λ d. (sym here ∙ d.0, later.1 d.1))
    where
      any-map :
          {B : Type 0} (f : B → A) (id : B → String) (x : B) (xs : List B)
          → key (f x) ≡ id x
          → All (λ x. key (f x) ≡ id x) xs
          → any (λ y. key y == key (f x)) (map f xs) ≡ any (λ y. id y == id x) xs
      any-map f id x [] here same = refl
      any-map f id x (y ∷ ys) here same = rw (here, same.0, any-map f id x ys here same.1) refl

  IsSorted-map :
      {B : Type 0} (f : B → A) (id : B → String) (xs : List B)
      → All (λ x. key (f x) ≡ id x) xs
      → IsSorted id xs
      → IsSorted key (map f xs)
  IsSorted-map f id [] same s = tt
  IsSorted-map f id (x ∷ xs) same s =
      (after f id x xs same.0 same.1 s.0, IsSorted-map f id xs same.1 s.1)
    where
      after :
          {B : Type 0} (f : B → A) (id : B → String) (x : B) (xs : List B)
          → key (f x) ≡ id x
          → All (λ x. key (f x) ≡ id x) xs
          → All (λ y. text_le (id x) (id y) ≡ true) xs
          → All (λ y. text_le (key (f x)) (key y) ≡ true) (map f xs)
      after f id x [] here same h = tt
      after f id x (y ∷ ys) here same h = (rw (here, same.0) h.0, after f id x ys here same.1 h.1)

module _ (dumps : List String → String) (sha256_hex : String → String) where
  infer-append :
      (items : List DerivedRelationship) (graph : List IrRelationship)
      → AreNew relationship_key graph (map (relationship_of dumps sha256_hex) items)
      → IsDistinct relationship_key (map (relationship_of dumps sha256_hex) items)
      → infer_relationships dumps sha256_hex items graph
        ≡ graph ++ map (relationship_of dumps sha256_hex) items
  unfolding infer_relationships add_if_absent
  infer-append [] graph h d = sym (append_nil graph)
  infer-append (item ∷ items) graph h d =
      let new = relationship_of dumps sha256_hex item in
      ap (infer_relationships dumps sha256_hex items)
        (add_if_absent-new relationship_key new graph h.0)
      ∙ infer-append items (graph ++ (new ∷ []))
          ((AreNew-append relationship_key new graph _).1 (d.0, h.1)) d.1
      ∙ append_assoc graph (new ∷ []) (map (relationship_of dumps sha256_hex) items)

  key_of :
      (items : List DerivedRelationship)
      → All (IsNamed colon_joined) items
      → All
          (λ item.
            relationship_key (relationship_of dumps sha256_hex item) ≡ Derive.relationship_key item)
          items
  unfolding relationship_of post_init colon_joined
  key_of items named = All-map items (λ item h. sym h) named

  -- After a derivation that returns, an empty graph is filled with exactly its relationships, and
  -- the graph gives them in its order.
  pub infer_relationships-derive_relationships :
      (entities : List Entity) (system_ids : List (String × String))
      (logical_adrs : List LogicalAdr) (physical_adrs : List PhysicalAdr) (result : Derivation)
      → derive_relationships dumps sha256_hex colon_joined entities system_ids logical_adrs
          physical_adrs
        ≡ ok result
      → values relationship_key (infer_relationships dumps sha256_hex result.relationships [])
        ≡ map (relationship_of dumps sha256_hex) result.relationships
  unfolding values
  infer_relationships-derive_relationships entities system_ids logical_adrs physical_adrs result e =
      let shape =
        derive_relationships-IsDistinct dumps sha256_hex colon_joined entities system_ids
          logical_adrs physical_adrs result e in
      let keys = key_of result.relationships shape.2 in
      let filled =
        infer-append result.relationships []
          (all_new relationship_key (map (relationship_of dumps sha256_hex) result.relationships))
          ((IsDistinct-map relationship_key (relationship_of dumps sha256_hex)
              Derive.relationship_key result.relationships keys).0
            shape.1) in
      ap (sort_by relationship_key) filled
      ∙ sort_by-sorted relationship_key _ (
          IsSorted-map relationship_key (relationship_of dumps sha256_hex) Derive.relationship_key
            result.relationships keys shape.0)

add_all_unresolved_iff :
    (items store result : List IrUnresolved)
    → (add_all_unresolved items store ≡ ok result) ↔ (
        AreNew unresolved_id store items
        × IsDistinct unresolved_id items
        × (store ++ items ≡ result))
unfolding add_all_unresolved add
add_all_unresolved_iff [] store result =
    (λ h. (tt, tt, append_nil store ∙ cc), λ h. ap ok (sym (append_nil store) ∙ h.2))
add_all_unresolved_iff (item ∷ items) store result =
    let here =
      bind-passes_iff (is_some (get unresolved_id item.id store)) (duplicate_unresolved item.id)
        (ok (store ++ (item ∷ []))) (λ next. add_all_unresolved items next) result in
    let later = add_all_unresolved_iff items (store ++ (item ∷ [])) result in
    let absent = absent_iff unresolved_id item.id store in
    let new = AreNew-append unresolved_id item store items in
    let together = append_assoc store (item ∷ []) items in
    (
      λ h.
          let first = here.0 h in
          let rest = later.0 first.1 in
          let apart = new.0 rest.0 in
          ((absent ∙ first.0, apart.1), (apart.0, rest.1), sym together ∙ rest.2),
      λ h. here.1 (sym absent ∙ h.0.0, later.1 (new.1 (h.1.0, h.0.1), h.1.1, together ∙ h.2)),
    )

gap_keys :
    (gaps : List DerivedGapSignal)
    → All (λ gap. unresolved_id (unresolved_of gap) ≡ gap_key gap) gaps
unfolding unresolved_of
gap_keys [] = tt
gap_keys (gap ∷ gaps) = (refl, gap_keys gaps)

-- The detection returns exactly if no gap has the id of a record that is there and no two gaps have
-- the same id; then the records of the gaps are added in their order. Else it raises.
pub run_unresolved_detection-IsDistinct :
    (generator_gaps : List DerivedGapSignal) (state next : PipelineState)
    → (run_unresolved_detection generator_gaps state ≡ ok next) ↔ (
        AreNew unresolved_id state.unresolved (detect_unresolved generator_gaps)
        × IsDistinct gap_key generator_gaps
        × (record state { unresolved = state.unresolved ++ detect_unresolved generator_gaps }
            ≡ next))
unfolding run_unresolved_detection detect_unresolved unresolved_of
run_unresolved_detection-IsDistinct generator_gaps state next =
    let items = detect_unresolved generator_gaps in
    let distinct =
      IsDistinct-map unresolved_id unresolved_of gap_key generator_gaps (gap_keys generator_gaps) in
    (
      λ h.
          let run = Returns-bind (add_all_unresolved items state.unresolved) _ h in
          let filled = (add_all_unresolved_iff items state.unresolved run.0).0 run.1 in
          (
            filled.0,
            distinct.1 filled.1,
            ap (λ unresolved. record state { unresolved = unresolved }) filled.2 ∙ cc (run.2),
          ),
      λ h.
          let filled =
            (add_all_unresolved_iff items state.unresolved (state.unresolved ++ items)).1
              (h.0, distinct.0 h.1, refl) in
          rw (filled) (ap ok h.2),
    )
