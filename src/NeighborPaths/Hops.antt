-- ===== src/NeighborPaths/Hops.antt =====
-- src/adr_kit/compiler/backend/neighbor_paths.py: what the neighbors of a node are.
use adr_architecture_kit.Base.{
  String, List, [], ◌∷◌, Bool, false, ◌==◌, ◌&&◌, ◌||◌, ◌≡◌, refl, ap, ◌∙◌, arith, eq_iff,
  if◌then◌else◌, Bool-cases, inl, inr, any, contains, any-append, put, item_of-put,
}
use adr_architecture_kit.Compiler.{IrRelationship}
use adr_architecture_kit.NeighborPaths.{
  set_of, add_to, Bridges, bridge, bridges, no_bridges, neighbors,
}

-- A relationship leads from a node to another: to a part, or between a member and what declares it.
unfoldable pub leads : String → String → IrRelationship → Bool
leads u v rel =
    (rel.relationship_type == "composed_of" && (rel.from_entity_id == u && rel.to_entity_id == v))
    || (rel.relationship_type == "declared_in"
        && ((rel.from_entity_id == u && rel.to_entity_id == v)
            || (rel.to_entity_id == u && rel.from_entity_id == v)))

-- One of the relationships leads from `u` to `v`.
unfoldable pub joined : List IrRelationship → String → String → Bool
joined relationships u v = any (leads u v) relationships

set_of-put :
    (u key : String) (elements : List String) (sets : List (String × List String))
    → set_of u (put key elements sets) ≡ (if key == u then elements else set_of u sets)
unfolding set_of
set_of-put u key elements sets = elim (Bool-cases (key == u)) [
  | inl e ↦ rw (item_of-put key u elements sets, set_of, e) refl
  | inr e ↦ rw (item_of-put key u elements sets, set_of, e) refl
]

contains-add_to :
    (u v key value : String) (sets : List (String × List String))
    → contains v (set_of u (add_to key value sets))
      ≡ ((key == u && value == v) || contains v (set_of u sets))
unfolding add_to
contains-add_to u v key value sets =
    ap (contains v) (set_of-put u key (value ∷ set_of key sets) sets)
    ∙ elim (Bool-cases (key == u)) [
      | inl e ↦ rw (e) (ap (λ k. value == v || contains v (set_of k sets)) ((eq_iff key u).0 e))
      | inr e ↦ rw (e) refl
    ]

contains-bridge :
    (u v : String) (rel : IrRelationship) (b : Bridges)
    → contains v (neighbors (bridge rel b) u) ≡ (leads u v rel || contains v (neighbors b u))
unfolding neighbors bridge leads
contains-bridge u v rel b = elim (Bool-cases (rel.relationship_type == "composed_of")) [
  | inl e ↦
      let other : (rel.relationship_type == "declared_in") ≡ false =
        rw ((eq_iff rel.relationship_type "composed_of").0 e) refl in
      rw (e, other)
        (ground (
          arith,
          any-append (λ y. y == v) (set_of u b.local) (set_of u b.composed),
          any-append (λ y. y == v) (set_of u b.local)
              (set_of u (add_to rel.from_entity_id rel.to_entity_id b.composed)),
          contains-add_to u v rel.from_entity_id rel.to_entity_id b.composed,
        ))
  | inr e ↦ elim (Bool-cases (rel.relationship_type == "declared_in")) [
    | inl f ↦
        rw (e, f)
          (ground (
            arith,
            any-append (λ y. y == v) (set_of u b.local) (set_of u b.composed),
            any-append (λ y. y == v)
                (set_of u (
                  add_to rel.to_entity_id rel.from_entity_id
                    (add_to rel.from_entity_id rel.to_entity_id b.local)))
                (set_of u b.composed),
            contains-add_to u v rel.to_entity_id rel.from_entity_id
                (add_to rel.from_entity_id rel.to_entity_id b.local),
            contains-add_to u v rel.from_entity_id rel.to_entity_id b.local,
          ))
    | inr f ↦ rw (e, f) refl
  ]
]

contains-bridges :
    (u v : String) (relationships : List IrRelationship) (b : Bridges)
    → contains v (neighbors (bridges relationships b) u)
      ≡ (any (leads u v) relationships || contains v (neighbors b u))
unfolding bridges
contains-bridges u v [] b = refl
contains-bridges u v (rel ∷ rels) b =
    ground (arith, contains-bridges u v rels (bridge rel b), contains-bridge u v rel b)

pub contains-neighbors :
    (u v : String) (relationships : List IrRelationship)
    → contains v (neighbors (bridges relationships no_bridges) u) ≡ joined relationships u v
unfolding joined neighbors set_of
contains-neighbors u v relationships = contains-bridges u v relationships no_bridges ∙ ground arith
