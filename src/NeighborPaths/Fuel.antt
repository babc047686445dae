-- ===== src/NeighborPaths/Fuel.antt =====
-- src/adr_kit/compiler/backend/neighbor_paths.py: the search has fuel enough.
use adr_architecture_kit.Base.{
  ℕ, suc, ◌+◌, ◌*◌, ◌≤◌, String, none, List, [], ◌∷◌, ◌++◌, Bool, true, ◌==◌, ◌&&◌, ◌||◌, ◌≡◌, refl,
  sym, ap, ◌∙◌, arith, eq_iff, if◌then◌else◌, All, Bool-cases, inl, inr, contains, item_of, put,
  item_of-put, Option-cases, length,
}
use adr_architecture_kit.Compiler.{IrRelationship, is_some}
use adr_architecture_kit.NeighborPaths.{Search, offer, offer_all}
use adr_architecture_kit.NeighborPaths.Hops.{leads, joined}

-- The ends of the relationships.
abbrev pub ends : List IrRelationship → List String
ends [] = []
ends (rel ∷ rels) = rel.from_entity_id ∷ rel.to_entity_id ∷ ends rels

-- How many of the nodes have no distance yet.
abbrev pub unseen : List (String × ℕ) → List String → ℕ
unseen dist [] = 0
unseen dist (v ∷ vs) =
    let rest = unseen dist vs in if is_some (item_of v dist) then rest else rest + 1

length-append {ℓ} : {A : Type ℓ} (xs : List A) (x : A) → length (xs ++ (x ∷ [])) ≡ length xs + 1
length-append [] x = refl
length-append (y ∷ xs) x = ap (λ n. n + 1) (length-append xs x)

pub length-ends :
    (relationships : List IrRelationship) → length (ends relationships) ≡ 2 * length relationships
length-ends [] = refl
length-ends (rel ∷ rels) = omega (arith, length-ends rels)

pub unseen-length :
    (dist : List (String × ℕ)) (nodes : List String) → unseen dist nodes ≤ length nodes
unseen-length dist [] = omega arith
unseen-length dist (v ∷ vs) = ground (arith, unseen-length dist vs)

some-end :
    (composed declared from_u to_v to_u from_v : Bool)
    → (composed && (from_u && to_v)) || (declared && ((from_u && to_v) || (to_u && from_v))) ≡ true
    → from_v || to_v ≡ true
some-end composed declared from_u to_v to_u from_v h = ground arith

either-end :
    (a b c d : Bool)
    → (a ≡ true → c || d ≡ true)
    → (a || b ≡ true)
    → (e : Bool) → (b ≡ true → e ≡ true)
    → c || (d || e) ≡ true
either-end a b c d f h e g = ground arith

pub joined-ends :
    (u v : String) (relationships : List IrRelationship)
    → joined relationships u v ≡ true
    → contains v (ends relationships) ≡ true
unfolding joined leads
joined-ends u v [] h = absurd (cc)
joined-ends u v (rel ∷ rels) h =
    either-end (leads u v rel) (joined rels u v) (rel.from_entity_id == v) (rel.to_entity_id == v)
      (some-end (rel.relationship_type == "composed_of") (rel.relationship_type == "declared_in")
        (rel.from_entity_id == u) (rel.to_entity_id == v) (rel.to_entity_id == u)
        (rel.from_entity_id == v))
      h (contains v (ends rels)) (joined-ends u v rels)

module _ (key : String) (n : ℕ) (dist : List (String × ℕ)) where
  unseen-put : (nodes : List String) → unseen (put key n dist) nodes ≤ unseen dist nodes
  unseen-put [] = omega arith
  unseen-put (v ∷ vs) = elim (Bool-cases (key == v)) [
    | inl e ↦ rw (item_of-put key v n dist, e) (ground (arith, unseen-put vs))
    | inr e ↦ rw (item_of-put key v n dist, e) (ground (arith, unseen-put vs))
  ]

  unseen-put_new :
      (nodes : List String)
      → item_of key dist ≡ none
      → contains key nodes ≡ true
      → unseen (put key n dist) nodes + 1 ≤ unseen dist nodes
  unseen-put_new [] new c = absurd (cc)
  unseen-put_new (v ∷ vs) new c = elim (Bool-cases (key == v)) [
    | inl e ↦
        let absent : item_of v dist ≡ none =
          ap (λ w. item_of w dist) (sym ((eq_iff key v).0 e)) ∙ new in
        rw (item_of-put key v n dist, e, absent) (omega (arith, unseen-put vs))
    | inr e ↦
        let later : contains key vs ≡ true = ground (arith, eq_iff v key, eq_iff key v) in
        rw (item_of-put key v n dist, e) (ground (arith, unseen-put_new vs new later))
  ]

module _ (nodes : List String) (n : ℕ) where
  -- What a round adds to the queue it takes from the nodes without a distance.
  abbrev pub work : Search → ℕ
  work s = length s.queue + unseen s.dist nodes

  work-offer :
      (next : String) (s : Search) → contains next nodes ≡ true → work (offer n next s) ≤ work s
  unfolding offer
  work-offer next s c = elim (Option-cases (item_of next s.dist)) [
    | inr (k, e) ↦ rw (e, offer) (omega arith)
    | inl e ↦
        rw (e, offer)
          (omega (arith, unseen-put_new next (suc n) s.dist nodes e c, length-append s.queue next))
  ]

  pub work-offer_all :
      (nexts : List String) (s : Search)
      → All (λ next. contains next nodes ≡ true) nexts
      → work (offer_all n nexts s) ≤ work s
  unfolding offer_all
  work-offer_all [] s h = omega arith
  work-offer_all (next ∷ nexts) s h =
      omega (arith, work-offer_all nexts (offer n next s) h.1, work-offer next s h.0)
