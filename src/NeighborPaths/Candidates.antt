-- ===== src/NeighborPaths/Candidates.antt =====
-- src/adr_kit/compiler/backend/neighbor_paths.py: what the candidates are.
use mathlib.Core.List.{Memᴰ}
use mathlib.Core.List.Memᴰ
use mathlib.Core.Logic.{⊎_elim}
use adr_architecture_kit.Base.{
  ℕ, String, Option, some, List, [], ◌∷◌, ◌++◌, true, ◌==◌, item_of, map, contains, ◌≡◌, refl, sym,
  ap, subst, ◌∙◌, ◌↔◌, ◌⊎◌, inl, inr, arith, eq_iff, Bool-cases, Option-cases,
}
use adr_architecture_kit.Compiler.{IrRelationship}
use adr_architecture_kit.NeighborPaths.Rounds.{IsDistance}
use adr_architecture_kit.NeighborPaths.Shortest.{structural_distance-IsDistance}
use adr_architecture_kit.NeighborPaths.Nearby.{suffix}
use adr_architecture_kit.NeighborPaths.Peers.{
  IsPeer, IsPeer-cases, IsPeer-adr, IsPeer-owner, IsPathFrom, IsPathAlong, IsPathOver,
}
use adr_architecture_kit.NeighborPaths.Selection.{
  NeighborPath, semantic_architecture, is_adr, path_of, both, peers_of, far_and_peers, paths_to,
  from_end, candidates,
}

-- There is a list, and its elements are the ones with the property.
abbrev pub Gives {ℓ κ} : {A : Type ℓ} → Option (List A) → (A → Type κ) → Type (ℓ ⊔ κ)
Gives {A = A} result P = (xs : List A) × (result ≡ some xs) × ((a : A) → Memᴰ a xs ↔ P a)

Gives-both {ℓ κ μ} :
    {A : Type ℓ} {P : A → Type κ} {Q : A → Type μ} (one two : Option (List A))
    → Gives one P
    → Gives two Q
    → Gives (both one two) (λ a. P a ⊎ Q a)
Gives-both one two (xs, e, h) (ys, f, k) = (
  xs ++ ys,
  rw (e, f) refl,
  λ a. (
    λ m. ⊎_elim (λ p. inl ((h a).0 p)) (λ q. inr ((k a).0 q)) (Memᴰ.append_cases xs m),
    ⊎_elim (λ p. Memᴰ.append_left ys ((h a).1 p)) (λ q. Memᴰ.append_right xs ((k a).1 q)),
  ),
)

Gives-nothing {ℓ κ} : {A : Type ℓ} {P : A → Type κ} → ((a : A) → P a → ⊥) → Gives (some []) P
Gives-nothing none_of = ([], refl, λ a. (λ m. absurd (Memᴰ.not-nil m), λ p. absurd (none_of a p)))

Memᴰ-map {ℓ} :
    {A : Type ℓ} (f : String → A) (xs : List String) (a : A)
    → Memᴰ a (map f xs) ↔ ((x : String) × (contains x xs ≡ true) × (a ≡ f x))
Memᴰ-map f [] a = (λ m. absurd (Memᴰ.not-nil m), λ h. absurd (cc (h.1)))
Memᴰ-map f (x ∷ xs) a = (
  λ m.
      ⊎_elim (λ e. (x, ground (arith, eq_iff x x), e))
        (λ later. let (y, c, e) = (Memᴰ-map f xs a).0 later in (y, ground arith, e))
        (Memᴰ.cases_cons m),
  λ (y, c, e). elim (Bool-cases (x == y)) [
    | inl same ↦ Memᴰ.head (e ∙ ap f (sym ((eq_iff x y).0 same)))
    | inr other ↦ Memᴰ.tail ((Memᴰ-map f xs a).1 (y, ground arith, e))
  ],
)

module _ (iterate : List String → List String)
    (same_elements : (xs : List String) (x : String) → contains x (iterate xs) ≡ contains x xs)
    (relationships : List IrRelationship) (subject_id : String)
    (entity_types declared_in : List (String × String)) where
  -- The far end has been searched: the peers, with their suffixes.
  abbrev Searched : String → List (String × ℕ) × List String → Type 0
  Searched far found =
      (peer : String) (n : ℕ)
      → ((contains peer (iterate found.1) ≡ true)
          × (n ≡ suffix entity_types declared_in found.0 peer))
        ↔ IsPeer relationships subject_id entity_types declared_in far peer n

  far_and_peers-IsPeer :
      (far : String)
      → (found : List (String × ℕ) × List String) × (far_and_peers iterate subject_id relationships
            entity_types declared_in far
          ≡ some found)
        × Searched far found
  unfolding far_and_peers
  far_and_peers-IsPeer far = elim (Bool-cases (is_adr entity_types far)) [
    | inl e ↦ elim (Bool-cases (far == subject_id)) [
      | inl d ↦ (
        ([], []),
        rw (e, d) refl,
        λ peer n. (
          λ (c, _). absurd (ground (arith, same_elements [] peer)),
          λ p. elim (IsPeer-cases relationships subject_id entity_types declared_in far peer n p) [
            | inl (_, other, _, _) ↦ absurd (cc (d, other))
            | inr owned ↦ absurd (cc (e, owned.1))
          ],
        ),
      )
      | inr d ↦ (
        ((far, 0) ∷ [], far ∷ []),
        rw (e, d) refl,
        IsPeer-adr iterate same_elements relationships subject_id entity_types declared_in far e d,
      )
    ]
    | inr e ↦
        let (dist, returned, h) =
          structural_distance-IsDistance iterate same_elements relationships (far ∷ []) in
        (
          (dist, peers_of entity_types declared_in subject_id dist),
          rw (e, returned, far_and_peers) refl,
          IsPeer-owner iterate same_elements relationships subject_id entity_types declared_in far e
              dist h,
        )
  ]

  abbrev PathFrom : List String → IrRelationship → String → String → NeighborPath → Type 0
  PathFrom = IsPathFrom relationships subject_id entity_types declared_in

  abbrev PathAlong : List String → NeighborPath → IrRelationship → Type 0
  PathAlong = IsPathAlong relationships subject_id entity_types declared_in

  abbrev PathOver : List String → List IrRelationship → NeighborPath → Type 0
  PathOver = IsPathOver relationships subject_id entity_types declared_in

  module _ (owned : List String) (subject_side : List (String × ℕ))
      (h : (v : String) (n : ℕ)
        → (item_of v subject_side ≡ some n) ↔ IsDistance relationships owned v n) where
    from_end-IsPathFrom :
        (rel : IrRelationship) (start far : String)
        → Gives
            (from_end iterate subject_id relationships entity_types declared_in subject_side rel
              start far)
            (PathFrom owned rel start far)
    unfolding from_end paths_to
    from_end-IsPathFrom rel start far = elim (Option-cases (item_of start subject_side)) [
      | inl e ↦
          rw (e, from_end)
            (Gives-nothing (λ path (prefix, peer, n, d, _, _).
              let at = (h start prefix).1 d in absurd (cc (sym e ∙ at))))
      | inr (prefix, e) ↦
          let (found, returned, searched) = far_and_peers-IsPeer far in
          let to =
            λ (p : String). path_of rel p prefix (suffix entity_types declared_in found.0 p) in
          (
            paths_to entity_types declared_in rel prefix found.0 (iterate found.1),
            rw (e, returned, from_end) refl,
            λ path. (
              λ m.
                  let (peer, c, same) = (Memᴰ-map to (iterate found.1) path).0 m in
                  let n = suffix entity_types declared_in found.0 peer in
                  (prefix, peer, n, (h start prefix).0 e, (searched peer n).0 (c, refl), same),
              λ (prefix', peer, n, d, p, same).
                  let (c, steps) = (searched peer n).1 p in
                  let both_found : some prefix ≡ some prefix' = sym e ∙ (h start prefix').1 d in
                  let equal : prefix ≡ prefix' = cc (both_found) in
                  (Memᴰ-map to (iterate found.1) path).1
                    (peer, c, same ∙ λ i. path_of rel peer (sym equal i) (steps i)),
            ),
          )
    ]

    pub candidates-IsPathOver :
        (rels : List IrRelationship)
        → Gives
            (candidates iterate subject_id relationships entity_types declared_in subject_side rels)
            (PathOver owned rels)
    unfolding candidates
    candidates-IsPathOver [] = Gives-nothing (λ path (rel, m, _, _). absurd (Memᴰ.not-nil m))
    candidates-IsPathOver (rel ∷ rels) =
        elim (Bool-cases (contains rel.relationship_type semantic_architecture)) [
          | inl e ↦
              let (paths, returned, k) =
                Gives-both
                  (from_end iterate subject_id relationships entity_types declared_in subject_side
                    rel rel.from_entity_id rel.to_entity_id)
                  (both
                    (from_end iterate subject_id relationships entity_types declared_in subject_side
                      rel rel.to_entity_id rel.from_entity_id)
                    (candidates iterate subject_id relationships entity_types declared_in
                      subject_side rels))
                  (from_end-IsPathFrom rel rel.from_entity_id rel.to_entity_id)
                  (Gives-both
                    (from_end iterate subject_id relationships entity_types declared_in subject_side
                      rel rel.to_entity_id rel.from_entity_id)
                    (candidates iterate subject_id relationships entity_types declared_in
                      subject_side rels)
                    (from_end-IsPathFrom rel rel.to_entity_id rel.from_entity_id)
                    (candidates-IsPathOver rels)) in
              (
                paths,
                rw (e) returned,
                λ path. (
                  λ m. elim ((k path).0 m) [
                    | inl p ↦ (rel, Memᴰ.head refl, e, inl p)
                    | inr (inl p) ↦ (rel, Memᴰ.head refl, e, inr p)
                    | inr (inr (other, among, semantic, p)) ↦ (other, Memᴰ.tail among, semantic, p)
                  ],
                  λ (other, among, semantic, p).
                      ⊎_elim (λ same. (k path).1 (first rel other path same p))
                        (λ later. (k path).1 (inr (inr (other, later, semantic, p))))
                        (Memᴰ.cases_cons among),
                ),
              )
          | inr e ↦
              let (paths, returned, k) = candidates-IsPathOver rels in
              (
                paths,
                rw (e) returned,
                λ path. (
                  λ m.
                      let (other, among, semantic, p) = (k path).0 m in
                      (other, Memᴰ.tail among, semantic, p),
                  λ (other, among, semantic, p).
                      ⊎_elim
                        (λ same. absurd (
                          cc (
                            e,
                            ap (λ r. contains r.relationship_type semantic_architecture) same,
                            semantic,
                          )))
                        (λ later. (k path).1 (other, later, semantic, p)) (Memᴰ.cases_cons among),
                ),
              )
        ]
      where
        first :
            (rel other : IrRelationship) (path : NeighborPath)
            → other ≡ rel
            → PathAlong owned path other
            → PathFrom owned rel rel.from_entity_id rel.to_entity_id path
              ⊎ (PathFrom owned rel rel.to_entity_id rel.from_entity_id path
                  ⊎ PathOver owned rels path)
        first rel other path same p = elim (subst (PathAlong owned path) same p) [
          | inl forth ↦ inl forth
          | inr back ↦ inr (inl back)
        ]
