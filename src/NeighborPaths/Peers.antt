-- ===== src/NeighborPaths/Peers.antt =====
-- src/adr_kit/compiler/backend/neighbor_paths.py: the peers at the far end of a relationship.
use mathlib.Core.List.{Memᴰ}
use adr_architecture_kit.Base.{
  ℕ, ◌≤◌, String, some, List, [], ◌∷◌, Bool, true, false, ◌==◌, ◌&&◌, ◌||◌, not, if◌then◌else◌,
  item_of, contains, any, ◌≡◌, refl, sym, ap, subst, ◌∙◌, ◌↔◌, ◌⊎◌, inl, inr, arith, eq_iff,
  Bool-cases, Option-cases, All,
}
use adr_architecture_kit.Compiler.{IrRelationship}
use adr_architecture_kit.NeighborPaths.{distance_of}
use adr_architecture_kit.NeighborPaths.Rounds.{IsDistance}
use adr_architecture_kit.NeighborPaths.Nearby.{
  min_of-one, has_key, nearby-All, suffix, suffix-least, suffix-one, item_of-has_key,
  has_key-item_of, distance_of-item_of, any-key,
}
use adr_architecture_kit.NeighborPaths.Selection.{
  NeighborPath, semantic_architecture, is_adr, owning_adr, min_or_zero, path_of, is_owner, peers_of,
  nearby,
}

module _ (relationships : List IrRelationship) (subject_id : String)
    (entity_types declared_in : List (String × String)) where
  -- The peer owns a node that can be reached from the far end, and `suffix` is the distance of the
  -- nearest such node; an ADR at the far end is the peer itself.
  pub data IsPeer (far : String) : String → ℕ → Type 0 where
    an_adr : is_adr entity_types far ≡ true → (far == subject_id) ≡ false → IsPeer far far 0
    an_owner :
        {peer : String} {suffix : ℕ} (node : String)
        → is_adr entity_types far ≡ false
        → (peer == "") ≡ false
        → (peer == subject_id) ≡ false
        → is_owner entity_types declared_in peer node ≡ true
        → IsDistance relationships (far ∷ []) node suffix
        → ((other : String) (n : ℕ)
            → is_owner entity_types declared_in peer other ≡ true
            → IsDistance relationships (far ∷ []) other n
            → suffix ≤ n)
        → IsPeer far peer suffix

  abbrev pub OwnedAt : String → String → ℕ → Type 0
  OwnedAt far peer n =
      (node : String) × (is_adr entity_types far ≡ false)
      × ((peer == "") ≡ false)
      × ((peer == subject_id) ≡ false)
      × (is_owner entity_types declared_in peer node ≡ true)
      × IsDistance relationships (far ∷ []) node n
      × ((other : String) (m : ℕ)
          → is_owner entity_types declared_in peer other ≡ true
          → IsDistance relationships (far ∷ []) other m
          → n ≤ m)

  pub IsPeer-cases :
      (far peer : String) (n : ℕ)
      → IsPeer far peer n
      → ((is_adr entity_types far ≡ true) × ((far == subject_id) ≡ false) × (peer ≡ far) × (n ≡ 0))
        ⊎ OwnedAt far peer n
  IsPeer-cases far peer n (an_adr e d) = inl (e, d, refl, refl)
  IsPeer-cases far peer n (an_owner node e f d o h least) = inr (node, e, f, d, o, h, least)

  offered :
      (peer owner : String) (rest : List String) (owned : Bool)
      → contains peer rest ≡ ((not (peer == "") && not (peer == subject_id)) && owned)
      → contains peer
          (if not (owner == "") && not (owner == subject_id) then owner ∷ rest else rest)
        ≡ ((not (peer == "") && not (peer == subject_id)) && ((owner == peer) || owned))
  offered peer owner rest owned h = elim (Bool-cases (owner == peer)) [
    | inl e ↦ rw (e, (eq_iff owner peer).0 e) (ground (arith, eq_iff peer peer))
    | inr e ↦ rw (e) (ground arith)
  ]

  contains-peers_of :
      (peer : String) (far_side : List (String × ℕ))
      → contains peer (peers_of entity_types declared_in subject_id far_side) ≡ (
          (not (peer == "") && not (peer == subject_id))
          && any (λ entry. is_owner entity_types declared_in peer entry.0) far_side)
  unfolding peers_of is_owner
  contains-peers_of peer [] = ground arith
  contains-peers_of peer (entry ∷ far_side) =
      elim (Option-cases (owning_adr entry.0 declared_in entity_types)) [
        | inl e ↦ rw (e, peers_of, is_owner) (contains-peers_of peer far_side)
        | inr (owner, e) ↦
            rw (e, peers_of, is_owner)
              (offered peer owner (peers_of entity_types declared_in subject_id far_side)
                (any (λ entry. is_owner entity_types declared_in peer entry.0) far_side)
                (contains-peers_of peer far_side))
      ]

  -- An ADR at the far end is at the distance 0 of itself.
  suffix-adr : (far : String) → suffix entity_types declared_in ((far, 0) ∷ []) far ≡ 0
  unfolding min_or_zero distance_of
  suffix-adr far =
      let side : List (String × ℕ) = (far, 0) ∷ [] in
      all_zero (nearby entity_types declared_in side far side) (
        (nearby-All entity_types declared_in side far (λ m. m ≡ 0) side).1
          (λ node c o. only node c))
    where
      all_zero : (ns : List ℕ) → All (λ n. n ≡ 0) ns → min_or_zero ns ≡ 0
      all_zero [] h = refl
      all_zero (n ∷ ns) h = min_of-one (λ m. m ≡ 0) n ns h.0 h.1

      only :
          (node : String)
          → has_key node ((far, 0) ∷ []) ≡ true
          → distance_of ((far, 0) ∷ []) node ≡ 0
      only node c = ground arith

  -- A path from one end of a relationship to a peer at the other.
  abbrev pub IsPathFrom : List String → IrRelationship → String → String → NeighborPath → Type 0
  IsPathFrom owned rel start far path =
      (prefix : ℕ) × (peer : String) × (n : ℕ) × IsDistance relationships owned start prefix
      × IsPeer far peer n
      × (path ≡ path_of rel peer prefix n)

  abbrev pub IsPathAlong : List String → NeighborPath → IrRelationship → Type 0
  IsPathAlong owned path rel =
      IsPathFrom owned rel rel.from_entity_id rel.to_entity_id path
      ⊎ IsPathFrom owned rel rel.to_entity_id rel.from_entity_id path

  -- A path over a relationship of the architecture, in either direction.
  abbrev pub IsPathOver : List String → List IrRelationship → NeighborPath → Type 0
  IsPathOver owned rels path =
      (rel : IrRelationship) × Memᴰ rel rels
      × (contains rel.relationship_type semantic_architecture ≡ true)
      × IsPathAlong owned path rel

module _ (iterate : List String → List String)
    (same_elements : (xs : List String) (x : String) → contains x (iterate xs) ≡ contains x xs)
    (relationships : List IrRelationship) (subject_id : String)
    (entity_types declared_in : List (String × String)) (far : String) where
  -- What is found at a far end that is an ADR.
  pub IsPeer-adr :
      (e : is_adr entity_types far ≡ true) (d : (far == subject_id) ≡ false) (peer : String) (n : ℕ)
      → ((contains peer (iterate (far ∷ [])) ≡ true)
          × (n ≡ suffix entity_types declared_in ((far, 0) ∷ []) peer))
        ↔ IsPeer relationships subject_id entity_types declared_in far peer n
  IsPeer-adr e d peer n = (
    λ (c, steps).
        let same : far ≡ peer =
          (eq_iff far peer).0 (ground (arith, same_elements (far ∷ []) peer)) in
        let zero_steps : n ≡ 0 =
          steps
          ∙ ap (suffix entity_types declared_in ((far, 0) ∷ [])) (sym same)
          ∙ suffix-adr relationships subject_id entity_types declared_in far in
        subst (λ p. IsPeer relationships subject_id entity_types declared_in far p n) same
          (subst (IsPeer relationships subject_id entity_types declared_in far far) (sym zero_steps)
            (an_adr e d)),
    λ p. elim (IsPeer-cases relationships subject_id entity_types declared_in far peer n p) [
      | inl (_, _, same, steps) ↦ (
        ground (arith, same_elements (far ∷ []) peer, eq_iff far peer),
        steps
            ∙ sym (suffix-adr relationships subject_id entity_types declared_in far)
            ∙ ap (suffix entity_types declared_in ((far, 0) ∷ [])) (sym same),
      )
      | inr owned ↦ absurd (cc (e, owned.1))
    ],
  )

  module _ (e : is_adr entity_types far ≡ false) (dist : List (String × ℕ))
      (h : (v : String) (n : ℕ)
        → (item_of v dist ≡ some n) ↔ IsDistance relationships (far ∷ []) v n)
      (peer : String) where
    -- The nearest node of a peer.
    suffix-IsDistance :
        (node : String)
        → has_key node dist ≡ true
        → is_owner entity_types declared_in peer node ≡ true
        → (nearest : String) × (is_owner entity_types declared_in peer nearest ≡ true)
          × IsDistance relationships (far ∷ []) nearest (suffix entity_types declared_in dist peer)
    suffix-IsDistance node c o =
        let (nearest, there, owns, same) = suffix-one entity_types declared_in dist peer node c o in
        let (k, at) = item_of-has_key nearest dist there in
        (
          nearest,
          owns,
          (h nearest (suffix entity_types declared_in dist peer)).0
              (at ∙ ap some (sym (distance_of-item_of nearest dist k at) ∙ sym same)),
        )

    suffix-le :
        (node : String) (n : ℕ)
        → is_owner entity_types declared_in peer node ≡ true
        → IsDistance relationships (far ∷ []) node n
        → suffix entity_types declared_in dist peer ≤ n
    suffix-le node n o d =
        let at = (h node n).1 d in
        omega (
          arith,
          suffix-least entity_types declared_in dist peer node (has_key-item_of node dist n at) o,
          distance_of-item_of node dist n at,
        )

    pub IsPeer-owner :
        (n : ℕ)
        → ((contains peer (iterate (peers_of entity_types declared_in subject_id dist)) ≡ true)
            × (n ≡ suffix entity_types declared_in dist peer))
          ↔ IsPeer relationships subject_id entity_types declared_in far peer n
    IsPeer-owner n =
        let peers = peers_of entity_types declared_in subject_id dist in
        let test : contains peer (iterate peers) ≡ (
            (not (peer == "") && not (peer == subject_id))
            && any (λ entry. is_owner entity_types declared_in peer entry.0) dist) =
          same_elements peers peer
          ∙ contains-peers_of relationships subject_id entity_types declared_in peer dist in
        (
          λ (c, steps).
              let (node, key, owns) =
                (any-key (is_owner entity_types declared_in peer) dist).0 (ground arith) in
              let (nearest, o, d) = suffix-IsDistance node key owns in
              subst (IsPeer relationships subject_id entity_types declared_in far peer) (sym steps)
                (an_owner nearest e (ground arith) (ground arith) o d suffix-le),
          λ p. elim (IsPeer-cases relationships subject_id entity_types declared_in far peer n p) [
            | inl (e_adr, _, _, _) ↦ absurd (cc (e, e_adr))
            | inr (node, _, f, d, o, at, least) ↦
                let key = has_key-item_of node dist n ((h node n).1 at) in
                let some_key =
                  (any-key (is_owner entity_types declared_in peer) dist).1 (node, key, o) in
                let (nearest, o', d') = suffix-IsDistance node key o in
                (
                  ground arith,
                  omega (
                    arith,
                    suffix-le node n o at,
                    least nearest (suffix entity_types declared_in dist peer) o' d',
                  ),
                )
          ],
        )
