-- ===== src/NeighborPaths/Nearby.antt =====
-- src/adr_kit/compiler/backend/neighbor_paths.py: the nearest node that a peer owns.
use adr_architecture_kit.Base.{
  ℕ, ◌≤◌, String, some, List, [], ◌∷◌, Bool, true, ◌==◌, ◌||◌, if◌then◌else◌, item_of, any, ltb,
  ◌≡◌, refl, sym, ap, subst, ◌∙◌, ◌↔◌, inl, inr, arith, eq_iff, Bool-cases, All,
}
use adr_architecture_kit.NeighborPaths.{distance_of}
use adr_architecture_kit.NeighborPaths.Selection.{min_of, min_or_zero, is_owner, nearby}

-- The least number of some is one of them, and not greater than any.
pub min_of-one {κ} : (P : ℕ → Type κ) (n : ℕ) (ms : List ℕ) → P n → All P ms → P (min_of n ms)
unfolding min_of
min_of-one P n [] p h = p
min_of-one P n (m ∷ ms) p h = elim (Bool-cases (ltb m n)) [
  | inl e ↦ rw (e) (min_of-one P m ms h.0 h.1)
  | inr e ↦ rw (e) (min_of-one P n ms p h.1)
]

min_of-le : (n : ℕ) (ms : List ℕ) → min_of n ms ≤ n
unfolding min_of
min_of-le n [] = omega arith
min_of-le n (m ∷ ms) = ground (arith, min_of-le m ms, min_of-le n ms)

min_of-least : (n : ℕ) (ms : List ℕ) → All (λ m. min_of n ms ≤ m) ms
unfolding min_of
min_of-least n [] = tt
min_of-least n (m ∷ ms) = (
  ground (arith, min_of-le (if ltb m n then m else n) ms),
  min_of-least (if ltb m n then m else n) ms,
)

min_or_zero-least : (ns : List ℕ) → All (λ m. min_or_zero ns ≤ m) ns
unfolding min_or_zero
min_or_zero-least [] = tt
min_or_zero-least (n ∷ ns) = (min_of-le n ns, min_of-least n ns)

pub min_or_zero-one {κ} :
    (P : ℕ → Type κ) (ns : List ℕ) → All P ns → (All (λ _. ⊥) ns → ⊥) → P (min_or_zero ns)
unfolding min_or_zero
min_or_zero-one P [] h more = absurd (more tt)
min_or_zero-one P (n ∷ ns) h more = min_of-one P n ns h.0 h.1

-- A node is one of the keys.
abbrev pub has_key : String → List (String × ℕ) → Bool
has_key node entries = any (λ entry. entry.0 == node) entries

module _ (entity_types declared_in : List (String × String)) (far_side : List (String × ℕ))
    (peer : String) where
  pub nearby-All {κ} :
      (P : ℕ → Type κ) (entries : List (String × ℕ))
      → All P (nearby entity_types declared_in far_side peer entries) ↔ (
          (node : String)
          → has_key node entries ≡ true
          → is_owner entity_types declared_in peer node ≡ true
          → P (distance_of far_side node))
  unfolding nearby
  nearby-All P [] = (λ h node c. absurd (cc (c)), λ h. tt)
  nearby-All P (entry ∷ entries) =
      elim (Bool-cases (is_owner entity_types declared_in peer entry.0)) [
        | inl e ↦ rw (e) (
          λ h node c o. elim (Bool-cases (entry.0 == node)) [
            | inl same ↦ subst (λ x. P (distance_of far_side x)) ((eq_iff entry.0 node).0 same) h.0
            | inr other ↦
                (nearby-All P entries).0 h.1 node
                  (ap (λ b. b || has_key node entries) (sym other) ∙ c) o
          ],
          λ f. (
            f entry.0 (ground (arith, eq_iff entry.0 entry.0)) e,
            (nearby-All P entries).1 (λ node c o. f node (ground arith) o),
          ),
        )
        | inr e ↦ rw (e) (
          λ h node c o. elim (Bool-cases (entry.0 == node)) [
            | inl same ↦ absurd (
                cc (
                  e,
                  ap (is_owner entity_types declared_in peer) ((eq_iff entry.0 node).0 same),
                  o,
                ))
            | inr other ↦
                (nearby-All P entries).0 h node
                  (ap (λ b. b || has_key node entries) (sym other) ∙ c) o
          ],
          λ f. (nearby-All P entries).1 (λ node c o. f node (ground arith) o),
        )
      ]

  -- The least distance of a node that the peer owns, if it owns one.
  abbrev pub suffix : ℕ
  suffix = min_or_zero (nearby entity_types declared_in far_side peer far_side)

  pub suffix-least :
      (node : String)
      → has_key node far_side ≡ true
      → is_owner entity_types declared_in peer node ≡ true
      → suffix ≤ distance_of far_side node
  suffix-least =
      (nearby-All (λ m. suffix ≤ m) far_side).0
        (min_or_zero-least (nearby entity_types declared_in far_side peer far_side))

  pub suffix-one :
      (node : String)
      → has_key node far_side ≡ true
      → is_owner entity_types declared_in peer node ≡ true
      → (n : String) × (has_key n far_side ≡ true)
        × (is_owner entity_types declared_in peer n ≡ true)
        × (suffix ≡ distance_of far_side n)
  suffix-one node c o =
      let Q = λ (m : ℕ).
        (n : String) × (has_key n far_side ≡ true)
        × (is_owner entity_types declared_in peer n ≡ true)
        × (m ≡ distance_of far_side n) in
      min_or_zero-one Q (nearby entity_types declared_in far_side peer far_side)
        ((nearby-All Q far_side).1 (λ n c o. (n, c, o, refl)))
        (λ none_of. (nearby-All (λ _. ⊥) far_side).0 none_of node c o)

pub item_of-has_key :
    (node : String) (entries : List (String × ℕ))
    → has_key node entries ≡ true
    → (n : ℕ) × (item_of node entries ≡ some n)
item_of-has_key node [] h = absurd (cc (h))
item_of-has_key node (entry ∷ entries) h = elim (Bool-cases (entry.0 == node)) [
  | inl e ↦ rw (e) (entry.1, refl)
  | inr e ↦ rw (e) (item_of-has_key node entries (ap (λ b. b || has_key node entries) (sym e) ∙ h))
]

pub has_key-item_of :
    (node : String) (entries : List (String × ℕ)) (n : ℕ)
    → item_of node entries ≡ some n
    → has_key node entries ≡ true
has_key-item_of node [] n h = absurd (cc (h))
has_key-item_of node (entry ∷ entries) n h = ground (arith, has_key-item_of node entries n)

pub distance_of-item_of :
    (node : String) (entries : List (String × ℕ)) (n : ℕ)
    → item_of node entries ≡ some n
    → distance_of entries node ≡ n
unfolding distance_of
distance_of-item_of node entries n h = rw (h, distance_of) refl

pub any-key :
    (test : String → Bool) (entries : List (String × ℕ))
    → (any (λ entry. test entry.0) entries ≡ true)
      ↔ ((node : String) × (has_key node entries ≡ true) × (test node ≡ true))
any-key test [] = (λ h. absurd (cc (h)), λ h. absurd (cc (h.1)))
any-key test (entry ∷ entries) = (
  λ h. elim (Bool-cases (test entry.0)) [
    | inl e ↦ (entry.0, ground (arith, eq_iff entry.0 entry.0), e)
    | inr e ↦
        let (node, c, t) =
          (any-key test entries).0
            (ap (λ b. b || any (λ other. test other.0) entries) (sym e) ∙ h) in
        (node, ground arith, t)
  ],
  λ (node, c, t). elim (Bool-cases (entry.0 == node)) [
    | inl e ↦
        ap (λ b. b || any (λ other. test other.0) entries) (ap test ((eq_iff entry.0 node).0 e) ∙ t)
    | inr e ↦
        let later =
          (any-key test entries).1 (node, ap (λ b. b || has_key node entries) (sym e) ∙ c, t) in
        ground arith
  ],
)
