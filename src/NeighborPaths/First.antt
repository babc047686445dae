-- ===== src/NeighborPaths/First.antt =====
-- src/adr_kit/compiler/backend/neighbor_paths.py: the first path of each peer.
use mathlib.Core.List.{Memᴰ}
use mathlib.Core.List.Memᴰ
use mathlib.Core.Logic.{⊎_elim}
use adr_architecture_kit.Base.{
  ℕ, String, List, [], ◌∷◌, ◌++◌, Bool, true, false, ◌==◌, if◌then◌else◌, any, ltb, ◌≡◌, refl, sym,
  ap, subst, ◌∙◌, ◌⊎◌, inl, inr, arith, Bool-cases, Option-cases, All-at, All-each, texts_le,
  texts_le_total, texts_le_trans, IsOrdered, IsDistinct, IsDistinct-append,
}
use adr_architecture_kit.Compiler.{is_some, get, add_if_absent}
use adr_architecture_kit.Compiler.Stores.{absent_iff, assign-new, get-All, get-key}
use adr_architecture_kit.NeighborPaths.Selection.{
  NeighborPath, path_le, peer_of, or_empty, first_of_each,
}

-- Two numbers before the rest.
ordered_total :
    (a b c d : ℕ) (forth back : Bool)
    → (forth ≡ false → back ≡ true)
    → (if ltb a b
        then true
        else if ltb b a
        then false
        else if ltb c d
        then true
        else if ltb d c
        then false
        else forth)
      ≡ false
    → (if ltb b a
        then true
        else if ltb a b
        then false
        else if ltb d c
        then true
        else if ltb c d
        then false
        else back)
      ≡ true
ordered_total a b c d forth back h k = ground arith

ordered_trans :
    (a b c d e f : ℕ) (p q r : Bool)
    → (p ≡ true → q ≡ true → r ≡ true)
    → (if ltb a b
        then true
        else if ltb b a
        then false
        else if ltb d e
        then true
        else if ltb e d
        then false
        else p)
      ≡ true
    → (if ltb b c
        then true
        else if ltb c b
        then false
        else if ltb e f
        then true
        else if ltb f e
        then false
        else q)
      ≡ true
    → (if ltb a c
        then true
        else if ltb c a
        then false
        else if ltb d f
        then true
        else if ltb f d
        then false
        else r)
      ≡ true
ordered_trans a b c d e f p q r h k l = ground arith

abbrev texts_of : NeighborPath → List String
texts_of p = p.semantic_verb ∷ p.from_id ∷ p.to_id ∷ or_empty p.source_pointer ∷ p.peer_adr_id ∷ []

pub path_le_total : (p q : NeighborPath) → path_le p q ≡ false → path_le q p ≡ true
unfolding path_le
path_le_total p q h =
    ordered_total p.bridge_count q.bridge_count p.hop_count q.hop_count
      (texts_le (texts_of p) (texts_of q)) (texts_le (texts_of q) (texts_of p))
      (texts_le_total (texts_of p) (texts_of q)) h

pub path_le_trans :
    (p q r : NeighborPath) → path_le p q ≡ true → path_le q r ≡ true → path_le p r ≡ true
unfolding path_le
path_le_trans p q r h k =
    ordered_trans p.bridge_count q.bridge_count r.bridge_count p.hop_count q.hop_count r.hop_count
      (texts_le (texts_of p) (texts_of q)) (texts_le (texts_of q) (texts_of r))
      (texts_le (texts_of p) (texts_of r)) (texts_le_trans (texts_of p) (texts_of q) (texts_of r)) h
      k

path_le_refl : (p : NeighborPath) → path_le p p ≡ true
path_le_refl p = elim (Bool-cases (path_le p p)) [ inl e ↦ e | inr e ↦ path_le_total p p e ]

-- Each element has one of its peer in the result, which is not behind it.
unfoldable pub HasLeast : List NeighborPath → NeighborPath → Type 0
HasLeast selected path =
    (p : NeighborPath) × Memᴰ p selected × (peer_of p ≡ peer_of path) × (path_le p path ≡ true)

add_if_absent-cases :
    (path : NeighborPath) (selected : List NeighborPath)
    → ((add_if_absent peer_of path selected ≡ selected)
        × ((p : NeighborPath) × Memᴰ p selected × (peer_of p ≡ peer_of path)))
      ⊎ ((add_if_absent peer_of path selected ≡ selected ++ (path ∷ []))
          × (any (λ p. peer_of p == peer_of path) selected ≡ false))
unfolding add_if_absent
add_if_absent-cases path selected = elim (Option-cases (get peer_of (peer_of path) selected)) [
  | inr (p, e) ↦
      let itself = All-each (λ q. Memᴰ q selected) selected (λ q m. m) in
      inl (
        rw (e) refl,
        (
          p,
          get-All peer_of (λ q. Memᴰ q selected) (peer_of path) selected p itself e,
          get-key peer_of (peer_of path) selected p e,
        ),
      )
  | inl e ↦
      let absent = absent_iff peer_of (peer_of path) selected ∙ ap is_some e in
      inr (rw (e) (assign-new peer_of path selected absent), absent)
]

first_of_each-Memᴰ :
    (p : NeighborPath) (paths selected : List NeighborPath)
    → Memᴰ p selected
    → Memᴰ p (first_of_each paths selected)
unfolding first_of_each
first_of_each-Memᴰ p [] selected m = m
first_of_each-Memᴰ p (path ∷ paths) selected m = elim (add_if_absent-cases path selected) [
  | inl (e, _) ↦ rw (e) (first_of_each-Memᴰ p paths selected m)
  | inr (e, _) ↦
      rw (e) (first_of_each-Memᴰ p paths (selected ++ (path ∷ [])) (Memᴰ.append_left _ m))
]

pub first_of_each-IsDistinct :
    (paths selected : List NeighborPath)
    → IsDistinct peer_of selected
    → IsDistinct peer_of (first_of_each paths selected)
unfolding first_of_each
first_of_each-IsDistinct [] selected d = d
first_of_each-IsDistinct (path ∷ paths) selected d = elim (add_if_absent-cases path selected) [
  | inl (e, _) ↦ rw (e) (first_of_each-IsDistinct paths selected d)
  | inr (e, new) ↦ rw (e) (
      first_of_each-IsDistinct paths (selected ++ (path ∷ []))
        (IsDistinct-append peer_of selected path new d))
]

-- Nothing comes into the result but what was given.
pub first_of_each-among :
    (p : NeighborPath) (paths selected : List NeighborPath)
    → Memᴰ p (first_of_each paths selected)
    → Memᴰ p selected ⊎ Memᴰ p paths
unfolding first_of_each
first_of_each-among p [] selected m = inl m
first_of_each-among p (path ∷ paths) selected m = elim (add_if_absent-cases path selected) [
  | inl (e, _) ↦
      ⊎_elim inl (λ later. inr (Memᴰ.tail later))
        (first_of_each-among p paths selected (subst (λ s. Memᴰ p (first_of_each paths s)) e m))
  | inr (e, _) ↦
      ⊎_elim
        (λ there.
          ⊎_elim inl (λ last. inr (Memᴰ.head (Memᴰ.eq_of_singleton last)))
            (Memᴰ.append_cases selected there))
        (λ later. inr (Memᴰ.tail later))
        (first_of_each-among p paths (selected ++ (path ∷ []))
          (subst (λ s. Memᴰ p (first_of_each paths s)) e m))
]

-- In an ordered list the first one of a peer is the least one.
pub first_of_each-HasLeast :
    (paths selected : List NeighborPath)
    → IsOrdered path_le paths
    → ((a x : NeighborPath) → Memᴰ a selected → Memᴰ x paths → path_le a x ≡ true)
    → (x : NeighborPath) → Memᴰ x paths
    → HasLeast (first_of_each paths selected) x
unfolding first_of_each HasLeast
first_of_each-HasLeast [] selected o before x m = absurd (Memᴰ.not-nil m)
first_of_each-HasLeast (path ∷ paths) selected o before x m =
    elim (add_if_absent-cases path selected) [
      | inl (e, (p, there, same)) ↦ rw (e) (
          ⊎_elim
            (λ first. subst (HasLeast (first_of_each paths selected)) (sym first) (
              p,
              first_of_each-Memᴰ p paths selected there,
              same,
              before p path there (Memᴰ.head refl),
            ))
            (first_of_each-HasLeast paths selected o.1 (λ a y k l. before a y k (Memᴰ.tail l)) x)
            (Memᴰ.cases_cons m))
      | inr (e, _) ↦ rw (e) (
          ⊎_elim
            (λ first. subst (HasLeast (first_of_each paths (selected ++ (path ∷ [])))) (sym first) (
              path,
              first_of_each-Memᴰ path paths (selected ++ (path ∷ []))
                  (Memᴰ.append_right selected (Memᴰ.head refl)),
              refl,
              path_le_refl path,
            ))
            (first_of_each-HasLeast paths (selected ++ (path ∷ [])) o.1
              (λ a y k l.
                ⊎_elim (λ old. before a y old (Memᴰ.tail l))
                  (λ last.
                    subst (λ z. path_le z y ≡ true) (sym (Memᴰ.eq_of_singleton last))
                      (All-at (λ z. path_le path z ≡ true) paths o.0 l))
                  (Memᴰ.append_cases selected k))
              x)
            (Memᴰ.cases_cons m))
    ]
