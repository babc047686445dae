-- ===== src/NeighborPaths/Nearest.antt =====
-- src/adr_kit/compiler/backend/neighbor_paths.py: one path for each neighbor, and the least one.
use mathlib.Core.List.{Memᴰ}
use mathlib.Core.List.Memᴰ
use mathlib.Core.Logic.{⊎_elim}
use adr_architecture_kit.Base.{
  String, some, List, [], ◌∷◌, contains, ◌≡◌, refl, ◌↔◌, Memᴰ-sort_with, sort_with, sort_by,
  IsSorted, IsDistinct, sort_with-IsOrdered, sort_by-IsSorted, IsDistinct-sort_by, le_by,
}
use adr_architecture_kit.Compiler.{IrRelationship, values}
use adr_architecture_kit.NeighborPaths.Shortest.{structural_distance-IsDistance}
use adr_architecture_kit.NeighborPaths.First.{
  path_le_total, path_le_trans, HasLeast, first_of_each-IsDistinct, first_of_each-among,
  first_of_each-HasLeast,
}
use adr_architecture_kit.NeighborPaths.Selection.{
  NeighborPath, path_le, peer_of, first_of_each, declarations, owned_by, candidate_paths,
  select_neighbor_paths,
}
use adr_architecture_kit.NeighborPaths.Peers.{IsPathOver}
use adr_architecture_kit.NeighborPaths.Candidates.{candidates-IsPathOver}

-- A path of the subject: from what it owns over bridges to an end of a relationship of the
-- architecture, and from the other end to the peer.
unfoldable pub IsNeighborPath :
    String → List IrRelationship → List (String × String) → NeighborPath → Type 0
unfolding declarations owned_by
IsNeighborPath subject_id relationships entity_types path =
    let declared_in = declarations entity_types relationships [] in
    IsPathOver relationships subject_id entity_types declared_in
      (subject_id ∷ owned_by subject_id declared_in) relationships path

module _ (iterate : List String → List String)
    (same_elements : (xs : List String) (x : String) → contains x (iterate xs) ≡ contains x xs)
    (subject_id : String) (relationships : List IrRelationship)
    (entity_types : List (String × String)) where
  candidate_paths-IsNeighborPath :
      (paths : List NeighborPath) × (candidate_paths iterate subject_id relationships entity_types
        ≡ some paths)
      × ((p : NeighborPath) → Memᴰ p paths ↔ IsNeighborPath subject_id relationships entity_types p)
  unfolding candidate_paths IsNeighborPath
  candidate_paths-IsNeighborPath =
      let declared_in = declarations entity_types relationships [] in
      let owned = subject_id ∷ owned_by subject_id declared_in in
      let (subject_side, returned, h) =
        structural_distance-IsDistance iterate same_elements relationships owned in
      let (paths, e, k) =
        candidates-IsPathOver iterate same_elements relationships subject_id entity_types
          declared_in owned subject_side h relationships in
      (paths, rw (returned, candidate_paths) e, k)

  -- Whatever the order of the sets, the selection returns paths of the subject, one for each peer
  -- and in the order of the peers; and for each path of the subject there is one of its peer that
  -- is not behind it in the order of bridges, hops, verb and ends.
  pub select_neighbor_paths-AreNearest :
      (paths : List NeighborPath) × (select_neighbor_paths iterate subject_id relationships
          entity_types
        ≡ some paths)
      × IsSorted peer_of paths
      × IsDistinct peer_of paths
      × ((p : NeighborPath) → Memᴰ p paths → IsNeighborPath subject_id relationships entity_types p)
      × ((p : NeighborPath)
          → IsNeighborPath subject_id relationships entity_types p
          → HasLeast paths p)
  unfolding select_neighbor_paths values HasLeast
  select_neighbor_paths-AreNearest =
      let (all, returned, h) = candidate_paths-IsNeighborPath in
      let sorted = sort_with path_le all in
      let first = first_of_each sorted [] in
      let kept = λ (p : NeighborPath). Memᴰ-sort_with (le_by peer_of) p first in
      (
        sort_by peer_of first,
        rw (returned, select_neighbor_paths) refl,
        sort_by-IsSorted peer_of first,
        IsDistinct-sort_by peer_of first (first_of_each-IsDistinct sorted [] tt),
        λ p m.
            ⊎_elim (λ none_of. absurd (Memᴰ.not-nil none_of))
              (λ there. (h p).0 ((Memᴰ-sort_with path_le p all).0 there))
              (first_of_each-among p sorted [] ((kept p).0 m)),
        λ p is_path.
            let (least, there, same, le) =
              first_of_each-HasLeast sorted []
                (sort_with-IsOrdered path_le path_le_total path_le_trans all)
                (λ a x k l. absurd (Memᴰ.not-nil k)) p
                ((Memᴰ-sort_with path_le p all).1 ((h p).1 is_path)) in
            (least, (kept least).1 there, same, le),
      )
