-- ===== src/NeighborPaths/Shortest.antt =====
-- src/adr_kit/compiler/backend/neighbor_paths.py: the search ends, with the distances.
use adr_architecture_kit.Base.{
  All-contains, ℕ, zero, suc, ◌+◌, ◌*◌, ◌≤◌, String, none, some, List, [], ◌∷◌, true, ◌==◌, ◌||◌,
  ◌≡◌, refl, sym, ap, subst, ◌∙◌, ◌⊎◌, ◌↔◌, arith, eq_iff, if◌then◌else◌, All, Bool-cases, inl, inr,
  contains, item_of, put, item_of-put, length,
}
use adr_architecture_kit.Compiler.{IrRelationship}
use adr_architecture_kit.NeighborPaths.{
  Search, Bridges, bridges, no_bridges, neighbors, distance_of, offer_all, expand, search, zeros,
  structural_distance,
}
use adr_architecture_kit.NeighborPaths.Hops.{joined, contains-neighbors}
use adr_architecture_kit.NeighborPaths.Rounds.{
  Walk, start, step, IsDistance, Rising, Inv, offer_all-Inv, Extends-offer_all, found-offer_all,
}
use adr_architecture_kit.NeighborPaths.Fuel.{
  ends, unseen, length-ends, unseen-length, joined-ends, work, work-offer_all,
}

List-cases {ℓ} :
    {A : Type ℓ} (xs : List A) → (xs ≡ []) ⊎ ((x : A) × (rest : List A) × (xs ≡ x ∷ rest))
List-cases [] = inl refl
List-cases (x ∷ xs) = inr (x, xs, refl)

-- At the end of a round its node is closed, if it has its distance and each of its neighbors has one.
close :
    (relationships : List IrRelationship) (origins : List String) (u : String) (k : ℕ) (s : Search)
    → item_of u s.dist ≡ some k
    → ((v : String) → joined relationships u v ≡ true → (m : ℕ) × (item_of v s.dist ≡ some m))
    → Inv relationships origins (u ∷ []) k s
    → Inv relationships origins [] k s
close relationships origins u k s at found h = record {
  origin = h.origin;
  sound = h.sound;
  bound = h.bound;
  rising = h.rising;
  closed = λ w v m there hop. elim (Bool-cases (u == w)) [
    | inl e ↦
        let same = (eq_iff u w).0 e in
        let (far, ends) = found v (ap (λ x. joined relationships x v) same ∙ hop) in
        let here : some k ≡ some m = sym at ∙ ap (λ x. item_of x s.dist) same ∙ there in
        let equal : k ≡ m = cc (here) in inr (far, ends, omega (arith, h.bound v far ends, equal))
    | inr e ↦ elim (h.closed w v m there hop) [
      | inl waiting ↦ inl (ap (λ b. b || contains w s.queue) (sym e) ∙ waiting)
      | inr closed ↦ inr closed
    ]
  ];
}

item_of-zeros :
    (v : String) (nodes : List String) (dist : List (String × ℕ))
    → item_of v (zeros nodes dist) ≡ (if contains v nodes then some 0 else item_of v dist)
unfolding zeros
item_of-zeros v [] dist = refl
item_of-zeros v (x ∷ xs) dist =
    ground (arith, item_of-zeros v xs (put x 0 dist), item_of-put x v 0 dist)

some_zero :
    (v : String) (nodes : List String) (k : ℕ)
    → item_of v (zeros nodes []) ≡ some k
    → (contains v nodes ≡ true) × (k ≡ 0)
some_zero v nodes k at = ground (arith, item_of-zeros v nodes [])

Rising-zeros :
    (dist : List (String × ℕ)) (nodes : List String)
    → All (λ v. item_of v dist ≡ some 0) nodes
    → Rising dist 0 nodes
Rising-zeros dist [] h = tt
Rising-zeros dist (v ∷ vs) h = (0, h.0, omega arith, Rising-zeros dist vs h.1)

-- The set has the elements of the list.
module _ (iterate : List String → List String)
    (same_elements : (xs : List String) (x : String) → contains x (iterate xs) ≡ contains x xs)
    (relationships : List IrRelationship) (origins : List String) where
  abbrev graph : Bridges
  graph = bridges relationships no_bridges

  neighbors-joined :
      (u v : String) → contains v (iterate (neighbors graph u)) ≡ joined relationships u v
  neighbors-joined u v = same_elements (neighbors graph u) v ∙ contains-neighbors u v relationships

  -- A round closes the node at the head of the queue.
  expand-Inv :
      (dist : List (String × ℕ)) (u : String) (rest : List String) (n k : ℕ)
      → item_of u dist ≡ some k
      → n ≤ k
      → Rising dist k rest
      → Inv relationships origins [] n (record { dist = dist; queue = u ∷ rest })
      → Inv relationships origins [] k
          (expand iterate graph u (record { dist = dist; queue = rest }))
  unfolding expand distance_of
  expand-Inv dist u rest n k at le later h =
      let before : Inv relationships origins (u ∷ []) k (record { dist = dist; queue = rest }) =
        record {
          origin = h.origin;
          sound = h.sound;
          bound = λ v m there. omega (arith, h.bound v m there);
          rising = later;
          closed = h.closed;
        } in
      let after =
        offer_all-Inv relationships origins u k (iterate (neighbors graph u))
          (record { dist = dist; queue = rest }) (h.sound u k at)
          (All-contains (λ next. joined relationships u next ≡ true) (iterate (neighbors graph u))
            (λ x c. sym (neighbors-joined u x) ∙ c))
          before in
      rw (at, expand, distance_of)
        (close relationships origins u k
          (offer_all k (iterate (neighbors graph u)) (record { dist = dist; queue = rest }))
          (Extends-offer_all k (iterate (neighbors graph u)) (record { dist = dist; queue = rest })
            u k at)
          (λ v hop.
            found-offer_all k (iterate (neighbors graph u)) (record { dist = dist; queue = rest }) v
              (neighbors-joined u v ∙ hop))
          after)

  -- What the search returns, when the queue is empty at last.
  search-Inv :
      (fuel n : ℕ) (d : List (String × ℕ)) (queue : List String) (dist : List (String × ℕ))
      → Inv relationships origins [] n (record { dist = d; queue = queue })
      → search iterate graph fuel (record { dist = d; queue = queue }) ≡ some dist
      → (k : ℕ) × Inv relationships origins [] k (record { dist = dist; queue = [] })
  unfolding search
  search-Inv zero n d [] dist h e =
      (n, subst (λ x. Inv relationships origins [] n (record { dist = x; queue = [] })) (cc (e)) h)
  search-Inv zero n d (u ∷ rest) dist h e = absurd (cc (e))
  search-Inv (suc fuel) n d [] dist h e =
      (n, subst (λ x. Inv relationships origins [] n (record { dist = x; queue = [] })) (cc (e)) h)
  search-Inv (suc fuel) n d (u ∷ rest) dist h e =
      let (k, at, le, later) = h.rising in
      let next = expand iterate graph u (record { dist = d; queue = rest }) in
      search-Inv fuel k next.dist next.queue dist (expand-Inv d u rest n k at le later h) e

  search-returns :
      (fuel : ℕ) (d : List (String × ℕ)) (queue : List String)
      → length queue + unseen d (ends relationships) ≤ fuel
      → (dist : List (String × ℕ)) × (search iterate graph fuel (record { dist = d; queue = queue })
          ≡ some dist)
  unfolding search expand
  search-returns zero d [] h = (d, refl)
  search-returns zero d (u ∷ rest) h = absurd (omega arith)
  search-returns (suc fuel) d [] h = (d, refl)
  search-returns (suc fuel) d (u ∷ rest) h =
      let next = expand iterate graph u (record { dist = d; queue = rest }) in
      let less : work (ends relationships) (distance_of d u) next
          ≤ length rest + unseen d (ends relationships) =
        work-offer_all (ends relationships) (distance_of d u) (iterate (neighbors graph u))
          (record { dist = d; queue = rest })
          (All-contains (λ v. contains v (ends relationships) ≡ true) (iterate (neighbors graph u))
            (λ v c. joined-ends u v relationships (sym (neighbors-joined u v) ∙ c))) in
      search-returns fuel next.dist next.queue (omega (arith, less))

  -- At the start each origin has the distance 0, and no other node has one.
  start-Inv :
      Inv relationships origins [] 0
        (record { dist = zeros (iterate origins) []; queue = iterate origins })
  start-Inv =
      let all_zero : (v : String)
          → contains v (iterate origins) ≡ true
          → item_of v (zeros (iterate origins) []) ≡ some 0 =
        λ v c. item_of-zeros v (iterate origins) [] ∙ ap (λ b. if b then some 0 else none) c in
      record {
        origin = λ v c. all_zero v (same_elements origins v ∙ c);
        sound = λ v k at. start_walk v k (some_zero v (iterate origins) k at);
        bound = λ v k at.
            let (_, zero_steps) = some_zero v (iterate origins) k at in omega (arith, zero_steps);
        rising = Rising-zeros (zeros (iterate origins) []) (iterate origins) (
            All-contains (λ v. item_of v (zeros (iterate origins) []) ≡ some 0) (iterate origins)
              all_zero);
        closed = λ w v k at hop. inl (some_zero w (iterate origins) k at).0;
      }
    where
      start_walk :
          (v : String) (k : ℕ)
          → (contains v (iterate origins) ≡ true) × (k ≡ 0)
          → Walk relationships origins v k
      start_walk v k (c, steps) =
          subst (Walk relationships origins v) (sym steps)
            (start (sym (same_elements origins v) ∙ c))

  -- At the end each walk ends at a node with a distance that is not greater.
  reached :
      (k : ℕ) (dist : List (String × ℕ)) (v : String) (n : ℕ)
      → Inv relationships origins [] k (record { dist = dist; queue = [] })
      → Walk relationships origins v n
      → (m : ℕ) × (item_of v dist ≡ some m) × (m ≤ n)
  reached k dist v zero h (start c) = (0, h.origin v c, omega arith)
  reached k dist v (suc n) h (step {u} walk hop) =
      let (m, at, le) = reached k dist u n h walk in
      elim (h.closed u v m at hop) [
        | inl waiting ↦ absurd (cc (waiting))
        | inr (far, there, bound) ↦ (far, there, omega (arith, bound, le))
      ]

  -- Whatever the order of the sets, the search returns, and a node has the number `n` exactly if it
  -- is the least number of steps of a walk to it from an origin: a step leads from a whole to a
  -- part, or between what is declared and where it is declared.
  pub structural_distance-IsDistance :
      (dist : List (String × ℕ)) × (structural_distance iterate relationships origins ≡ some dist)
      × ((v : String) (n : ℕ) → (item_of v dist ≡ some n) ↔ IsDistance relationships origins v n)
  unfolding structural_distance
  structural_distance-IsDistance =
      let room : length (iterate origins) + unseen (zeros (iterate origins) []) (ends relationships)
          ≤ length (iterate origins) + 2 * length relationships =
        omega (
          arith,
          unseen-length (zeros (iterate origins) []) (ends relationships),
          length-ends relationships,
        ) in
      let (dist, e) =
        search-returns (length (iterate origins) + 2 * length relationships)
          (zeros (iterate origins) []) (iterate origins) room in
      let (k, h) =
        search-Inv (length (iterate origins) + 2 * length relationships) 0
          (zeros (iterate origins) []) (iterate origins) dist start-Inv e in
      (
        dist,
        e,
        λ v n. (
          λ at. (
            h.sound v n at,
            λ m walk.
                let (far, there, le) = reached k dist v m h walk in
                let same : some n ≡ some far = sym at ∙ there in
                let equal : n ≡ far = cc (same) in omega (arith, equal, le),
          ),
          λ (walk, least).
              let (m, there, le) = reached k dist v n h walk in
              let equal : m ≡ n = omega (arith, le, least m (h.sound v m there)) in
              there ∙ ap some equal,
        ),
      )
