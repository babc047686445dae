-- ===== src/NeighborPaths/Rounds.antt =====
-- src/adr_kit/compiler/backend/neighbor_paths.py: a round of the search, from a node at the
-- distance `n`.
use adr_architecture_kit.Base.{
  ℕ, suc, ◌≤◌, String, none, some, List, [], ◌∷◌, ◌++◌, true, ◌==◌, ◌≡◌, sym, ap, subst, ◌∙◌, ◌⊎◌,
  arith, eq_iff, if◌then◌else◌, Bool-cases, inl, inr, contains, any-append, item_of, put,
  item_of-put, item_of-put_same, All, Option-cases,
}
use adr_architecture_kit.Compiler.{IrRelationship}
use adr_architecture_kit.NeighborPaths.{Search, offer, offer_all}
use adr_architecture_kit.NeighborPaths.Hops.{joined}

-- A walk over the relationships from one of the origins, by the number of its steps.
pub data Walk (relationships : List IrRelationship) (origins : List String)
    : String → ℕ → Type 0 where
  start : {v : String} → contains v origins ≡ true → Walk relationships origins v 0
  step :
      {u v : String} {n : ℕ}
      → Walk relationships origins u n
      → joined relationships u v ≡ true
      → Walk relationships origins v (suc n)

-- The least number of steps of a walk to the node.
abbrev pub IsDistance : List IrRelationship → List String → String → ℕ → Type 0
IsDistance relationships origins v n =
    Walk relationships origins v n × ((m : ℕ) → Walk relationships origins v m → n ≤ m)

-- The distances of the nodes in the queue rise from `n` on.
abbrev pub Rising : List (String × ℕ) → ℕ → List String → Type 0
Rising dist n [] = Unit
Rising dist n (v ∷ queue) = (k : ℕ) × (item_of v dist ≡ some k) × (n ≤ k) × Rising dist k queue

-- A dictionary that has the entries of another one, and maybe more.
abbrev pub Extends : List (String × ℕ) → List (String × ℕ) → Type 0
Extends dist dist' = (v : String) (k : ℕ) → item_of v dist ≡ some k → item_of v dist' ≡ some k

Rising-Extends :
    (dist dist' : List (String × ℕ)) (n : ℕ) (queue : List String)
    → Extends dist dist'
    → Rising dist n queue
    → Rising dist' n queue
Rising-Extends dist dist' n [] e h = tt
Rising-Extends dist dist' n (v ∷ queue) e (k, at, le, later) =
    (k, e v k at, le, Rising-Extends dist dist' k queue e later)

-- A node at a distance that is not less than any other one may be appended.
Rising-append :
    (dist : List (String × ℕ)) (n top : ℕ) (queue : List String) (v : String)
    → n ≤ top
    → ((w : String) (k : ℕ) → item_of w dist ≡ some k → k ≤ top)
    → item_of v dist ≡ some top
    → Rising dist n queue
    → Rising dist n (queue ++ (v ∷ []))
Rising-append dist n top [] v le bound at h = (top, at, le, tt)
Rising-append dist n top (w ∷ queue) v le bound at (k, there, above, later) =
    (k, there, above, Rising-append dist k top queue v (bound w k there) bound at later)

module _ (key : String) (n : ℕ) (dist : List (String × ℕ)) where
  pub put-Extends : item_of key dist ≡ none → Extends dist (put key n dist)
  put-Extends new v k at = elim (Bool-cases (key == v)) [
    | inl e ↦ absurd (cc (ap (λ w. item_of w dist) ((eq_iff key v).0 e)))
    | inr e ↦ item_of-put key v n dist ∙ rw (e) at
  ]

  put-cases :
      (v : String) (k : ℕ)
      → item_of v (put key n dist) ≡ some k
      → (item_of v dist ≡ some k) ⊎ ((v ≡ key) × (k ≡ n))
  put-cases v k at = elim (Bool-cases (key == v)) [
    | inl e ↦
        let found : some n ≡ some k =
          ap (λ b. if b then some n else item_of v dist) (sym e)
          ∙ sym (item_of-put key v n dist)
          ∙ at in
        inr (sym ((eq_iff key v).0 e), cc (found))
    | inr e ↦ inl (
        ap (λ b. if b then some n else item_of v dist) (sym e)
        ∙ sym (item_of-put key v n dist)
        ∙ at)
  ]

contains-last : (v : String) (xs : List String) → contains v (xs ++ (v ∷ [])) ≡ true
contains-last v xs = ground (arith, any-append (λ y. y == v) xs (v ∷ []), eq_iff v v)

module _ (n : ℕ) where
  Extends-offer : (next : String) (s : Search) → Extends s.dist (offer n next s).dist
  unfolding offer
  Extends-offer next s v k at = elim (Option-cases (item_of next s.dist)) [
    | inr (m, e) ↦ rw (e, offer) at
    | inl e ↦ rw (e, offer) (put-Extends next (suc n) s.dist e v k at)
  ]

  pub Extends-offer_all :
      (nexts : List String) (s : Search) → Extends s.dist (offer_all n nexts s).dist
  unfolding offer_all
  Extends-offer_all [] s v k at = at
  Extends-offer_all (next ∷ nexts) s v k at =
      Extends-offer_all nexts (offer n next s) v k (Extends-offer next s v k at)

  found-offer :
      (next : String) (s : Search) → (k : ℕ) × (item_of next (offer n next s).dist ≡ some k)
  unfolding offer
  found-offer next s = elim (Option-cases (item_of next s.dist)) [
    | inr (m, e) ↦ rw (e, offer) (m, e)
    | inl e ↦ rw (e, offer) (suc n, item_of-put_same next (suc n) s.dist)
  ]

  -- After the round each neighbor has a distance.
  pub found-offer_all :
      (nexts : List String) (s : Search) (v : String)
      → contains v nexts ≡ true
      → (k : ℕ) × (item_of v (offer_all n nexts s).dist ≡ some k)
  unfolding offer_all
  found-offer_all [] s v c = absurd (cc)
  found-offer_all (next ∷ nexts) s v c = elim (Bool-cases (next == v)) [
    | inl e ↦
        let (k, at) = found-offer next s in
        (
          k,
          Extends-offer_all nexts (offer n next s) v k
              (subst (λ w. item_of w (offer n next s).dist ≡ some k) ((eq_iff next v).0 e) at),
        )
    | inr e ↦ found-offer_all nexts (offer n next s) v (ground arith)
  ]

module _ (relationships : List IrRelationship) (origins : List String) where
  -- Only the neighbors of the nodes in the queue, and of the ones in `pending`, are still to come.
  pub record Inv (pending : List String) (n : ℕ) (s : Search) : Type 0 where
    pub origin : (v : String) → contains v origins ≡ true → item_of v s.dist ≡ some 0
    pub sound : (v : String) (k : ℕ) → item_of v s.dist ≡ some k → Walk relationships origins v k
    pub bound : (v : String) (k : ℕ) → item_of v s.dist ≡ some k → k ≤ suc n
    pub rising : Rising s.dist n s.queue
    pub closed :
        (w v : String) (k : ℕ)
        → item_of w s.dist ≡ some k
        → joined relationships w v ≡ true
        → (contains w (pending ++ s.queue) ≡ true)
          ⊎ ((m : ℕ) × (item_of v s.dist ≡ some m) × (m ≤ suc k))

  module _ (u : String) (n : ℕ) where
    visit-Inv :
        (next : String) (s : Search)
        → Walk relationships origins u n
        → joined relationships u next ≡ true
        → item_of next s.dist ≡ none
        → Inv (u ∷ []) n s
        → Inv (u ∷ []) n (record { dist = put next (suc n) s.dist; queue = s.queue ++ (next ∷ []) })
    visit-Inv next s walk hop new h =
        let grows = put-Extends next (suc n) s.dist new in
        let entry = item_of-put_same next (suc n) s.dist in
        let bound' : (v : String) (k : ℕ)
            → item_of v (put next (suc n) s.dist) ≡ some k
            → k ≤ suc n =
          λ v k at. elim (put-cases next (suc n) s.dist v k at) [
            | inl old ↦ h.bound v k old
            | inr added ↦ omega (arith, added.1)
          ] in
        record {
          origin = λ v c. grows v 0 (h.origin v c);
          sound = λ v k at. elim (put-cases next (suc n) s.dist v k at) [
            | inl old ↦ h.sound v k old
            | inr (same, steps) ↦ rw (same, steps) (step walk hop)
          ];
          bound = bound';
          rising =
              Rising-append (put next (suc n) s.dist) n (suc n) s.queue next (omega arith) bound'
                entry (Rising-Extends s.dist (put next (suc n) s.dist) n s.queue grows h.rising);
          closed = λ w v k at edge. elim (put-cases next (suc n) s.dist w k at) [
            | inr (same, steps) ↦ inl (
                subst (λ x. contains x (u ∷ (s.queue ++ (next ∷ []))) ≡ true) (sym same)
                  (ground (arith, contains-last next s.queue)))
            | inl old ↦ elim (h.closed w v k old edge) [
              | inl waiting ↦ inl (ground (arith, any-append (λ y. y == w) s.queue (next ∷ [])))
              | inr (m, there, le) ↦ inr (m, grows v m there, le)
            ]
          ];
        }

    offer-Inv :
        (next : String) (s : Search)
        → Walk relationships origins u n
        → joined relationships u next ≡ true
        → Inv (u ∷ []) n s
        → Inv (u ∷ []) n (offer n next s)
    unfolding offer
    offer-Inv next s walk hop h = elim (Option-cases (item_of next s.dist)) [
      | inr (k, e) ↦ rw (e, offer) h
      | inl e ↦ rw (e, offer) (visit-Inv next s walk hop e h)
    ]

    pub offer_all-Inv :
        (nexts : List String) (s : Search)
        → Walk relationships origins u n
        → All (λ next. joined relationships u next ≡ true) nexts
        → Inv (u ∷ []) n s
        → Inv (u ∷ []) n (offer_all n nexts s)
    unfolding offer_all
    offer_all-Inv [] s walk hops h = h
    offer_all-Inv (next ∷ nexts) s walk hops h =
        offer_all-Inv nexts (offer n next s) walk hops.1 (offer-Inv next s walk hops.0 h)
