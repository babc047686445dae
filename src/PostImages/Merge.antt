-- ===== src/PostImages/Merge.antt =====
-- src/adr_kit/promotion/candidates.py: the children of a field after the replacement.
use mathlib.Core.List.{Memᴰ}
use adr_architecture_kit.Base.{
  All-contains, count-append, ◌+◌, String, none, some, List, [], ◌∷◌, ◌++◌, Bool, true, false, ◌==◌,
  ◌≡◌, refl, sym, ap, subst, ◌∙◌, ◌⊎◌, inl, inr, if◌then◌else◌, ok, raise, any, contains, count,
  item_of, put, item_of-put, arith, eq_iff, Bool-cases, Option-cases, All, All-map, All-append,
}
use adr_architecture_kit.PostImages.{
  Child, invalid_child, index_existing, index_children, ids_of, current_of, new_of, merge_children,
}

-- A child has no text as its id.
abbrev pub lacks_id : Child → Bool
lacks_id child = elim child.id [ none ↦ true | some _ ↦ false ]

-- The id is one of those of the children.
abbrev pub is_given : List Child → Child → Bool
is_given replacing item = elim item.id [ none ↦ false | some id ↦ contains id (ids_of replacing) ]

-- The last of the children with an id, if there is one, and else what was there.
abbrev Indexes : List Child → List (String × Child) → List (String × Child) → Type 0
Indexes items by_id by_id' =
    (x : String)
    → ((contains x (ids_of items) ≡ true)
        × (c : Child) × (item_of x by_id' ≡ some c)
        × Memᴰ c items
        × (c.id ≡ some x))
      ⊎ ((contains x (ids_of items) ≡ false) × (item_of x by_id' ≡ item_of x by_id))

index_skip :
    (item : Child) (items : List Child) (by_id by_id' : List (String × Child))
    → item.id ≡ none
    → Indexes items by_id by_id'
    → Indexes (item ∷ items) by_id by_id'
unfolding ids_of
index_skip item items by_id by_id' e h x = elim (h x) [
  | inl (c, child, at, m, own) ↦ inl (rw (e, ids_of) c, child, at, Memᴰ.tail m, own)
  | inr (c, at) ↦ inr (rw (e, ids_of) c, at)
]

index_put :
    (item : Child) (items : List Child) (id : String) (by_id by_id' : List (String × Child))
    → item.id ≡ some id
    → Indexes items (put id item by_id) by_id'
    → Indexes (item ∷ items) by_id by_id'
unfolding ids_of
index_put item items id by_id by_id' e h x = elim (h x) [
  | inl (c, child, at, m, own) ↦ inl (rw (e, ids_of) (ground arith), child, at, Memᴰ.tail m, own)
  | inr (c, at) ↦ elim (Bool-cases (id == x)) [
    | inl f ↦ inl (
      rw (e, ids_of) (ground arith),
      item,
      at ∙ item_of-put id x item by_id ∙ ap (λ b. if b then some item else item_of x by_id) f,
      Memᴰ.head refl,
      e ∙ ap some ((eq_iff id x).0 f),
    )
    | inr f ↦ inr (
      rw (e, ids_of) (ground arith),
      at ∙ item_of-put id x item by_id ∙ ap (λ b. if b then some item else item_of x by_id) f,
    )
  ]
]

index_existing-Indexes :
    (items : List Child) (by_id : List (String × Child))
    → Indexes items by_id (index_existing items by_id)
unfolding index_existing ids_of
index_existing-Indexes [] by_id = λ x. inr (refl, refl)
index_existing-Indexes (item ∷ items) by_id = elim (Option-cases item.id) [
  | inl e ↦
      let step : index_existing (item ∷ items) by_id ≡ index_existing items by_id =
        rw (e, index_existing) refl in
      index_skip item items by_id (index_existing (item ∷ items) by_id) e
        (subst (Indexes items by_id) (sym step) (index_existing-Indexes items by_id))
  | inr (id, e) ↦
      let step : index_existing (item ∷ items) by_id ≡ index_existing items (put id item by_id) =
        simp (e, index_existing) in
      index_put item items id by_id (index_existing (item ∷ items) by_id) e (
        subst (Indexes items (put id item by_id)) (sym step)
          (index_existing-Indexes items (put id item by_id)))
]

index_children-Indexes :
    (items : List Child) (by_id : List (String × Child))
    → ((any lacks_id items ≡ true) × (index_children items by_id ≡ raise invalid_child))
      ⊎ ((any lacks_id items ≡ false)
          × (by_id' : List (String × Child)) × (index_children items by_id ≡ ok by_id')
          × Indexes items by_id by_id')
unfolding index_children ids_of
index_children-Indexes [] by_id = inr (refl, by_id, refl, λ x. inr (refl, refl))
index_children-Indexes (item ∷ items) by_id = elim (Option-cases item.id) [
  | inl e ↦ inl (rw (e) refl, rw (e, index_children) refl)
  | inr (id, e) ↦ elim (index_children-Indexes items (put id item by_id)) [
    | inl (bad, raised) ↦ inl (rw (e) bad, rw (e, index_children) raised)
    | inr (good, by_id', returned, h) ↦ inr (
      rw (e) good,
      by_id',
      rw (e, index_children) returned,
      index_put item items id by_id by_id' e h,
    )
  ]
]

-- An element of the merged list: one of the given children, or an existing one with an id that none
-- of them has.
abbrev pub Origin : List Child → List Child → Child → Type 0
Origin existing replacing c =
    (lacks_id c ≡ false)
    × (((is_given replacing c ≡ true) × Memᴰ c replacing)
        ⊎ ((is_given replacing c ≡ false) × Memᴰ c existing))

-- Each of the ids has a child, its own.
abbrev HasOwn : List Child → List Child → List (String × Child) → String → Type 0
HasOwn existing replacing by_id x =
    (c : Child) × (item_of x by_id ≡ some c) × (c.id ≡ some x) × Origin existing replacing c

given_own :
    (replacing : List Child) (c : Child) (x : String)
    → c.id ≡ some x
    → is_given replacing c ≡ contains x (ids_of replacing)
given_own replacing c x own = rw (own) refl

found_own :
    (existing replacing : List Child) (first by_id : List (String × Child))
    → Indexes existing [] first
    → Indexes replacing first by_id
    → (x : String) → contains x (ids_of existing) ≡ true
    → HasOwn existing replacing by_id x
found_own existing replacing first by_id h k x there = elim (k x) [
  | inl (new, c, at, m, own) ↦
      (c, at, own, (rw (own) refl, inl (given_own replacing c x own ∙ new, m)))
  | inr (new, at) ↦ elim (h x) [
    | inl (_, c, at', m, own) ↦
        (c, at ∙ at', own, (rw (own) refl, inr (given_own replacing c x own ∙ new, m)))
    | inr (none_there, _) ↦ absurd (cc (there, none_there))
  ]
]

current_of-own :
    (existing replacing : List Child) (by_id : List (String × Child)) (xs : List String)
    → All (HasOwn existing replacing by_id) xs
    → (ids_of (current_of xs by_id) ≡ xs) × All (Origin existing replacing) (current_of xs by_id)
unfolding current_of ids_of
current_of-own existing replacing by_id [] h = (refl, tt)
current_of-own existing replacing by_id (x ∷ xs) h =
    let (c, at, own, origin) = h.0 in
    let (ids, all) = current_of-own existing replacing by_id xs h.1 in
    rw (at, current_of) (rw (own, ids_of) (ap (λ ys. x ∷ ys) ids), (origin, all))

ids_of-append : (xs ys : List Child) → ids_of (xs ++ ys) ≡ ids_of xs ++ ids_of ys
unfolding ids_of
ids_of-append [] ys = refl
ids_of-append (c ∷ xs) ys = elim (Option-cases c.id) [
  | inl e ↦ rw (e, ids_of) (ids_of-append xs ys)
  | inr (id, e) ↦ rw (e, ids_of) (ap (λ zs. id ∷ zs) (ids_of-append xs ys))
]

new_of-count :
    (seen : List String) (replacing : List Child) (x : String)
    → count x (ids_of (new_of seen replacing))
      ≡ (if contains x seen then 0 else count x (ids_of replacing))
unfolding new_of ids_of
new_of-count seen [] x = ground arith
new_of-count seen (c ∷ rest) x = elim (Option-cases c.id) [
  | inl e ↦ rw (e, new_of, ids_of) (new_of-count seen rest x)
  | inr (id, e) ↦ elim (Bool-cases (contains id seen)) [
    | inl f ↦ rw (e, f, new_of, ids_of) (skipped id f (new_of-count seen rest x))
    | inr f ↦ rw (e, f, new_of) (rw (e, ids_of) (added id f (new_of-count seen rest x)))
  ]
]
  where
    skipped :
        (id : String)
        → contains id seen ≡ true
        → count x (ids_of (new_of seen rest))
          ≡ (if contains x seen then 0 else count x (ids_of rest))
        → count x (ids_of (new_of seen rest))
          ≡ (if contains x seen then 0 else count x (id ∷ ids_of rest))
    skipped id f h = elim (Bool-cases (id == x)) [
      | inl g ↦
          let there : contains x seen ≡ true =
            ap (λ y. contains y seen) (sym ((eq_iff id x).0 g)) ∙ f in
          ground arith
      | inr g ↦ ground arith
    ]

    added :
        (id : String)
        → contains id seen ≡ false
        → count x (ids_of (new_of seen rest))
          ≡ (if contains x seen then 0 else count x (ids_of rest))
        → count x (id ∷ ids_of (new_of seen rest))
          ≡ (if contains x seen then 0 else count x (id ∷ ids_of rest))
    added id f h = elim (Bool-cases (id == x)) [
      | inl g ↦
          let there : contains x seen ≡ false =
            ap (λ y. contains y seen) (sym ((eq_iff id x).0 g)) ∙ f in
          ground arith
      | inr g ↦ ground arith
    ]

is_given-tail :
    (d : Child) (rest : List Child) (c : Child)
    → is_given rest c ≡ true
    → is_given (d ∷ rest) c ≡ true
unfolding ids_of
is_given-tail d rest c h = elim (Option-cases c.id) [
  | inl e ↦ absurd (cc (rw (e) at h))
  | inr (x, e) ↦ elim (Option-cases d.id) [
    | inl f ↦ rw (e, f, ids_of) (rw (e) at h)
    | inr (y, f) ↦ rw (e, f, ids_of) (later x y (rw (e) at h))
  ]
]
  where
    later : (x y : String) → contains x (ids_of rest) ≡ true → contains x (y ∷ ids_of rest) ≡ true
    later x y k = ground (arith, k)

is_given-head :
    (d : Child) (rest : List Child) (x : String) → d.id ≡ some x → is_given (d ∷ rest) d ≡ true
unfolding ids_of
is_given-head d rest x e = rw (e, ids_of) (same x)
  where
    same : (x : String) → contains x (x ∷ ids_of rest) ≡ true
    same x = ground (arith, (eq_iff x x).1 refl)

-- A child with an id, of the given ones.
abbrev Given : List Child → Child → Type 0
Given replacing c = (lacks_id c ≡ false) × (is_given replacing c ≡ true) × Memᴰ c replacing

new_of-Given :
    (seen : List String) (replacing : List Child) → All (Given replacing) (new_of seen replacing)
unfolding new_of
new_of-Given seen [] = tt
new_of-Given seen (c ∷ rest) =
    let later : All (Given (c ∷ rest)) (new_of seen rest) =
      All-map (new_of seen rest)
        (λ d (g : Given rest d). (g.0, is_given-tail c rest d g.1, Memᴰ.tail g.2))
        (new_of-Given seen rest) in
    elim (Option-cases c.id) [
      | inl e ↦ simp (e, new_of) later
      | inr (id, e) ↦ elim (Bool-cases (contains id seen)) [
        | inl f ↦ simp (e, f, new_of) later
        | inr f ↦
            let here : Given (c ∷ rest) c =
              (rw (e) refl, is_given-head c rest id e, Memᴰ.head refl) in
            simp (e, f, new_of) (here, later)
      ]
    ]

-- The children are refused exactly if one of them has no id. Otherwise each id of the existing ones
-- stays as often as it was there, and a new id comes as often as it is given. Each element has an
-- id; it is one of the given children, or an existing one whose id none of them has.
pub merge_children-IsMerged :
    (existing replacing : List Child)
    → ((any lacks_id replacing ≡ true) × (merge_children existing replacing ≡ raise invalid_child))
      ⊎ ((any lacks_id replacing ≡ false)
          × (ordered : List Child) × (merge_children existing replacing ≡ ok ordered)
          × ((x : String)
              → count x (ids_of ordered)
                ≡ count x (ids_of existing)
                  + (if contains x (ids_of existing) then 0 else count x (ids_of replacing)))
          × All (Origin existing replacing) ordered)
unfolding merge_children
merge_children-IsMerged existing replacing =
    let first = index_existing existing [] in
    elim (index_children-Indexes replacing first) [
      | inl (bad, raised) ↦ inl (bad, rw (raised) refl)
      | inr (good, by_id, returned, h) ↦
          let seen = ids_of existing in
          let (ids, origins) = current_of-own existing replacing by_id seen (
            All-contains (HasOwn existing replacing by_id) seen
              (found_own existing replacing first by_id (index_existing-Indexes existing []) h)) in
          let old = current_of seen by_id in
          let new = new_of seen replacing in
          inr (
            good,
            old ++ new,
            rw (returned) refl,
            (λ x.
                ap (count x) (ids_of-append old new)
                ∙ count-append x (ids_of old) (ids_of new)
                ∙ (λ i. count x (ids i) + new_of-count seen replacing x i)),
            All-append (Origin existing replacing) old new origins (
                All-map new (λ c (g : Given replacing c). (g.0, inl (g.1, g.2)))
                  (new_of-Given seen replacing)),
          )
    ]
