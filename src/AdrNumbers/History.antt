-- ===== src/AdrNumbers/History.antt =====
-- src/adr_kit/repository/architecture_repository.py: the ids that a repository gives over its life.
use adr_architecture_kit.Base.{
  ℕ, ◌+◌, ◌≤◌, ◌<◌, String, Option, some, List, [], ◌∷◌, ◌++◌, false, ◌==◌, ◌≡◌, ◌≢◌, refl, sym, ap,
  subst, ◌∙◌, ◌⊎◌, inl, inr, arith, ltb, eq_iff, Bool-cases, Option-cases, Result, ok, raise,
  Returns-bind, passes_iff, All, All-map, item_of, item_of-put, put, Text,
}
use adr_architecture_kit.AdrNumbers.{
  AdrFile, StateFile, missing, unreadable, allocation, max, four_digits_text,
  load_allocation_high_water, save_allocation_high_water, scan_files, prefix_of, next_id,
}
use adr_architecture_kit.AdrNumbers.Order.{next_id-IsNext, sequence_read}

-- What `put` writes for one type leaves the mark of another.
load-put :
    (adr_type other : String) (value : Option ℕ) (marks : List (String × Option ℕ))
    → (other == adr_type) ≡ false
    → load_allocation_high_water adr_type (allocation (put other value marks))
      ≡ load_allocation_high_water adr_type (allocation marks)
unfolding load_allocation_high_water
load-put adr_type other value marks e =
    rw (item_of-put other adr_type value marks, e, load_allocation_high_water) refl

-- The mark of a type stays when that of another is saved.
load-save_other :
    (adr_type other : String) (mark high_water : ℕ) (state next : StateFile)
    → (other == adr_type) ≡ false
    → load_allocation_high_water adr_type state ≡ ok mark
    → save_allocation_high_water other high_water state ≡ ok next
    → load_allocation_high_water adr_type next ≡ ok mark
unfolding load_allocation_high_water save_allocation_high_water
load-save_other adr_type other mark high_water missing next e l s =
    let same : allocation (put other (some high_water) []) ≡ next = cc (s) in
    ap (load_allocation_high_water adr_type) (sym same)
    ∙ load-put adr_type other (some high_water) [] e
    ∙ l
load-save_other adr_type other mark high_water unreadable next e l s = absurd (cc)
load-save_other adr_type other mark high_water (allocation marks) next e l s =
    elim (Option-cases (item_of other marks)) [
      | inl f ↦
          let same : allocation (put other (some (max 0 high_water)) marks) ≡ next =
            cc (rw (f, save_allocation_high_water) at s) in
          ap (load_allocation_high_water adr_type) (sym same)
          ∙ load-put adr_type other (some (max 0 high_water)) marks e
          ∙ l
      | inr f ↦ elim (Option-cases f.0) [
        | inl g ↦ absurd (cc (rw (f.1, g, save_allocation_high_water) at s))
        | inr g ↦
            let same : allocation (put other (some (max g.0 high_water)) marks) ≡ next =
              cc (rw (f.1, g.1, save_allocation_high_water) at s) in
            ap (load_allocation_high_water adr_type) (sym same)
            ∙ load-put adr_type other (some (max g.0 high_water)) marks e
            ∙ l
      ]
    ]

returned : {E A : Type 0} (r : Result E A) → ((e : E) × (r ≡ raise e)) ⊎ ((a : A) × (r ≡ ok a))
returned (ok a) = inr (a, refl)
returned (raise e) = inl (e, refl)

module _ (strip : Text → Text) where
  next_id-other :
      (adr_type other : String) (mark : ℕ) (files : List AdrFile) (state : StateFile)
      (result : Text × StateFile)
      → (other == adr_type) ≡ false
      → load_allocation_high_water adr_type state ≡ ok mark
      → next_id strip other files state ≡ ok result
      → load_allocation_high_water adr_type result.1 ≡ ok mark
  unfolding next_id
  next_id-other adr_type other mark files state result e l h =
      let typed = Returns-bind (prefix_of other) _ h in
      let loaded = Returns-bind (load_allocation_high_water other state) _ typed.2 in
      let scanned = Returns-bind (scan_files strip typed.0 files ([], loaded.0)) _ loaded.2 in
      let banded = (passes_iff (ltb 8999 (scanned.0.1 + 1)) _ _ result).0 scanned.2 in
      let saved =
        Returns-bind (save_allocation_high_water other (scanned.0.1 + 1) state) _ banded.1 in
      let same : (typed.0 ++ four_digits_text (scanned.0.1 + 1), saved.0) ≡ result = cc (saved.2) in
      ap (λ r. load_allocation_high_water adr_type r.1) (sym same)
      ∙ load-save_other adr_type other mark (scanned.0.1 + 1) state saved.0 e l saved.1

  -- The calls of `next_id`, of any types, one after the other: each sees the state file that the
  -- ones before it left, and files of its own. A call that raises leaves the state as it is. The
  -- ids that are given, each with its type.
  unfoldable pub next_ids : List (String × List AdrFile) → StateFile → List (String × Text)
  next_ids [] state = []
  next_ids (call ∷ calls) state =
      let unchanged = next_ids calls state in
      elim (next_id strip call.0 call.1 state) [
        | ok result ↦ (call.0, result.0) ∷ next_ids calls result.1
        | raise e ↦ unchanged
      ]

  -- The id of a number after the mark, if it is one of the type.
  abbrev IsAfter : String → ℕ → String × Text → Type 0
  IsAfter adr_type mark given =
      ((given.0 == adr_type) ≡ false)
      ⊎ ((prefix : Text) × (n : ℕ) × (prefix_of adr_type ≡ ok prefix)
          × (mark < n)
          × (n ≤ 8999)
          × (given.1 ≡ prefix ++ four_digits_text n))

  IsAfter-lower :
      (adr_type : String) (low high : ℕ) (given : String × Text)
      → low < high
      → IsAfter adr_type high given
      → IsAfter adr_type low given
  IsAfter-lower adr_type low high given h (inl e) = inl e
  IsAfter-lower adr_type low high given h (inr (prefix, n, typed, after, band, id)) =
      inr (prefix, n, typed, omega arith, band, id)

  next_ids-IsAfter :
      (adr_type : String) (mark : ℕ) (calls : List (String × List AdrFile)) (state : StateFile)
      → load_allocation_high_water adr_type state ≡ ok mark
      → All (IsAfter adr_type mark) (next_ids calls state)
  unfolding next_ids
  next_ids-IsAfter adr_type mark [] state l = tt
  next_ids-IsAfter adr_type mark ((type, files) ∷ calls) state l =
      elim (returned (next_id strip type files state)) [
        | inl (e, raised) ↦ rw (raised, next_ids) (next_ids-IsAfter adr_type mark calls state l)
        | inr (result, gave) ↦ elim (Bool-cases (type == adr_type)) [
          | inr e ↦
              let later : All (IsAfter adr_type mark) (next_ids calls result.1) =
                next_ids-IsAfter adr_type mark calls result.1
                  (next_id-other adr_type type mark files state result e l gave) in
              rw (gave, next_ids) (inl e, later)
          | inl e ↦
              let (prefix, before, n, next) = next_id-IsNext strip type files state result gave in
              let (typed, loaded, after, band, id, marked, _) = next in
              let same : type ≡ adr_type = (eq_iff type adr_type).0 e in
              let old : before ≡ mark =
                cc (sym loaded ∙ ap (λ t. load_allocation_high_water t state) same ∙ l) in
              let above : mark < n = subst (λ m. m < n) old after in
              let later : All (IsAfter adr_type mark) (next_ids calls result.1) =
                All-map (next_ids calls result.1)
                  (λ given k. IsAfter-lower adr_type mark n given above k)
                  (next_ids-IsAfter adr_type n calls result.1
                    (ap (λ t. load_allocation_high_water t result.1) (sym same) ∙ marked)) in
              rw (gave, next_ids)
                (inr (prefix, n, ap prefix_of (sym same) ∙ typed, above, band, id), later)
        ]
      ]

  -- Each of the ids differs from the later ones of its type.
  abbrev pub AreDistinct : List (String × Text) → Type 0
  AreDistinct [] = Unit
  AreDistinct (given ∷ later) = All (λ other. given ≢ other) later × AreDistinct later

  after-differs :
      (adr_type : String) (prefix id : Text) (n : ℕ) (given : String × Text)
      → prefix_of adr_type ≡ ok prefix
      → n ≤ 8999
      → id ≡ prefix ++ four_digits_text n
      → IsAfter adr_type n given
      → (adr_type, id) ≢ given
  after-differs adr_type prefix id n given typed band e (inl other) same =
      let type : given.0 ≡ adr_type = ap (λ g. g.0) (sym same) in
      absurd (cc (other, (eq_iff given.0 adr_type).1 type))
  after-differs adr_type prefix id n given typed band e (inr (prefix', m, typed', after, band', e'))
        same =
      let prefixes : prefix ≡ prefix' = cc (sym typed ∙ typed') in
      let digits : prefix ++ four_digits_text n ≡ prefix ++ four_digits_text m =
        sym e ∙ ap (λ g. g.1) same ∙ e' ∙ ap (λ p. p ++ four_digits_text m) (sym prefixes) in
      let numbers : n ≡ m = sequence_read strip prefix n m band band' digits in omega arith

  -- Over any calls for any types, from any state and whatever the files are at each call, no two of
  -- the ids that are given for one type are alike.
  pub next_ids-AreDistinct :
      (calls : List (String × List AdrFile)) (state : StateFile)
      → AreDistinct (next_ids calls state)
  unfolding next_ids
  next_ids-AreDistinct [] state = tt
  next_ids-AreDistinct ((type, files) ∷ calls) state =
      elim (returned (next_id strip type files state)) [
        | inl (e, raised) ↦ rw (raised, next_ids) (next_ids-AreDistinct calls state)
        | inr (result, gave) ↦
            let (prefix, before, n, next) = next_id-IsNext strip type files state result gave in
            let (typed, loaded, after, band, id, marked, _) = next in
            let differ : All (λ other. (type, result.0) ≢ other) (next_ids calls result.1) =
              All-map (next_ids calls result.1)
                (λ given k. after-differs type prefix result.0 n given typed band id k)
                (next_ids-IsAfter type n calls result.1 marked) in
            let rest : AreDistinct (next_ids calls result.1) =
              next_ids-AreDistinct calls result.1 in
            rw (gave, next_ids) (differ, rest)
      ]
