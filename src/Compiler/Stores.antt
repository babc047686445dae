-- ===== src/Compiler/Stores.antt =====
-- src/adr_kit/compiler/ir: the stores are finite maps, and their values do not depend on the order
-- of insertion.
use adr_architecture_kit.Base.{
  String, Option, none, some, List, [], ◌∷◌, ◌++◌, Bool, ◌||◌, true, false, ◌==◌, ◌≡◌, refl, sym,
  ap, subst, ◌∙◌, ◌⊎◌, inl, inr, arith, eq_iff, if◌then◌else◌, Bool-cases, ok, raise, any, All,
  IsDistinct, IsDistinct-append, IsDistinct-sort_by, any-sort_with, text_le_refl, insert_with,
  sort_with, le_by, sort_by, IsSorted, sort_by-IsSorted, text_le, text_le_antisym,
}
use adr_architecture_kit.Compiler.{IrError, is_some, get, add, assign, values}

module _ {A : Type 0} (key : A → String) where
  pub absent_iff : (id : String) (xs : List A) → any (λ y. key y == id) xs ≡ is_some (get key id xs)
  unfolding get
  absent_iff id [] = refl
  absent_iff id (x ∷ xs) = elim (Bool-cases (key x == id)) [
    | inl e ↦ rw (e) refl
    | inr e ↦ rw (e) (absent_iff id xs)
  ]

  -- Under a key that is not there, the value comes last.
  pub assign-new :
      (x : A) (store : List A)
      → any (λ y. key y == key x) store ≡ false
      → assign key x store ≡ store ++ (x ∷ [])
  unfolding assign
  assign-new x [] h = refl
  assign-new x (y ∷ store) h =
      let here : (key y == key x) ≡ false = first (key y == key x) _ h in
      let later : any (λ z. key z == key x) store ≡ false = second (key y == key x) _ h in
      rw (here) (ap (λ ys. y ∷ ys) (assign-new x store later))
    where
      first : (p q : Bool) → (p || q) ≡ false → p ≡ false
      first p q h = ground arith

      second : (p q : Bool) → (p || q) ≡ false → q ≡ false
      second p q h = ground arith

  -- Two different keys are tested in either order.
  pub swap :
      (id : String) (x y : A) (rest : Option A)
      → (key y == key x) ≡ false
      → (if key y == id then some y else if key x == id then some x else rest)
        ≡ (if key x == id then some x else if key y == id then some y else rest)
  swap id x y rest h = elim (Bool-cases (key y == id)) [
    | inl e ↦ elim (Bool-cases (key x == id)) [
      | inl f ↦
          absurd (ground (arith, eq_iff (key y) id, eq_iff (key x) id, eq_iff (key y) (key x)))
      | inr f ↦ rw (e, f) refl
    ]
    | inr e ↦ rw (e) refl
  ]

  get-append :
      (id : String) (x : A) (xs : List A)
      → any (λ y. key y == key x) xs ≡ false
      → get key id (xs ++ (x ∷ [])) ≡ (if key x == id then some x else get key id xs)
  unfolding get
  get-append id x [] h = refl
  get-append id x (y ∷ ys) h =
      ap (λ o. if key y == id then some y else o) (get-append id x ys (ground arith))
      ∙ swap id x y (get key id ys) (ground arith)

  get-insert_with :
      (id : String) (x : A) (ys : List A)
      → any (λ y. key y == key x) ys ≡ false
      → get key id (insert_with (le_by key) x ys) ≡ get key id (x ∷ ys)
  unfolding get insert_with
  get-insert_with id x [] h = refl
  get-insert_with id x (y ∷ ys) h = elim (Bool-cases (text_le (key x) (key y))) [
    | inl e ↦ rw (e) refl
    | inr e ↦ rw (e) (
        ap (λ o. if key y == id then some y else o) (get-insert_with id x ys (ground arith))
        ∙ swap id x y (get key id ys) (ground arith))
  ]

  get-values :
      (id : String) (xs : List A) → IsDistinct key xs → get key id (values key xs) ≡ get key id xs
  unfolding get values sort_with
  get-values id [] d = refl
  get-values id (x ∷ xs) d =
      get-insert_with id x (sort_by key xs)
        (any-sort_with (le_by key) (λ y. key y == key x) xs ∙ d.0)
      ∙ ap (λ o. if key x == id then some x else o) (get-values id xs d.1)

  pub get-key : (id : String) (xs : List A) (x : A) → get key id xs ≡ some x → key x ≡ id
  unfolding get
  get-key id [] x h = absurd (cc)
  get-key id (y ∷ ys) x h = elim (Bool-cases (key y == id)) [
    | inl e ↦
        let same : y ≡ x = cc (ap (λ b. if b then some y else get key id ys) (sym e) ∙ h) in
        ap key (sym same) ∙ (eq_iff (key y) id).0 e
    | inr e ↦ get-key id ys x (ap (λ b. if b then some y else get key id ys) (sym e) ∙ h)
  ]

  -- A value that is found is one of the list.
  pub get-All {κ} :
      (P : A → Type κ) (id : String) (xs : List A) (x : A) → All P xs → get key id xs ≡ some x → P x
  unfolding get
  get-All P id [] x h e = absurd (cc)
  get-All P id (y ∷ ys) x h e = elim (Bool-cases (key y == id)) [
    | inl f ↦
        let same : y ≡ x = cc (ap (λ b. if b then some y else get key id ys) (sym f) ∙ e) in
        subst P same h.0
    | inr f ↦ get-All P id ys x h.1 (ap (λ b. if b then some y else get key id ys) (sym f) ∙ e)
  ]

  get-head : (x : A) (xs : List A) → get key (key x) (x ∷ xs) ≡ some x
  unfolding get
  get-head x xs = rw ((eq_iff (key x) (key x)).1 refl) refl

  get-tail :
      (id : String) (x : A) (xs : List A)
      → IsDistinct key (x ∷ xs)
      → get key id xs ≡ (if key x == id then none else get key id (x ∷ xs))
  unfolding get
  get-tail id x xs d = elim (Bool-cases (key x == id)) [
    | inl e ↦
        let absent : is_some (get key id xs) ≡ false =
          subst (λ k. is_some (get key k xs) ≡ false) ((eq_iff (key x) id).0 e)
            (sym (absent_iff (key x) xs) ∙ d.0) in
        rw (e) (is_none (get key id xs) absent)
    | inr e ↦ rw (e) refl
  ]
    where
      is_none : (o : Option A) → is_some o ≡ false → o ≡ none
      is_none none h = refl
      is_none (some a) h = absurd (cc)

  least :
      (x : A) (xs : List A) (y : A)
      → IsSorted key (x ∷ xs)
      → get key (key y) (x ∷ xs) ≡ some y
      → text_le (key x) (key y) ≡ true
  least x xs y s h =
      get-All (λ z. text_le (key x) (key z) ≡ true) (key y) (x ∷ xs) y (text_le_refl (key x), s.0) h

  sorted_unique :
      (xs ys : List A)
      → IsSorted key xs
      → IsDistinct key xs
      → IsSorted key ys
      → IsDistinct key ys
      → ((id : String) → get key id xs ≡ get key id ys)
      → xs ≡ ys
  unfolding get
  sorted_unique [] [] s d t e same = refl
  sorted_unique [] (y ∷ ys) s d t e same = absurd (cc (same (key y), get-head y ys))
  sorted_unique (x ∷ xs) [] s d t e same = absurd (cc (same (key x), get-head x xs))
  sorted_unique (x ∷ xs) (y ∷ ys) s d t e same =
      let there = sym (same (key x)) ∙ get-head x xs in
      let back = same (key y) ∙ get-head y ys in
      let keys = text_le_antisym (key x) (key y) (least x xs y s back) (least y ys x t there) in
      let heads : x ≡ y = cc (sym (get-head x xs) ∙ ap (λ k. get key k (x ∷ xs)) keys ∙ back) in
      let tails = sorted_unique xs ys s.1 d.1 t.1 e.1 (λ id.
        get-tail id x xs d
        ∙ ap (λ o. if key x == id then none else o) (same id)
        ∙ ap (λ k. if k == id then none else get key id (y ∷ ys)) keys
        ∙ sym (get-tail id y ys e)) in
      λ i. heads i ∷ tails i

  -- Two stores without a key twice that answer alike have the same values in the same order,
  -- in whatever order they were filled.
  pub values-deterministic :
      (xs ys : List A)
      → IsDistinct key xs
      → IsDistinct key ys
      → ((id : String) → get key id xs ≡ get key id ys)
      → values key xs ≡ values key ys
  unfolding values
  values-deterministic xs ys d e same =
      sorted_unique (sort_by key xs) (sort_by key ys) (sort_by-IsSorted key xs)
        (IsDistinct-sort_by key xs d) (sort_by-IsSorted key ys) (IsDistinct-sort_by key ys e)
        (λ id. get-values id xs d ∙ same id ∙ sym (get-values id ys e))

  -- Adding to a store without a key twice raises if the key is there; else the store answers the
  -- new value at its key and as before elsewhere, and it has no key twice.
  pub add-refines :
      (duplicate : String → IrError) (x : A) (xs : List A)
      → IsDistinct key xs
      → ((is_some (get key (key x) xs) ≡ true)
          × (add key duplicate x xs ≡ raise (duplicate (key x))))
        ⊎ ((ys : List A) × (add key duplicate x xs ≡ ok ys)
            × IsDistinct key ys
            × ((id : String) → get key id ys ≡ (if key x == id then some x else get key id xs)))
  unfolding add
  add-refines duplicate x xs d = elim (Bool-cases (is_some (get key (key x) xs))) [
    | inl e ↦ inl (e, rw (e) refl)
    | inr e ↦
        let fresh = absent_iff (key x) xs ∙ e in
        inr (
          xs ++ (x ∷ []),
          rw (e) refl,
          IsDistinct-append key xs x fresh d,
          λ id. get-append id x xs fresh,
        )
  ]
