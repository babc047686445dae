-- ===== src/Base/Sorting.antt =====
-- The stable sort by an order, and by a key.
use mathlib.Core.Path.{◌≡◌, refl, ap, ◌∙◌}
use native.Mathlib.Omega.{arith}
use text.Mathlib.TextEquality.{eq_iff}
use mathlib.Core.Bool.{Bool, true, false, ◌||◌}
use mathlib.Core.List.{List, [], ◌∷◌, Perm}
use mathlib.Core.List.Perm
use mathlib.Core.Logic.{inl, inr}
use Prim.Native.String.{String}
use text.Mathlib.Text.{◌==◌}
use adr_architecture_kit.Base.Tests.{if◌then◌else◌, Bool-cases}
use adr_architecture_kit.Base.Order.{text_le, text_le_total, text_le_trans}
use adr_architecture_kit.Base.Lists.{All, All-map, any, IsDistinct}

module _ {ℓ} {A : Type ℓ} (le : A → A → Bool) where
  unfoldable pub insert_with : A → List A → List A
  insert_with x [] = x ∷ []
  insert_with x (y ∷ ys) = if le x y then x ∷ y ∷ ys else y ∷ insert_with x ys

  -- sorted(xs), by the order `le`
  unfoldable pub sort_with : List A → List A
  unfolding insert_with
  sort_with [] = []
  sort_with (x ∷ xs) = insert_with x (sort_with xs)

  abbrev pub IsOrdered : List A → Type 0
  IsOrdered [] = Unit
  IsOrdered (x ∷ xs) = All (λ y. le x y ≡ true) xs × IsOrdered xs

  insert_with-perm : (x : A) (ys : List A) → Perm (insert_with x ys) (x ∷ ys)
  unfolding insert_with
  insert_with-perm x [] = Perm.refl (x ∷ [])
  insert_with-perm x (y ∷ ys) = elim (Bool-cases (le x y)) [
    | inl e ↦ rw (e, insert_with) (Perm.refl _)
    | inr e ↦
        rw (e, insert_with) (Perm.trans (Perm.cons y (insert_with-perm x ys)) (Perm.swap x y ys))
  ]

  pub sort_with-perm : (xs : List A) → Perm (sort_with xs) xs
  unfolding sort_with
  sort_with-perm [] = Perm.refl []
  sort_with-perm (x ∷ xs) =
      Perm.trans (insert_with-perm x (sort_with xs)) (Perm.cons x (sort_with-perm xs))

  pub All-insert_with {κ} :
      (P : A → Type κ) (x : A) (ys : List A) → P x → All P ys → All P (insert_with x ys)
  unfolding insert_with
  All-insert_with P x [] p h = (p, tt)
  All-insert_with P x (y ∷ ys) p h = elim (Bool-cases (le x y)) [
    | inl e ↦ rw (e) (p, h)
    | inr e ↦ rw (e) (h.0, All-insert_with P x ys p h.1)
  ]

  pub All-sort_with {κ} : (P : A → Type κ) (xs : List A) → All P xs → All P (sort_with xs)
  unfolding sort_with
  All-sort_with P [] h = tt
  All-sort_with P (x ∷ xs) h = All-insert_with P x (sort_with xs) h.0 (All-sort_with P xs h.1)

  pub any-insert_with :
      (test : A → Bool) (x : A) (ys : List A)
      → any test (insert_with x ys) ≡ (test x || any test ys)
  unfolding insert_with
  any-insert_with test x [] = refl
  any-insert_with test x (y ∷ ys) = elim (Bool-cases (le x y)) [
    | inl e ↦ rw (e) refl
    | inr e ↦ rw (e) (ground (arith, any-insert_with test x ys))
  ]

  pub any-sort_with : (test : A → Bool) (xs : List A) → any test (sort_with xs) ≡ any test xs
  unfolding sort_with
  any-sort_with test [] = refl
  any-sort_with test (x ∷ xs) =
      ground (arith, any-insert_with test x (sort_with xs), any-sort_with test xs)

  -- The order is total and transitive.
  module _ (total : (x y : A) → le x y ≡ false → le y x ≡ true)
      (trans : (x y z : A) → le x y ≡ true → le y z ≡ true → le x z ≡ true) where
    insert_with-IsOrdered : (x : A) (ys : List A) → IsOrdered ys → IsOrdered (insert_with x ys)
    unfolding insert_with
    insert_with-IsOrdered x [] h = (tt, tt)
    insert_with-IsOrdered x (y ∷ ys) h = elim (Bool-cases (le x y)) [
      | inl e ↦ rw (e) ((e, All-map ys (λ z k. trans x y z e k) h.0), h)
      | inr e ↦ rw (e) (All-insert_with _ x ys (total x y e) h.0, insert_with-IsOrdered x ys h.1)
    ]

    pub sort_with-IsOrdered : (xs : List A) → IsOrdered (sort_with xs)
    unfolding sort_with
    sort_with-IsOrdered [] = tt
    sort_with-IsOrdered (x ∷ xs) = insert_with-IsOrdered x (sort_with xs) (sort_with-IsOrdered xs)

-- Of two elements, the one with the key that comes first.
abbrev pub le_by {ℓ} : {A : Type ℓ} → (A → String) → A → A → Bool
le_by key x y = text_le (key x) (key y)

module _ {ℓ} {A : Type ℓ} (key : A → String) where
  -- sorted(xs, key=key)
  abbrev pub sort_by : List A → List A
  sort_by xs = sort_with (le_by key) xs

  abbrev pub IsSorted : List A → Type 0
  IsSorted xs = IsOrdered (le_by key) xs

  pub sort_by-IsSorted : (xs : List A) → IsSorted (sort_by xs)
  sort_by-IsSorted =
      sort_with-IsOrdered (le_by key) (λ x y. text_le_total (key x) (key y))
        (λ x y z. text_le_trans (key x) (key y) (key z))

  IsDistinct-insert_by :
      (x : A) (ys : List A)
      → any (λ y. key y == key x) ys ≡ false
      → IsDistinct key ys
      → IsDistinct key (insert_with (le_by key) x ys)
  unfolding insert_with
  IsDistinct-insert_by x [] h d = (refl, tt)
  IsDistinct-insert_by x (y ∷ ys) h d = elim (Bool-cases (text_le (key x) (key y))) [
    | inl e ↦ rw (e) (h, d)
    | inr e ↦ rw (e) (
      ground (
        arith,
        any-insert_with (le_by key) (λ z. key z == key y) x ys,
        eq_iff (key x) (key y),
        eq_iff (key y) (key x),
      ),
      IsDistinct-insert_by x ys (ground arith) d.1,
    )
  ]

  pub IsDistinct-sort_by :
      (xs : List A) → IsDistinct key xs → IsDistinct key (sort_with (le_by key) xs)
  unfolding sort_with
  IsDistinct-sort_by [] d = tt
  IsDistinct-sort_by (x ∷ xs) d =
      IsDistinct-insert_by x (sort_with (le_by key) xs)
        (ground (arith, any-sort_with (le_by key) (λ y. key y == key x) xs))
        (IsDistinct-sort_by xs d.1)

  -- What is sorted stays as it is.
  pub sort_by-sorted : (xs : List A) → IsSorted xs → sort_by xs ≡ xs
  unfolding sort_with insert_with
  sort_by-sorted [] s = refl
  sort_by-sorted (x ∷ []) s = refl
  sort_by-sorted (x ∷ y ∷ ys) s =
      ap (insert_with (le_by key) x) (sort_by-sorted (y ∷ ys) s.1) ∙ rw (s.0.0) refl
