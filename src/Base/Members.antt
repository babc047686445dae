-- ===== src/Base/Members.antt =====
-- The elements of lists.
use mathlib.Core.Path.{◌≡◌, refl, sym, subst}
use mathlib.Core.Bool.{Bool, true}
use mathlib.Core.Logic.{◌↔◌, inl, inr, ⊎_elim}
use mathlib.Core.List.{List, [], ◌∷◌, ◌++◌, Memᴰ}
use mathlib.Core.List.Memᴰ
use adr_architecture_kit.Base.Tests.{Bool-cases}
use Prim.Native.Nat.{◌+◌}
use Prim.Native.String.{String}
use native.Mathlib.Omega.{arith}
use text.Mathlib.TextEquality.{eq_iff}
use adr_architecture_kit.Base.Lists.{All, contains, count}
use adr_architecture_kit.Base.Sorting.{insert_with, sort_with}

module _ {ℓ κ} {A : Type ℓ} (P : A → Type κ) where
  pub All-at : {a : A} (xs : List A) → All P xs → Memᴰ a xs → P a
  All-at [] h m = absurd (Memᴰ.not-nil m)
  All-at (x ∷ xs) h m =
      ⊎_elim (λ e. subst P (sym e) h.0) (λ later. All-at xs h.1 later) (Memᴰ.cases_cons m)

  pub All-each : (xs : List A) → ((a : A) → Memᴰ a xs → P a) → All P xs
  All-each [] h = tt
  All-each (x ∷ xs) h = (h x (Memᴰ.head refl), All-each xs (λ a m. h a (Memᴰ.tail m)))

module _ {ℓ} {A : Type ℓ} (le : A → A → Bool) where
  Memᴰ-insert_with : (a x : A) (ys : List A) → Memᴰ a (insert_with le x ys) ↔ Memᴰ a (x ∷ ys)
  unfolding insert_with
  Memᴰ-insert_with a x [] = (λ m. m, λ m. m)
  Memᴰ-insert_with a x (y ∷ ys) = elim (Bool-cases (le x y)) [
    | inl e ↦ rw (e) (λ m. m, λ m. m)
    | inr e ↦
        let later = Memᴰ-insert_with a x ys in
        rw (e) (
          λ m.
              ⊎_elim (λ same. Memᴰ.tail (Memᴰ.head same))
                (λ rest.
                  ⊎_elim Memᴰ.head (λ there. Memᴰ.tail (Memᴰ.tail there))
                    (Memᴰ.cases_cons (later.0 rest)))
                (Memᴰ.cases_cons m),
          λ m.
              ⊎_elim (λ same. Memᴰ.tail (later.1 (Memᴰ.head same)))
                (λ rest.
                  ⊎_elim Memᴰ.head (λ there. Memᴰ.tail (later.1 (Memᴰ.tail there)))
                    (Memᴰ.cases_cons rest))
                (Memᴰ.cases_cons m),
        )
  ]

  -- Sorting keeps the elements.
  pub Memᴰ-sort_with : (a : A) (xs : List A) → Memᴰ a (sort_with le xs) ↔ Memᴰ a xs
  unfolding sort_with
  Memᴰ-sort_with a [] = (λ m. m, λ m. m)
  Memᴰ-sort_with a (x ∷ xs) =
      let first = Memᴰ-insert_with a x (sort_with le xs) in
      let rest = Memᴰ-sort_with a xs in
      (
        λ m. ⊎_elim Memᴰ.head (λ there. Memᴰ.tail (rest.0 there)) (Memᴰ.cases_cons (first.0 m)),
        λ m. first.1 (⊎_elim Memᴰ.head (λ there. Memᴰ.tail (rest.1 there)) (Memᴰ.cases_cons m)),
      )

pub All-contains :
    (P : String → Type 0) (xs : List String)
    → ((x : String) → contains x xs ≡ true → P x)
    → All P xs
All-contains P [] h = tt
All-contains P (x ∷ xs) h =
    (h x (ground (arith, eq_iff x x)), All-contains P xs (λ y c. h y (ground arith)))

pub count-append : (x : String) (xs ys : List String) → count x (xs ++ ys) ≡ count x xs + count x ys
count-append x [] ys = omega arith
count-append x (y ∷ xs) ys = ground (arith, count-append x xs ys)
