-- ===== src/Base/Tuples.antt =====
-- Python's order of tuples of texts.
use Prim.Native.String.{String}
use mathlib.Core.Path.{◌≡◌, refl, sym, subst}
use mathlib.Core.Logic.{inl, inr}
use mathlib.Core.Bool.{Bool, true, false}
use mathlib.Core.List.{List, [], ◌∷◌}
use native.Mathlib.Omega.{arith}
use text.Mathlib.Text.{◌==◌}
use text.Mathlib.TextEquality.{eq_iff}
use adr_architecture_kit.Base.Tests.{if◌then◌else◌, Bool-cases}
use adr_architecture_kit.Base.Order.{text_le, text_le_total, text_le_trans, text_le_antisym}

-- a <= b, of tuples of texts: the first that differ decide.
abbrev pub texts_le : List String → List String → Bool
texts_le [] _ = true
texts_le (x ∷ xs) [] = false
texts_le (x ∷ xs) (y ∷ ys) = let rest = texts_le xs ys in if x == y then rest else text_le x y

pub texts_le_total : (xs ys : List String) → texts_le xs ys ≡ false → texts_le ys xs ≡ true
texts_le_total [] ys h = absurd (cc)
texts_le_total (x ∷ xs) [] h = refl
texts_le_total (x ∷ xs) (y ∷ ys) h =
    ground (arith, eq_iff x y, eq_iff y x, text_le_total x y, texts_le_total xs ys)

-- Between different texts in order there is none that closes a circle.
differ :
    (x y z : String) → (x == y) ≡ false → text_le x y ≡ true → text_le y z ≡ true → (x == z) ≡ false
differ x y z e first second = elim (Bool-cases (x == z)) [
  | inr e' ↦ e'
  | inl e' ↦
      let same : x ≡ z = (eq_iff x z).0 e' in
      let back : text_le y x ≡ true = subst (λ w. text_le y w ≡ true) (sym same) second in
      absurd (cc ((eq_iff x y).1 (text_le_antisym x y first back)))
]

pub texts_le_trans :
    (xs ys zs : List String) → texts_le xs ys ≡ true → texts_le ys zs ≡ true → texts_le xs zs ≡ true
texts_le_trans [] ys zs h k = refl
texts_le_trans (x ∷ xs) [] zs h k = absurd (cc)
texts_le_trans (x ∷ xs) (y ∷ ys) [] h k = absurd (cc)
texts_le_trans (x ∷ xs) (y ∷ ys) (z ∷ zs) h k = elim (Bool-cases (x == y)) [
  | inl e ↦
      let same : x ≡ y = (eq_iff x y).0 e in
      elim (Bool-cases (y == z)) [
        | inl e' ↦
            let same' : y ≡ z = (eq_iff y z).0 e' in
            ground (arith, eq_iff x z, texts_le_trans xs ys zs)
        | inr e' ↦ rw (same, e') (ground arith)
      ]
  | inr e ↦ elim (Bool-cases (y == z)) [
    | inl e' ↦ let same' : y ≡ z = (eq_iff y z).0 e' in rw (sym same', e) (ground arith)
    | inr e' ↦
        let first : text_le x y ≡ true = ground arith in
        let second : text_le y z ≡ true = ground arith in
        ground (arith, differ x y z e first second, text_le_trans x y z)
  ]
]
