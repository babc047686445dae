-- ===== src/Base/Dictionaries.antt =====
-- Dictionaries with texts as keys.
use mathlib.Core.Path.{◌≡◌, refl}
use native.Mathlib.Omega.{arith}
use text.Mathlib.TextEquality.{eq_iff}
use mathlib.Core.Option.{some}
use mathlib.Core.Bool.{false}
use mathlib.Core.Logic.{inl, inr}
use mathlib.Core.List.{List, [], ◌∷◌}
use Prim.Native.String.{String}
use text.Mathlib.Text.{◌==◌}
use adr_architecture_kit.Base.Tests.{if◌then◌else◌, Bool-cases}
use adr_architecture_kit.Base.Lists.{item_of, put}

module _ {ℓ} {A : Type ℓ} where
  pub item_of-put :
      (key other : String) (value : A) (items : List (String × A))
      → item_of other (put key value items)
        ≡ (if key == other then some value else item_of other items)
  item_of-put key other value [] = refl
  item_of-put key other value (item ∷ items) = elim (Bool-cases (item.0 == key)) [
    | inl e ↦ elim (Bool-cases (key == other)) [
      | inl f ↦ rw (e, f) refl
      | inr f ↦
          let differs : (item.0 == other) ≡ false =
            ground (arith, eq_iff item.0 key, eq_iff key other, eq_iff item.0 other) in
          rw (e, f, differs) refl
    ]
    | inr e ↦ rw (e) (
        ground (
          arith,
          item_of-put key other value items,
          eq_iff item.0 key,
          eq_iff key other,
          eq_iff item.0 other,
        ))
  ]

  pub item_of-put_same :
      (key : String) (value : A) (items : List (String × A))
      → item_of key (put key value items) ≡ some value
  item_of-put_same key value items = ground (arith, item_of-put key key value items, eq_iff key key)
