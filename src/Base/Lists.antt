-- ===== src/Base/Lists.antt =====
-- Lists: a predicate of all elements, Python's `any` and `in`, distinct keys.
use mathlib.Core.Path.{◌≡◌, refl}
use native.Mathlib.Omega.{arith}
use text.Mathlib.TextEquality.{eq_iff}
use mathlib.Core.Option.{Option, none, some}
use mathlib.Core.Bool.{Bool, true, false, ◌||◌}
use mathlib.Core.Logic.{◌↔◌, inl, inr}
use mathlib.Core.List.{List, [], ◌∷◌, ◌++◌}
use Prim.Native.Nat.{ℕ, ◌+◌}
use Prim.Native.String.{String}
use text.Mathlib.Text.{◌==◌}
use adr_architecture_kit.Base.Tests.{if◌then◌else◌, Bool-cases}

abbrev pub All {ℓ κ} : {A : Type ℓ} → (A → Type κ) → List A → Type κ
All P [] = Unit
All P (x ∷ xs) = P x × All P xs

pub All-append {ℓ κ} :
    {A : Type ℓ} (P : A → Type κ) (xs ys : List A) → All P xs → All P ys → All P (xs ++ ys)
All-append P [] ys h k = k
All-append P (x ∷ xs) ys h k = (h.0, All-append P xs ys h.1 k)

pub All-map {ℓ κ μ} :
    {A : Type ℓ} {P : A → Type κ} {Q : A → Type μ} (xs : List A)
    → ((x : A) → P x → Q x)
    → All P xs
    → All Q xs
All-map [] f h = tt
All-map (x ∷ xs) f h = (f x h.0, All-map xs f h.1)

-- any(test(x) for x in xs)
abbrev pub any {ℓ} : {A : Type ℓ} → (A → Bool) → List A → Bool
any test [] = false
any test (x ∷ xs) = test x || any test xs

-- x in xs
abbrev pub contains : String → List String → Bool
contains x xs = any (λ y. y == x) xs

pub any-append {ℓ} :
    {A : Type ℓ} (test : A → Bool) (xs ys : List A)
    → any test (xs ++ ys) ≡ (any test xs || any test ys)
any-append test [] ys = refl
any-append test (x ∷ xs) ys = ground (arith, any-append test xs ys)

-- No key twice.
module _ {ℓ} {A : Type ℓ} (key : A → String) where
  abbrev pub IsDistinct : List A → Type 0
  IsDistinct [] = Unit
  IsDistinct (x ∷ xs) = (any (λ y. key y == key x) xs ≡ false) × IsDistinct xs

  pub IsDistinct-append :
      (xs : List A) (x : A)
      → any (λ y. key y == key x) xs ≡ false
      → IsDistinct xs
      → IsDistinct (xs ++ (x ∷ []))
  IsDistinct-append [] x h d = (refl, tt)
  IsDistinct-append (y ∷ ys) x h d = (
    ground (
      arith,
      any-append (λ z. key z == key y) ys (x ∷ []),
      eq_iff (key x) (key y),
      eq_iff (key y) (key x),
    ),
    IsDistinct-append ys x (ground arith) d.1,
  )

-- len(xs)
abbrev pub length {ℓ} : {A : Type ℓ} → List A → ℕ
length [] = 0
length (x ∷ xs) = length xs + 1

pub any-none {ℓ} :
    {A : Type ℓ} (test : A → Bool) (xs : List A)
    → All (λ x. test x ≡ false) xs
    → any test xs ≡ false
any-none test [] h = refl
any-none test (x ∷ xs) h = ground (arith, any-none test xs h.1)

-- [x for x in xs if test(x)]
abbrev pub filter {ℓ} : {A : Type ℓ} → (A → Bool) → List A → List A
filter test [] = []
filter test (x ∷ xs) = if test x then x ∷ filter test xs else filter test xs

-- xs.count(x)
abbrev pub count : String → List String → ℕ
count x [] = 0
count x (y ∷ ys) = if y == x then count x ys + 1 else count x ys

pub append_assoc {ℓ} : {A : Type ℓ} (xs ys zs : List A) → (xs ++ ys) ++ zs ≡ xs ++ (ys ++ zs)
append_assoc [] ys zs = refl
append_assoc (x ∷ xs) ys zs = λ i. x ∷ append_assoc xs ys zs i

pub append_nil {ℓ} : {A : Type ℓ} (xs : List A) → xs ++ [] ≡ xs
append_nil [] = refl
append_nil (x ∷ xs) = λ i. x ∷ append_nil xs i

-- dict.get and d[key] = value; a dictionary is the list of its items in the order of insertion.
abbrev pub item_of {ℓ} : {A : Type ℓ} → String → List (String × A) → Option A
item_of key [] = none
item_of key (item ∷ items) =
    let rest = item_of key items in if item.0 == key then some item.1 else rest

abbrev pub put {ℓ} : {A : Type ℓ} → String → A → List (String × A) → List (String × A)
put key value [] = (key, value) ∷ []
put key value (item ∷ items) =
    let rest = put key value items in if item.0 == key then (key, value) ∷ items else item ∷ rest

-- What holds of the elements that pass the test holds of the filtered list, and conversely.
pub All-filter {ℓ κ} :
    {A : Type ℓ} (P : A → Type κ) (test : A → Bool) (xs : List A)
    → All (λ x. test x ≡ true → P x) xs ↔ All P (filter test xs)
All-filter P test [] = (λ h. tt, λ h. tt)
All-filter P test (x ∷ xs) =
    let later = All-filter P test xs in
    elim (Bool-cases (test x)) [
      | inl e ↦ rw (e) (λ h. (h.0 refl, later.0 h.1), λ h. (λ _. h.0, later.1 h.1))
      | inr e ↦ rw (e) (λ h. later.0 h.1, λ h. (λ k. absurd (cc), later.1 h))
    ]
