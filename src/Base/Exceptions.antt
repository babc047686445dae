-- ===== src/Base/Exceptions.antt =====
-- Python's exceptions as values: a call returns a value or raises.
use mathlib.Core.Path.{◌≡◌, refl}
use mathlib.Core.Bool.{Bool, true, false}
use mathlib.Core.Logic.{◌↔◌}
use adr_architecture_kit.Base.Tests.{if◌then◌else◌}

pub data Result (E : Type 0) (A : Type 0) : Type 0 where
  ok : A → Result E A
  raise : E → Result E A

infixl 5 ◌>>=◌ ◌>>◌
abbrev pub ◌>>=◌ : {E A B : Type 0} → Result E A → (A → Result E B) → Result E B
ok a >>= f = f a
raise e >>= f = raise e

abbrev pub ◌>>◌ : {E A B : Type 0} → Result E A → Result E B → Result E B
m >> k = m >>= λ _. k

-- if test: raise error
abbrev pub raise_if : {E : Type 0} → Bool → E → Result E (Unit {0})
raise_if true e = raise e
raise_if false e = ok tt

abbrev pub is_ok : {E A : Type 0} → Result E A → Bool
is_ok (ok a) = true
is_ok (raise e) = false

pub Returns-bind :
    {E A B : Type 0} (m : Result E A) (f : A → Result E B) {b : B}
    → (m >>= f) ≡ ok b
    → (a : A) × (m ≡ ok a) × (f a ≡ ok b)
Returns-bind (ok a) f h = (a, refl, h)
Returns-bind (raise e) f h = cc

-- A guard is passed exactly if its test is false.
pub passes_iff :
    {E A : Type 0} (bad : Bool) (e : E) (m : Result E A) (a : A)
    → ((if bad then raise e else m) ≡ ok a) ↔ ((bad ≡ false) × (m ≡ ok a))
passes_iff true e m a = (λ h. absurd (cc), λ h. absurd (cc))
passes_iff false e m a = (λ h. (refl, h), λ h. h.1)

pub bind-passes_iff :
    {E A B : Type 0} (bad : Bool) (e : E) (m : Result E A) (f : A → Result E B) (b : B)
    → (((if bad then raise e else m) >>= f) ≡ ok b) ↔ ((bad ≡ false) × ((m >>= f) ≡ ok b))
bind-passes_iff true e m f b = (λ h. absurd (cc), λ h. absurd (cc))
bind-passes_iff false e m f b = (λ h. (refl, h), λ h. h.1)

-- The same, where what the guard leads to raises in one way or another.
pub refuses_iff :
    {E A : Type 0} (bad : Bool) (n m : Result E A) (a : A)
    → (n ≡ ok a → ⊥)
    → ((if bad then n else m) ≡ ok a) ↔ ((bad ≡ false) × (m ≡ ok a))
refuses_iff true n m a never = (λ h. absurd (never h), λ h. absurd (cc (h.0)))
refuses_iff false n m a never = (λ h. (refl, h), λ h. h.1)

pub either-raises :
    {E A : Type 0} (b : Bool) (e f : E) (a : A) → (if b then raise e else raise f) ≡ ok a → ⊥
either-raises true e f a h = cc
either-raises false e f a h = cc
