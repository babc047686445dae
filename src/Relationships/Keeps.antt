-- ===== src/Relationships/Keeps.antt =====
-- Invariants of steps, one rule for each way to build a step.
use adr_architecture_kit.Base.{
  ℕ, ◌+◌, Option, none, some, List, [], ◌∷◌, Bool, true, false, ◌≡◌, refl, if◌then◌else◌, Result,
  ok, raise, ◌>>=◌,
}
use adr_architecture_kit.Relationships.State.{
  Derivation, DerivationError, Step, skip, ◌then◌, when, each, each_from, given, for_some,
}

abbrev pub Ends : (Derivation → Type 0) → Result DerivationError Derivation → Type 0
Ends P (ok s) = P s
Ends P (raise e) = Unit

-- If the step returns, it keeps `P`.
pub record Keeps (P : Derivation → Type 0) (m : Step) : Type 0 where
  pub at : (s : Derivation) → P s → Ends P (m s)

module _ {P : Derivation → Type 0} where
  pub Ends-bind :
      (r : Result DerivationError Derivation) (k : Step) → Ends P r → Keeps P k → Ends P (r >>= k)
  Ends-bind (ok s) k h kk = kk.at s h
  Ends-bind (raise e) k h kk = tt

  pub Keeps-skip : Keeps P skip
  unfolding skip
  Keeps-skip = record { at = λ s h. h }

  pub Keeps-then : (m k : Step) → Keeps P m → Keeps P k → Keeps P (m then k)
  unfolding ◌then◌
  Keeps-then m k km kk = record { at = λ s h. Ends-bind (m s) k (km.at s h) kk }

  pub Keeps-if :
      (b : Bool) (m k : Step)
      → (b ≡ true → Keeps P m)
      → (b ≡ false → Keeps P k)
      → Keeps P (if b then m else k)
  Keeps-if true m k km kk = km refl
  Keeps-if false m k km kk = kk refl

  pub Keeps-when : (b : Bool) (m : Step) → (b ≡ true → Keeps P m) → Keeps P (when b m)
  unfolding when
  Keeps-when b m km = Keeps-if b m skip km (λ _. Keeps-skip)

  pub Keeps-each {ℓ} :
      {A : Type ℓ} (f : A → Step) (xs : List A) → ((x : A) → Keeps P (f x)) → Keeps P (each f xs)
  unfolding each
  Keeps-each f [] kf = Keeps-skip
  Keeps-each f (x ∷ xs) kf = Keeps-then (f x) (each f xs) (kf x) (Keeps-each f xs kf)

  pub Keeps-each_from {ℓ} :
      {A : Type ℓ} (f : ℕ → A → Step) (index : ℕ) (xs : List A)
      → ((index : ℕ) (x : A) → Keeps P (f index x))
      → Keeps P (each_from f index xs)
  unfolding each_from
  Keeps-each_from f index [] kf = Keeps-skip
  Keeps-each_from f index (x ∷ xs) kf =
      Keeps-then (f index x) (each_from f (index + 1) xs) (kf index x)
        (Keeps-each_from f (index + 1) xs kf)

  pub Keeps-given :
      {A : Type 0} (r : Result DerivationError A) (f : A → Step)
      → ((a : A) → Keeps P (f a))
      → Keeps P (given r f)
  unfolding given
  Keeps-given (ok a) f kf = record { at = (kf a).at }
  Keeps-given (raise e) f kf = record { at = λ s h. tt }

  pub Keeps-for_some :
      {A : Type 0} (o : Option A) (f : A → Step)
      → ((a : A) → o ≡ some a → Keeps P (f a))
      → Keeps P (for_some o f)
  unfolding for_some
  Keeps-for_some none f kf = Keeps-skip
  Keeps-for_some (some a) f kf = kf a refl

pub ruleset keeps_rules = (
  Keeps-skip, Keeps-then, Keeps-if, Keeps-when, Keeps-each, Keeps-each_from, Keeps-given,
  Keeps-for_some,
)
