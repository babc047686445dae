-- ===== src/Transaction/Triples.antt =====
-- Postconditions of actions: one predicate for a return and one for an exception.
use adr_architecture_kit.Transaction.State.{
  Machine, Outcome, return, raised, Exec, and_then, ◌>>=◌, ◌>>◌, modify,
}

abbrev pub Post :
    {A : Type 0} → (A → Machine → Type 0) → (Machine → Type 0) → Outcome A → Machine → Type 0
Post Q E (return a) s = Q a s
Post Q E (raised e) s = E s

pub record Triple {A : Type 0} (P : Machine → Type 0) (m : Exec A) (Q : A → Machine → Type 0)
    (E : Machine → Type 0) : Type 0 where
  pub at : (s : Machine) → P s → Post Q E (m s).0 (m s).1

module _ {A B : Type 0} {Q : A → Machine → Type 0} {R : B → Machine → Type 0}
    {E : Machine → Type 0} where
  Post-and_then :
      (r : Outcome A) (s : Machine) (f : A → Exec B)
      → Post Q E r s
      → ((a : A) → Triple (Q a) (f a) R E)
      → Post R E (and_then r f s).0 (and_then r f s).1
  Post-and_then (return a) s f h k = (k a).at s h
  Post-and_then (raised e) s f h k = h

  pub Triple-bind :
      {P : Machine → Type 0} (m : Exec A) (f : A → Exec B)
      → Triple P m Q E
      → ((a : A) → Triple (Q a) (f a) R E)
      → Triple P (m >>= f) R E
  Triple-bind m f hm hf = record { at = λ s p. Post-and_then (m s).0 (m s).1 f (hm.at s p) hf }

module _ {B : Type 0} {P Q : Machine → Type 0} {R : B → Machine → Type 0}
    {E : Machine → Type 0} where
  pub Triple-seq :
      (m : Exec Unit) (k : Exec B) → Triple P m (λ _. Q) E → Triple Q k R E → Triple P (m >> k) R E
  Triple-seq m k hm hk = Triple-bind m (λ _. k) hm (λ _. hk)

pub Triple-modify :
    {P Q E : Machine → Type 0} (f : Machine → Machine)
    → ((s : Machine) → P s → Q (f s))
    → Triple P (modify f) (λ _. Q) E
Triple-modify f h = record { at = h }

module _ {A : Type 0} (Q : A → Machine → Type 0) {E F : Machine → Type 0} where
  Post-weaken :
      (r : Outcome A) (s : Machine) → ((s : Machine) → E s → F s) → Post Q E r s → Post Q F r s
  Post-weaken (return a) s k h = h
  Post-weaken (raised e) s k h = k s h

  pub Triple-weaken :
      {P : Machine → Type 0} (m : Exec A)
      → ((s : Machine) → E s → F s)
      → Triple P m Q E
      → Triple P m Q F
  Triple-weaken m k h = record { at = λ s p. Post-weaken (m s).0 (m s).1 k (h.at s p) }
