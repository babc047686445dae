-- ===== src/Base/Codes.antt =====
-- Texts as lists of code points, and what the patterns of the module `re` say of them.
use Prim.Native.Nat.{ℕ}
use Prim.Native.Char.{code}
use Prim.Native.String.{String}
use mathlib.Core.Path.{◌≡◌, refl}
use mathlib.Core.Bool.{Bool, true, false, ◌&&◌, ◌||◌}
use mathlib.Core.List.{List, [], ◌∷◌, ◌++◌}
use mathlib.Core.Logic.{◌↔◌}
use native.Mathlib.Omega.{arith}
use adr_architecture_kit.Base.Tests.{leb, eqb, if◌then◌else◌}

abbrev pub Text : Type 0
Text = List ℕ

abbrev pub codes : String → Text
codes String.[] = []
codes (String.◌∷◌ c s) = code c ∷ codes s

-- The classes of characters.
abbrev pub is_digit : ℕ → Bool
is_digit c = leb 48 c && leb c 57

abbrev pub is_lower : ℕ → Bool
is_lower c = leb 97 c && leb c 122

abbrev pub is_upper : ℕ → Bool
is_upper c = leb 65 c && leb c 90

abbrev pub is_hex : ℕ → Bool
is_hex c = is_digit c || leb 97 c && leb c 102

-- a == b
abbrev pub same_text : Text → Text → Bool
same_text [] [] = true
same_text [] (d ∷ t) = false
same_text (c ∷ s) [] = false
same_text (c ∷ s) (d ∷ t) = eqb c d && same_text s t

-- text.startswith(prefix)
abbrev pub is_prefix : Text → Text → Bool
is_prefix [] text = true
is_prefix (p ∷ prefix) [] = false
is_prefix (p ∷ prefix) (c ∷ text) = eqb p c && is_prefix prefix text

-- text[len(prefix):]
abbrev pub drop_prefix : Text → Text → Text
drop_prefix [] text = text
drop_prefix (p ∷ prefix) [] = []
drop_prefix (p ∷ prefix) (c ∷ text) = drop_prefix prefix text

-- A sequence of classes, one for each character, and what may follow.
abbrev pub fits : (Text → Bool) → List (ℕ → Bool) → Text → Bool
fits end [] text = end text
fits end (class ∷ classes) [] = false
fits end (class ∷ classes) (c ∷ text) = class c && fits end classes text

-- The end of the text, as `fullmatch` wants it.
abbrev pub at_end : Text → Bool
at_end [] = true
at_end (c ∷ text) = false

-- `$`: the end, or a last newline.
abbrev pub at_dollar : Text → Bool
at_dollar [] = true
at_dollar (c ∷ []) = eqb c 10
at_dollar (c ∷ d ∷ text) = false

-- class*, and what may follow. No class of the source holds what follows it.
abbrev pub star : (Text → Bool) → (ℕ → Bool) → Text → Bool
star end class [] = end []
star end class (c ∷ text) = if class c then star end class text else end (c ∷ text)

pub same_text_iff : (s t : Text) → (same_text s t ≡ true) ↔ (s ≡ t)
same_text_iff [] [] = (λ h. refl, λ h. refl)
same_text_iff [] (d ∷ t) = (λ h. absurd (cc), λ h. absurd (cc))
same_text_iff (c ∷ s) [] = (λ h. absurd (cc), λ h. absurd (cc))
same_text_iff (c ∷ s) (d ∷ t) =
    (λ h. ground (arith, same_text_iff s t), λ h. ground (arith, same_text_iff s t))

pub is_prefix-append : (s t : Text) → is_prefix s (s ++ t) ≡ true
is_prefix-append [] t = refl
is_prefix-append (c ∷ s) t = ground (arith, is_prefix-append s t)

pub drop_prefix-append : (s t : Text) → drop_prefix s (s ++ t) ≡ t
drop_prefix-append [] t = refl
drop_prefix-append (c ∷ s) t = drop_prefix-append s t

pub append-drop_prefix : (s text : Text) → is_prefix s text ≡ true → s ++ drop_prefix s text ≡ text
append-drop_prefix [] text h = refl
append-drop_prefix (c ∷ s) [] h = absurd (cc)
append-drop_prefix (c ∷ s) (d ∷ text) h = ground (arith, append-drop_prefix s text)
