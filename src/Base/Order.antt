-- ===== src/Base/Order.antt =====
-- Python's order of texts, by code points.
use Prim.Native.Nat.{compare as compare_ℕ}
use Prim.Native.Char.{Char, code}
use Prim.Native.String.{String, compare, then}
use Prim.Native.String.compare
use mathlib.Core.Path.{◌≡◌, refl, ap}
use mathlib.Core.Bool.{Bool, true, false}
use native.Mathlib.Omega.{arith}
use text.Mathlib.Text.{is_le}
use text.Mathlib.TextPositions.{compare_refl}
use text.Mathlib.TextEquality.{Char-path}

abbrev pub text_le : String → String → Bool
text_le s t = is_le (compare s t)

pub text_le_refl : (s : String) → text_le s s ≡ true
text_le_refl s = ap is_le (compare_refl s)

text_le-cons :
    (c d : Char) (s t : String)
    → text_le (String.◌∷◌ c s) (String.◌∷◌ d t)
      ≡ is_le (then (compare_ℕ (code c) (code d)) (compare s t))
text_le-cons c d s t = ap is_le (λ i. compare.cons-cons c d s t i)

nil-text_le : (c : Char) (s : String) → text_le String.[] (String.◌∷◌ c s) ≡ true
nil-text_le c s = ap is_le (λ i. compare.nil-cons c s i)

text_le-nil : (c : Char) (s : String) → text_le (String.◌∷◌ c s) String.[] ≡ false
text_le-nil c s = ap is_le (λ i. compare.cons-nil c s i)

pub text_le_total : (s t : String) → text_le s t ≡ false → text_le t s ≡ true
text_le_total String.[] String.[] h = absurd (cc)
text_le_total String.[] (String.◌∷◌ d t) h = cc (nil-text_le d t)
text_le_total (String.◌∷◌ c s) String.[] h = nil-text_le c s
text_le_total (String.◌∷◌ c s) (String.◌∷◌ d t) h =
    ground (arith, text_le-cons c d s t, text_le-cons d c t s, text_le_total s t)

pub text_le_trans : (s t u : String) → text_le s t ≡ true → text_le t u ≡ true → text_le s u ≡ true
text_le_trans String.[] t String.[] h k = refl
text_le_trans String.[] t (String.◌∷◌ e u) h k = nil-text_le e u
text_le_trans (String.◌∷◌ c s) String.[] u h k = cc (text_le-nil c s)
text_le_trans (String.◌∷◌ c s) (String.◌∷◌ d t) String.[] h k = cc (text_le-nil d t)
text_le_trans (String.◌∷◌ c s) (String.◌∷◌ d t) (String.◌∷◌ e u) h k =
    ground
      (arith, text_le-cons c d s t, text_le-cons d e t u, text_le-cons c e s u, text_le_trans s t u)

pub text_le_antisym : (s t : String) → text_le s t ≡ true → text_le t s ≡ true → s ≡ t
text_le_antisym String.[] String.[] h k = refl
text_le_antisym String.[] (String.◌∷◌ d t) h k = absurd (cc (text_le-nil d t))
text_le_antisym (String.◌∷◌ c s) String.[] h k = absurd (cc (text_le-nil c s))
text_le_antisym (String.◌∷◌ c s) (String.◌∷◌ d t) h k =
    let same : code c ≡ code d = ground (arith, text_le-cons c d s t, text_le-cons d c t s) in
    let rest : s ≡ t =
      text_le_antisym s t (ground (arith, text_le-cons c d s t))
        (ground (arith, text_le-cons d c t s)) in
    λ i. String.◌∷◌ (Char-path c d same i) (rest i)
