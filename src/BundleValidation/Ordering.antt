-- ===== src/BundleValidation/Ordering.antt =====
-- The order of the diagnostics that a log returns.
use mathlib.Core.List.{Perm}
use adr_architecture_kit.Base.{
  ℕ, String, List, [], ◌∷◌, Bool, true, false, ◌&&◌, ◌||◌, ◌==◌, ltb, eqb, if◌then◌else◌, ◌≡◌, refl,
  sym, ap, ◌∙◌, inl, inr, arith, Bool-cases, eq_iff, All-map, text_le, text_le_refl, texts_le,
  sort_with, texts_le_total, texts_le_trans, IsOrdered, sort_with-IsOrdered, sort_with-perm,
}
use adr_architecture_kit.BundleValidation.{
  DiagnosticLevel, info, warning, error, int, Diagnostic, or_blank, sort_texts, sort_key_le,
  DiagnosticLog, as_list,
}

sort_key_le_total : (a b : Diagnostic) → sort_key_le a b ≡ false → sort_key_le b a ≡ true
sort_key_le_total a b h = ground (arith, texts_le_total (sort_texts a) (sort_texts b))

sort_key_le_trans :
    (a b c : Diagnostic) → sort_key_le a b ≡ true → sort_key_le b c ≡ true → sort_key_le a c ≡ true
sort_key_le_trans a b c h k =
    ground (arith, texts_le_trans (sort_texts a) (sort_texts b) (sort_texts c))

abbrev pub rank : DiagnosticLevel → ℕ
rank info = 0
rank warning = 1
rank error = 2

-- Two texts decide the order if they differ, and else what comes after them.
abbrev pub by_text : String → String → Bool → Bool
by_text x y rest = if x == y then rest else text_le x y

-- The less severe one comes first; then path, source, code and message decide, in this order, where
-- a missing path or source is the empty text.
abbrev pub comes_first : Diagnostic → Diagnostic → Bool
comes_first a b =
    ltb (rank a.level) (rank b.level)
    || (eqb (rank a.level) (rank b.level)
        && by_text (or_blank a.path) (or_blank b.path) (
            by_text (or_blank a.source_ref) (or_blank b.source_ref)
              (by_text a.code b.code (text_le a.message b.message))))

last_text : (x y : String) → by_text x y true ≡ text_le x y
last_text x y = elim (Bool-cases (x == y)) [
  | inl e ↦ rw (e) (sym (ap (text_le x) (sym ((eq_iff x y).0 e)) ∙ text_le_refl x))
  | inr e ↦ rw (e) refl
]

texts_lem :
    (a b : Diagnostic)
    → texts_le (sort_texts a) (sort_texts b)
      ≡ by_text (or_blank a.path) (or_blank b.path) (
          by_text
            (or_blank a.source_ref)
            (or_blank b.source_ref)
            (by_text a.code b.code (text_le a.message b.message)))
texts_lem a b =
    ap
      (λ last.
        by_text (or_blank a.path) (or_blank b.path)
          (by_text (or_blank a.source_ref) (or_blank b.source_ref) (by_text a.code b.code last)))
      (last_text a.message b.message)

levels_lem :
    (x y : DiagnosticLevel) (rest : Bool)
    → (if eqb (int x) (int y) then rest else ltb (int x) (int y))
      ≡ (ltb (rank x) (rank y) || (eqb (rank x) (rank y) && rest))
levels_lem info info rest = refl
levels_lem info warning rest = refl
levels_lem info error rest = refl
levels_lem warning info rest = refl
levels_lem warning warning rest = refl
levels_lem warning error rest = refl
levels_lem error info rest = refl
levels_lem error warning rest = refl
levels_lem error error rest = refl

sort_key_le-comes_first : (a b : Diagnostic) → sort_key_le a b ≡ comes_first a b
sort_key_le-comes_first a b =
    ap (λ rest. if eqb (int a.level) (int b.level) then rest else ltb (int a.level) (int b.level))
      (texts_lem a b)
    ∙ levels_lem a.level b.level _

IsOrdered-comes_first :
    (log : List Diagnostic) → IsOrdered sort_key_le log → IsOrdered comes_first log
IsOrdered-comes_first [] h = tt
IsOrdered-comes_first (a ∷ log) h =
    (All-map log (λ b e. sym (sort_key_le-comes_first a b) ∙ e) h.0, IsOrdered-comes_first log h.1)

-- The returned diagnostics are those of the log. Of two of them, the less severe comes first, and
-- among those of one level the path, source, code and message decide, in this order.
pub as_list-IsOrdered :
    (log : DiagnosticLog) → IsOrdered comes_first (as_list log) × Perm (as_list log) log
unfolding as_list
as_list-IsOrdered log = (
  IsOrdered-comes_first (sort_with sort_key_le log)
      (sort_with-IsOrdered sort_key_le sort_key_le_total sort_key_le_trans log),
  sort_with-perm sort_key_le log,
)
