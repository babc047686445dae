-- ===== src/AliasHistory/Validity.antt =====
-- src/adr_kit/promotion/invariant_alias_history.py: the aliases of a ledger that is taken.
use adr_architecture_kit.Base.{
  ℕ, ◌≤◌, ◌⊎◌, inl, inr, Option, none, some, List, [], ◌∷◌, ◌++◌, map, Bool, true, false, not, ◌&&◌,
  ◌||◌, ◌≡◌, ◌≢◌, refl, sym, ap, ◌∙◌, subst, not-false, arith, ok, Returns-bind, passes_iff, All,
  All-map, Text, codes, same_text, same_text_iff, is_prefix, drop_prefix, append-drop_prefix,
  is_digit, fits, at_dollar,
}
use adr_architecture_kit.Identity.{is_among}
use adr_architecture_kit.IntegrityHeaders.{every}
use adr_architecture_kit.AliasHistory.{
  Entry, History, digit_classes, matches_inv_alias, field_matches, allowed_entry_fields,
  allowed_top_fields, dispositions, is_other_flag, alias_text, validate_entry, validate_entries,
  entries_of, load_validated_historical_aliases,
}

abbrev pub IsDigit : ℕ → Type 0
IsDigit c = (48 ≤ c) × (c ≤ 57)

-- "INV-" and four digits, and maybe a newline.
abbrev pub IsInvAlias : Text → Type 0
IsInvAlias text =
    (a b c d : ℕ) × (IsDigit a × IsDigit b × IsDigit c × IsDigit d)
    × ((text ≡ codes "INV-" ++ a ∷ b ∷ c ∷ d ∷ [])
        ⊎ (text ≡ codes "INV-" ++ a ∷ b ∷ c ∷ d ∷ 10 ∷ []))

-- Each text differs from the later ones.
abbrev pub AreDistinct : List Text → Type 0
AreDistinct [] = Unit
AreDistinct (text ∷ texts) = All (λ other. text ≢ other) texts × AreDistinct texts

digit_lem : (c : ℕ) → is_digit c ≡ true → IsDigit c
digit_lem c h = (ground arith, ground arith)

end_lem : (rest : Text) → at_dollar rest ≡ true → (rest ≡ []) ⊎ (rest ≡ 10 ∷ [])
end_lem [] h = inl refl
end_lem (c ∷ []) h = let newline : c ≡ 10 = ground arith in inr (ap (λ x. x ∷ []) newline)
end_lem (c ∷ d ∷ rest) h = absurd (cc)

digits_lem :
    (text : Text)
    → fits at_dollar digit_classes text ≡ true
    → (a b c d : ℕ) × (IsDigit a × IsDigit b × IsDigit c × IsDigit d)
      × ((text ≡ a ∷ b ∷ c ∷ d ∷ []) ⊎ (text ≡ a ∷ b ∷ c ∷ d ∷ 10 ∷ []))
digits_lem [] h = absurd (cc)
digits_lem (a ∷ []) h = absurd (ground arith)
digits_lem (a ∷ b ∷ []) h = absurd (ground arith)
digits_lem (a ∷ b ∷ c ∷ []) h = absurd (ground arith)
digits_lem (a ∷ b ∷ c ∷ d ∷ rest) h = (
  a,
  b,
  c,
  d,
  (
    digit_lem a (ground arith),
    digit_lem b (ground arith),
    digit_lem c (ground arith),
    digit_lem d (ground arith),
  ),
  elim (end_lem rest (ground arith)) [
    | inl e ↦ inl (ap (λ r. a ∷ b ∷ c ∷ d ∷ r) e)
    | inr e ↦ inr (ap (λ r. a ∷ b ∷ c ∷ d ∷ r) e)
  ],
)

matches_inv_alias-IsInvAlias : (text : Text) → matches_inv_alias text ≡ true → IsInvAlias text
unfolding matches_inv_alias
matches_inv_alias-IsInvAlias text h =
    let parts = both (is_prefix (codes "INV-") text) _ h in
    let (a, b, c, d, digits, rest) = digits_lem (drop_prefix (codes "INV-") text) parts.1 in
    let whole = append-drop_prefix (codes "INV-") text parts.0 in
    (
      a,
      b,
      c,
      d,
      digits,
      elim rest [
        | inl e ↦ inl (sym whole ∙ ap (λ r. codes "INV-" ++ r) e)
        | inr e ↦ inr (sym whole ∙ ap (λ r. codes "INV-" ++ r) e)
      ],
    )
  where
    both : (p q : Bool) → (p && q) ≡ true → (p ≡ true) × (q ≡ true)
    both p q h = (ground arith, ground arith)

field_matches-text :
    (test : Text → Bool) (field : Option Text)
    → field_matches test field ≡ true
    → (field ≡ some (alias_text field)) × (test (alias_text field) ≡ true)
field_matches-text test none h = absurd (cc)
field_matches-text test (some text) h = (refl, h)

validate_entry-alias :
    (seen : List Text) (entry : Entry) (alias : Text)
    → validate_entry seen entry ≡ ok alias
    → (entry.historical_alias ≡ some alias) × (is_among alias seen ≡ false) × IsInvAlias alias
unfolding validate_entry
validate_entry-alias seen entry alias h =
    let known =
      (passes_iff (not (every (λ name. is_among name allowed_entry_fields) entry.fields)) _ _
          alias).0
        h in
    let shaped =
      (passes_iff (not (field_matches matches_inv_alias entry.historical_alias)) _ _ alias).0
        known.1 in
    let fresh =
      (passes_iff (is_among (alias_text entry.historical_alias) seen) _ _ alias).0 shaped.1 in
    let disposed =
      (passes_iff (not (field_matches (λ name. is_among name dispositions) entry.disposition)) _ _
          alias).0
        fresh.1 in
    let canonical =
      (passes_iff (not (field_matches matches_inv_alias entry.canonical_alias)) _ _ alias).0
        disposed.1 in
    let flagged =
      (passes_iff (is_other_flag entry.permanently_consumed) _ (ok _) alias).0 canonical.1 in
    let same : alias_text entry.historical_alias ≡ alias = cc (flagged.1) in
    let text = field_matches-text matches_inv_alias entry.historical_alias (not-false _ shaped.0) in
    (
      text.0 ∙ ap some same,
      subst (λ t. is_among t seen ≡ false) same fresh.0,
      subst IsInvAlias same (matches_inv_alias-IsInvAlias _ text.1),
    )

apart :
    (alias text : Text) (seen : List Text)
    → is_among text (alias ∷ seen) ≡ false
    → (alias ≢ text) × (is_among text seen ≡ false)
apart alias text seen h = (
  λ e. absurd (cc ((same_text_iff alias text).1 e, first (same_text alias text) _ h)),
  rest (same_text alias text) _ h,
)
  where
    first : (p q : Bool) → (p || q) ≡ false → p ≡ false
    first p q h = ground arith

    rest : (p q : Bool) → (p || q) ≡ false → q ≡ false
    rest p q h = ground arith

-- The aliases are those of the entries, new ones and distinct.
abbrev AreTaken : List Text → List Entry → List Text → Type 0
AreTaken seen entries aliases =
    (map (λ entry. entry.historical_alias) entries ≡ map some aliases)
    × All (λ alias. is_among alias seen ≡ false) aliases
    × AreDistinct aliases
    × All IsInvAlias aliases

validate_entries-AreTaken :
    (seen : List Text) (entries : List Entry) (aliases : List Text)
    → validate_entries seen entries ≡ ok aliases
    → AreTaken seen entries aliases
unfolding validate_entries
validate_entries-AreTaken seen [] aliases h =
    let same : [] ≡ aliases = cc in subst (AreTaken seen []) same (refl, tt, tt, tt)
validate_entries-AreTaken seen (entry ∷ entries) aliases h =
    let first = Returns-bind (validate_entry seen entry) _ h in
    let rest = Returns-bind (validate_entries (first.0 ∷ seen) entries) _ first.2 in
    let same : first.0 ∷ rest.0 ≡ aliases = cc (rest.2) in
    let (field, fresh, shaped) = validate_entry-alias seen entry first.0 first.1 in
    let (fields, others, distinct, all) =
      validate_entries-AreTaken (first.0 ∷ seen) entries rest.0 rest.1 in
    subst (AreTaken seen (entry ∷ entries)) same (
      (λ i. field i ∷ fields i),
      (fresh, All-map rest.0 (λ text k. (apart first.0 text seen k).1) others),
      (All-map rest.0 (λ text k. (apart first.0 text seen k).0) others, distinct),
      (shaped, all),
    )

entries_of-some :
    (field : Option (List Entry)) (entries : List Entry)
    → entries_of field ≡ ok entries
    → field ≡ some entries
entries_of-some none entries h = absurd (cc)
entries_of-some (some items) entries h = ap some (cc (h))

-- If a ledger is taken, it has a list of entries, and the aliases are their historical aliases, one
-- for each entry. No two entries have the same, and each is "INV-" and four digits, maybe with a
-- newline at the end.
pub load_validated_historical_aliases-AreTaken :
    (doc : History) (aliases : List Text)
    → load_validated_historical_aliases doc ≡ ok aliases
    → (entries : List Entry) × (doc.entries ≡ some entries)
      × (map (λ entry. entry.historical_alias) entries ≡ map some aliases)
      × AreDistinct aliases
      × All IsInvAlias aliases
unfolding load_validated_historical_aliases
load_validated_historical_aliases-AreTaken doc aliases h =
    let known =
      (passes_iff (not (every (λ name. is_among name allowed_top_fields) doc.fields)) _ _ aliases).0
        h in
    let versioned =
      (passes_iff (not (is_among (codes "schema_version") doc.fields)) _ _ aliases).0 known.1 in
    let typed =
      (passes_iff
          (not (field_matches (λ type. same_text type (codes "invariant_alias_history")) doc.type))
          _ _ aliases).0
        versioned.1 in
    let pending = (passes_iff (is_among (codes "status") doc.fields) _ _ aliases).0 typed.1 in
    let listed = Returns-bind (entries_of doc.entries) _ pending.1 in
    let valid = Returns-bind (validate_entries [] listed.0) _ listed.2 in
    let logged = (passes_iff (not doc.log_is_list) _ (ok valid.0) aliases).0 valid.2 in
    let same : valid.0 ≡ aliases = cc (logged.1) in
    let (fields, _, distinct, all) =
      subst (AreTaken [] listed.0) same (validate_entries-AreTaken [] listed.0 valid.0 valid.1) in
    (listed.0, entries_of-some doc.entries listed.0 listed.1, fields, distinct, all)
