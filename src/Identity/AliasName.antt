-- ===== src/Identity/AliasName.antt =====
-- What the names that are taken for alias names look like.
use adr_architecture_kit.Base.{
  ℕ, ◌≤◌, ◌↔◌, ◌⊎◌, inl, inr, Bool-cases, Option, [], ◌∷◌, ◌++◌, Bool, true, false, not, ◌&&◌, ◌||◌,
  ◌≡◌, refl, sym, ap, passes_iff, not-false, subst, ◌∙◌, arith, ltb, eqb, ok, length, Text,
  is_lower, is_hex, at_dollar,
}
use adr_architecture_kit.Identity.{
  is_dash, matches_uuidv7, is_word, alias_rest, matches_alias_name, all_in, hex_only, is_among,
  reserved_names, validate_alias_name, repeats,
}

-- Words of letters and digits with single dashes between them, and maybe a newline at the end.
-- `dashed` says that a dash stands before the text.
abbrev pub IsDashed : Bool → Text → Type 0
IsDashed dashed [] = dashed ≡ false
IsDashed dashed (c ∷ text) =
    ((is_word c ≡ true) × IsDashed false text)
    ⊎ ((c ≡ 45) × (dashed ≡ false) × IsDashed true text)
    ⊎ ((c ≡ 10) × (dashed ≡ false) × (text ≡ []))

alias_rest-word :
    (dashed : Bool) (c : ℕ) (text : Text)
    → is_word c ≡ true
    → alias_rest dashed (c ∷ text) ≡ alias_rest false text
unfolding alias_rest
alias_rest-word dashed c text word =
    let other : is_dash c ≡ false = ground arith in rw (word, other) refl

alias_rest-dash :
    (c : ℕ) (text : Text)
    → is_word c ≡ false
    → is_dash c ≡ true
    → alias_rest false (c ∷ text) ≡ alias_rest true text
unfolding alias_rest
alias_rest-dash c text word dash = rw (word, dash) refl

alias_rest-other :
    (dashed : Bool) (c : ℕ) (text : Text)
    → is_word c ≡ false
    → (is_dash c && not dashed) ≡ false
    → alias_rest dashed (c ∷ text) ≡ (not dashed && at_dollar (c ∷ text))
unfolding alias_rest
alias_rest-other dashed c text word dash = rw (word, dash) refl

at_dollar-newline : (c : ℕ) (text : Text) → at_dollar (c ∷ text) ≡ true → (c ≡ 10) × (text ≡ [])
at_dollar-newline c [] h = (ground arith, refl)
at_dollar-newline c (d ∷ text) h = absurd (cc)

alias_rest-IsDashed :
    (dashed : Bool) (text : Text) → alias_rest dashed text ≡ true → IsDashed dashed text
alias_rest-IsDashed dashed [] h = unfold alias_rest in ground arith
alias_rest-IsDashed dashed (c ∷ text) h = elim (Bool-cases (is_word c)) [
  | inl e ↦ inl (e, alias_rest-IsDashed false text (cc (alias_rest-word dashed c text e)))
  | inr e ↦ elim (Bool-cases (is_dash c && not dashed)) [
    | inl e' ↦
        let plain : dashed ≡ false = ground arith in
        let dash : is_dash c ≡ true = ground arith in
        let step = alias_rest-dash c text e dash in
        inr (
          inl (
            ground arith,
            plain,
            alias_rest-IsDashed true text
                (sym step ∙ subst (λ d. alias_rest d (c ∷ text) ≡ true) plain h),
          ))
    | inr e' ↦
        let last : (not dashed && at_dollar (c ∷ text)) ≡ true =
          sym (alias_rest-other dashed c text e e') ∙ h in
        let newline = at_dollar-newline c text (ground arith) in
        inr (inr (newline.0, ground arith, newline.1))
  ]
]

IsDashed-alias_rest :
    (dashed : Bool) (text : Text) → IsDashed dashed text → alias_rest dashed text ≡ true
IsDashed-alias_rest dashed [] h = unfold alias_rest in ground arith
IsDashed-alias_rest dashed (c ∷ text) (inl h) =
    alias_rest-word dashed c text h.0 ∙ IsDashed-alias_rest false text h.1
IsDashed-alias_rest dashed (c ∷ text) (inr (inl h)) =
    rw (h.1)
      (alias_rest-dash c text (ground arith) (ground arith) ∙ IsDashed-alias_rest true text h.2)
IsDashed-alias_rest dashed (c ∷ text) (inr (inr h)) =
    rw (h.0, h.1, h.2) (alias_rest-other false 10 [] refl refl)

abbrev pub IsAliasName : Text → Type 0
IsAliasName [] = ⊥
IsAliasName (c ∷ text) = (is_lower c ≡ true) × IsDashed false text

matches_alias_name_iff : (name : Text) → (matches_alias_name name ≡ true) ↔ IsAliasName name
unfolding matches_alias_name
matches_alias_name_iff [] = (λ h. absurd (cc), λ h. absurd h)
matches_alias_name_iff (c ∷ text) = (
  λ h. (ground arith, alias_rest-IsDashed false text (ground arith)),
  λ h. let rest = IsDashed-alias_rest false text h.1 in ground (arith, h.0),
)

-- 32 hexadecimal digits, beside dashes
abbrev pub is_undashed_uuid : Text → Bool
is_undashed_uuid name = eqb (length (hex_only name)) 32 && all_in is_hex (hex_only name)

is_unsized : Text → Bool
is_unsized name = ltb (length name) 3 || ltb 96 (length name)

is_unsized_iff :
    (name : Text) → (is_unsized name ≡ false) ↔ ((3 ≤ length name) × (length name ≤ 96))
unfolding is_unsized
is_unsized_iff name = (λ h. (ground arith, ground arith), λ h. ground (arith, h.0, h.1))

-- A name is returned, and unchanged, exactly if it has 3 to 96 characters, is a lower case letter
-- followed by words with single dashes between them and maybe by a newline, has not the shape of a
-- UUID, with its dashes or elsewhere placed ones, is not reserved and not the entity type.
pub validate_alias_name-IsAliasName :
    (lower : Text → Text) (name result : Text) (entity_type : Option Text)
    → (validate_alias_name lower name entity_type ≡ ok result) ↔ (
        (result ≡ name)
        × ((3 ≤ length name) × (length name ≤ 96))
        × IsAliasName name
        × ((matches_uuidv7 name ≡ false)
            × (is_undashed_uuid name ≡ false)
            × (is_among name reserved_names ≡ false)
            × (repeats lower name entity_type ≡ false)))
unfolding validate_alias_name is_unsized
validate_alias_name-IsAliasName lower name result entity_type = (
  λ h.
      let sized = (passes_iff (is_unsized name) _ _ result).0 h in
      let formed = (passes_iff (not (matches_alias_name name)) _ _ result).0 sized.1 in
      let undashed = (passes_iff (matches_uuidv7 name) _ _ result).0 formed.1 in
      let free = (passes_iff (is_undashed_uuid name) _ _ result).0 undashed.1 in
      let last = (passes_iff (is_among name reserved_names) _ _ result).0 free.1 in
      let done = (passes_iff (repeats lower name entity_type) _ _ result).0 last.1 in
      (
        cc (done.1),
        (is_unsized_iff name).0 sized.0,
        (matches_alias_name_iff name).0 (not-false _ formed.0),
        (undashed.0, free.0, last.0, done.0),
      ),
  λ h. (passes_iff (is_unsized name) _ _ result).1 (
    (is_unsized_iff name).1 h.1,
    (passes_iff (not (matches_alias_name name)) _ _ result).1 (
      ap not ((matches_alias_name_iff name).1 h.2),
      (passes_iff (matches_uuidv7 name) _ _ result).1 (
        h.3.0,
        (passes_iff (is_undashed_uuid name) _ _ result).1 (
          h.3.1,
          (passes_iff (is_among name reserved_names) _ _ result).1 (
            h.3.2,
            (passes_iff (repeats lower name entity_type) _ _ result).1 (h.3.3, ap ok (sym h.0)),
          ),
        ),
      ),
    ),
  ),
)

IsDashed-newline :
    (dashed : Bool) (text : Text)
    → all_in (λ c. not (eqb c 10)) text ≡ true
    → IsDashed dashed text
    → IsDashed dashed (text ++ (10 ∷ []))
IsDashed-newline dashed [] h d = inr (inr (refl, d, refl))
IsDashed-newline dashed (c ∷ text) h (inl d) =
    inl (d.0, IsDashed-newline false text (ground arith) d.1)
IsDashed-newline dashed (c ∷ text) h (inr (inl d)) =
    inr (inl (d.0, d.1, IsDashed-newline true text (ground arith) d.2))
IsDashed-newline dashed (c ∷ text) h (inr (inr d)) = absurd (ground (arith, d.0))

-- The pattern takes each name that it takes without a newline also with one at the end.
pub matches_alias_name-newline :
    (name : Text)
    → all_in (λ c. not (eqb c 10)) name ≡ true
    → matches_alias_name name ≡ true
    → matches_alias_name (name ++ (10 ∷ [])) ≡ true
matches_alias_name-newline [] h m = absurd ((matches_alias_name_iff []).0 m)
matches_alias_name-newline (c ∷ text) h m =
    let shaped = (matches_alias_name_iff (c ∷ text)).0 m in
    (matches_alias_name_iff (c ∷ (text ++ (10 ∷ [])))).1
      (shaped.0, IsDashed-newline false text (ground arith) shaped.1)
