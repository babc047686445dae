-- ===== src/Identity/Uri.antt =====
-- The entity URIs: derivation and parsing are inverse.
use adr_architecture_kit.Base.{
  ℕ, Option, none, some, [], ◌∷◌, ◌++◌, Bool, true, false, not, ◌≡◌, refl, sym, subst, ap, ◌∙◌, inl,
  inr, arith, eqb, Bool-cases, Option-cases, ok, Returns-bind, Text, codes, is_prefix, drop_prefix,
  append-drop_prefix,
}
use adr_architecture_kit.Identity.{
  matches_uuidv7, is_version_7, validate_uuidv7, derive_entity_uri, split_once, is_blank,
  checked_parts, parse_entity_uri, all_in,
}

abbrev pub no_slash : ℕ → Bool
no_slash c = not (eqb c 47)

abbrev pub marker : Text
marker = codes "/entities/"

-- The first marker is the one after a text without a slash.
split_once-append :
    (namespace uuid : Text)
    → all_in no_slash namespace ≡ true
    → split_once marker (namespace ++ (marker ++ uuid)) ≡ some (namespace, uuid)
unfolding split_once
split_once-append [] uuid h = refl
split_once-append (c ∷ namespace) uuid h =
    let rest = split_once-append namespace uuid (ground arith) in
    let other : eqb 47 c ≡ false = ground arith in rw (other, rest) refl

-- What is split was joined.
pub split_once-eq-append :
    (m text : Text) (parts : Text × Text)
    → split_once m text ≡ some parts
    → text ≡ parts.0 ++ (m ++ parts.1)
unfolding split_once
split_once-eq-append [] [] parts h = ground arith
split_once-eq-append (p ∷ m) [] parts h = absurd (cc)
split_once-eq-append m (c ∷ text) parts h = elim (Bool-cases (is_prefix m (c ∷ text))) [
  | inl e ↦
      let same : ([], drop_prefix m (c ∷ text)) ≡ parts = ground arith in
      subst (λ (q : Text × Text). c ∷ text ≡ q.0 ++ (m ++ q.1)) same
        (sym (append-drop_prefix m (c ∷ text) e))
  | inr e ↦ elim (Option-cases (split_once m text)) [
    | inl nothing ↦ absurd (ground arith)
    | inr found ↦
        let same : (c ∷ found.0.0, found.0.1) ≡ parts = ground arith in
        subst (λ (q : Text × Text). c ∷ text ≡ q.0 ++ (m ++ q.1)) same
          (ap (λ t. c ∷ t) (split_once-eq-append m text found.0 found.1))
  ]
]

checked_parts-ok :
    (uri : Text) (found : Option (Text × Text)) (parts : Text × Text)
    → checked_parts uri found ≡ ok parts
    → (found ≡ some parts) × (matches_uuidv7 parts.1 ≡ true)
unfolding checked_parts
checked_parts-ok uri none parts h = absurd (cc)
checked_parts-ok uri (some found) parts h =
    let same : found ≡ parts = ground arith in
    let shaped : matches_uuidv7 found.1 ≡ true = ground arith in
    (ap some same, subst (λ (q : Text × Text). matches_uuidv7 q.1 ≡ true) same shaped)

module _ (uuid_parse : Text → Option (ℕ × Text)) where
  pub validate_uuidv7-ok :
      (uuid result : Text)
      → validate_uuidv7 uuid_parse uuid ≡ ok result
      → (result ≡ uuid) × (matches_uuidv7 uuid ≡ true) × (is_version_7 uuid_parse uuid ≡ true)
  unfolding validate_uuidv7
  validate_uuidv7-ok uuid result h = (ground arith, ground arith, ground arith)

  -- A URI that is derived for a namespace, not blank and without a slash, parses to its parts.
  pub parse_entity_uri-derive_entity_uri :
      (namespace uuid uri : Text)
      → is_blank namespace ≡ false
      → all_in no_slash namespace ≡ true
      → derive_entity_uri uuid_parse namespace uuid ≡ ok uri
      → parse_entity_uri uri ≡ ok (namespace, uuid)
  unfolding parse_entity_uri derive_entity_uri checked_parts
  parse_entity_uri-derive_entity_uri namespace uuid uri named plain h =
      let valid = Returns-bind (validate_uuidv7 uuid_parse uuid) _ h in
      let checked = validate_uuidv7-ok uuid valid.0 valid.1 in
      let whole : codes "adr://" ++ (namespace ++ (marker ++ uuid)) ≡ uri = cc (valid.2) in
      rw (← whole) (rw (split_once-append namespace uuid plain, checked.1, named) refl)

  -- A URI that parses is the one derived from its parts, where uuid.UUID takes the second for a
  -- version 7 with that text.
  pub derive_entity_uri-parse_entity_uri :
      (uri namespace uuid : Text)
      → parse_entity_uri uri ≡ ok (namespace, uuid)
      → is_version_7 uuid_parse uuid ≡ true
      → derive_entity_uri uuid_parse namespace uuid ≡ ok uri
  unfolding parse_entity_uri derive_entity_uri validate_uuidv7
  derive_entity_uri-parse_entity_uri uri namespace uuid h version =
      elim (Bool-cases (is_prefix (codes "adr://") uri)) [
        | inr e ↦ absurd (ground arith)
        | inl e ↦
            let remainder = drop_prefix (codes "adr://") uri in
            let checked : checked_parts uri (split_once marker remainder) ≡ ok (namespace, uuid) =
              ground arith in
            let parts =
              checked_parts-ok uri (split_once marker remainder) (namespace, uuid) checked in
            let joined = split_once-eq-append marker remainder (namespace, uuid) parts.0 in
            let whole : codes "adr://" ++ (namespace ++ (marker ++ uuid)) ≡ uri =
              ap (λ t. codes "adr://" ++ t) (sym joined)
              ∙ append-drop_prefix (codes "adr://") uri e in
            rw (parts.1, version) (ap ok whole)
      ]
