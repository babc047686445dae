-- ===== src/SemanticExtensions/Registrations.antt =====
-- src/adr_kit/semantic_extensions.py: what a registration of an alias prefix keeps.
use adr_architecture_kit.Base.{
  Option, none, some, List, [], ◌∷◌, true, false, ◌||◌, ◌≡◌, sym, ap, ◌∙◌, subst, inl, inr, arith,
  Bool-cases, not-false, ok, Returns-bind, passes_iff, Text, codes, same_text, same_text_iff,
}
use adr_architecture_kit.Identity.{split_once, is_among}
use adr_architecture_kit.SemanticExtensions.{
  entity, core_alias_prefixes, validate_extension_type, alias_prefix, Registrations, prior_of,
  differs, is_taken, validate_prefix, validate_alias_registration,
}

-- No two types have the same prefix.
abbrev pub HasOwnPrefixes : Registrations → Type 0
HasOwnPrefixes registrations =
    (s t p : Text) → prior_of s registrations ≡ some p → prior_of t registrations ≡ some p → s ≡ t

untaken :
    (type prefix s : Text) (registrations : Registrations)
    → is_taken type prefix registrations ≡ false
    → prior_of s registrations ≡ some prefix
    → s ≡ type
untaken type prefix s [] h k = absurd (cc)
untaken type prefix s (item ∷ items) h k = elim (Bool-cases (same_text item.0 s)) [
  | inl e ↦
      let own : item.1 ≡ prefix = cc (rw (e) at k) in
      let alike : same_text item.1 prefix ≡ true = (same_text_iff item.1 prefix).1 own in
      let type_same : same_text item.0 type ≡ true = ground arith in
      sym ((same_text_iff item.0 s).0 e) ∙ (same_text_iff item.0 type).0 type_same
  | inr e ↦ untaken type prefix s items (ground arith) (rw (e) at k)
]

HasOwnPrefixes-cons :
    (type prefix : Text) (registrations : Registrations)
    → is_taken type prefix registrations ≡ false
    → HasOwnPrefixes registrations
    → HasOwnPrefixes ((type, prefix) ∷ registrations)
HasOwnPrefixes-cons type prefix registrations free own s t p h k =
    elim (Bool-cases (same_text type s)) [
      | inl e ↦
          let of_s : prefix ≡ p = cc (rw (e) at h) in
          sym ((same_text_iff type s).0 e) ∙ elim (Bool-cases (same_text type t)) [
            | inl f ↦ (same_text_iff type t).0 f
            | inr f ↦
                sym (untaken type prefix t registrations free ((rw (f) at k) ∙ ap some (sym of_s)))
          ]
      | inr e ↦ elim (Bool-cases (same_text type t)) [
        | inl f ↦
            let of_t : prefix ≡ p = cc (rw (f) at k) in
            untaken type prefix s registrations free ((rw (e) at h) ∙ ap some (sym of_t))
            ∙ (same_text_iff type t).0 f
        | inr f ↦ own s t p (rw (e) at h) (rw (f) at k)
      ]
    ]

differs-some :
    (prefix prior : Text) (o : Option Text)
    → o ≡ some prior
    → differs prefix o ≡ false
    → prior ≡ prefix
differs-some prefix prior none e h = absurd (cc)
differs-some prefix prior (some other) e h =
    let same : other ≡ prior = cc in sym same ∙ (same_text_iff other prefix).0 (not-false _ h)

-- What is known of a prefix that is returned.
abbrev pub IsRegistrable : Text → Text → Registrations → List Text → Type 0
IsRegistrable type prefix registrations reserved =
    ((is_among prefix core_alias_prefixes || is_among prefix reserved) ≡ false)
    × ((prior : Text) → prior_of type registrations ≡ some prior → prior ≡ prefix)
    × (HasOwnPrefixes registrations → HasOwnPrefixes ((type, prefix) ∷ registrations))

validate_prefix-IsRegistrable :
    (type alias_id result : Text) (found : Option Text) (registrations : Registrations)
    (reserved : List Text)
    → validate_prefix type found alias_id registrations reserved ≡ ok result
    → IsRegistrable type result registrations reserved
unfolding validate_prefix
validate_prefix-IsRegistrable type alias_id result none registrations reserved h = absurd (cc)
validate_prefix-IsRegistrable type alias_id result (some prefix) registrations reserved h =
    let allowed =
      (passes_iff (is_among prefix core_alias_prefixes || is_among prefix reserved) _ _ result).0
        h in
    let kept = (passes_iff (differs prefix (prior_of type registrations)) _ _ result).0 allowed.1 in
    let free = (passes_iff (is_taken type prefix registrations) _ (ok prefix) result).0 kept.1 in
    let same : prefix ≡ result = cc (free.1) in
    subst (λ p. IsRegistrable type p registrations reserved) same
      (
        allowed.0,
        λ prior e. differs-some prefix prior (prior_of type registrations) e kept.0,
        λ own. HasOwnPrefixes-cons type prefix registrations free.0 own,
      )

-- If a prefix is returned for a type, it is neither a core prefix nor a reserved one, it is the one
-- that was registered for the type, if one was, and after its registration no two types have the
-- same prefix, if none had before.
pub validate_alias_registration-IsRegistrable :
    (semantic_type alias_id prefix : Text) (architecture_namespace : Option Text)
    (registrations : Registrations) (reserved : List Text)
    → validate_alias_registration semantic_type alias_id architecture_namespace registrations
        reserved
      ≡ ok prefix
    → IsRegistrable semantic_type prefix registrations reserved
unfolding validate_alias_registration
validate_alias_registration-IsRegistrable semantic_type alias_id prefix architecture_namespace
      registrations reserved h =
    let typed =
      Returns-bind (validate_extension_type semantic_type architecture_namespace entity none none) _
        h in
    validate_prefix-IsRegistrable semantic_type alias_id prefix
      (alias_prefix (split_once (codes "-") alias_id)) registrations reserved typed.2
