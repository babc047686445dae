-- ===== src/SemanticExtensions/Grammar.antt =====
-- src/adr_kit/semantic_extensions.py: which extension types are taken.
use adr_architecture_kit.Base.{
  ℕ, Option, none, some, List, [], ◌∷◌, ◌++◌, true, false, not, ◌&&◌, ◌≡◌, refl, ap, ◌∙◌, subst,
  ◌↔◌, inl, inr, arith, eqb, Bool-cases, Option-cases, ok, passes_iff, Text, codes,
}
use adr_architecture_kit.Identity.{split_once, all_in, is_among}
use adr_architecture_kit.Identity.Uri.{split_once-eq-append}
use adr_architecture_kit.SemanticExtensions.{
  is_namespace_character, matches_namespace, matches_local, matching_parts, extension_parts, Kind,
  reserved_types, is_other, validate_parts, validate_extension_type,
}

-- The first separator is the one after a text without it.
pub split_once-separator :
    (stop : ℕ) (front back : Text)
    → all_in (λ c. not (eqb stop c)) front ≡ true
    → split_once (stop ∷ []) (front ++ (stop ∷ back)) ≡ some (front, back)
unfolding split_once
split_once-separator stop [] back h =
    let same : eqb stop stop ≡ true = ground arith in rw (same) refl
split_once-separator stop (c ∷ front) back h =
    let rest = split_once-separator stop front back (ground arith) in
    let other : eqb stop c ≡ false = ground arith in rw (other, rest) refl

no_colon :
    (text : Text)
    → all_in is_namespace_character text ≡ true
    → all_in (λ c. not (eqb 58 c)) text ≡ true
no_colon [] h = refl
no_colon (c ∷ text) h = ground (arith, no_colon text)

namespace-no_colon :
    (text : Text) → matches_namespace text ≡ true → all_in (λ c. not (eqb 58 c)) text ≡ true
namespace-no_colon [] h = absurd (cc)
namespace-no_colon (c ∷ text) h = ground (arith, no_colon text)

-- A namespace, a colon and a local type.
abbrev pub IsQualified : Text → Text × Text → Type 0
IsQualified value parts =
    (value ≡ parts.0 ++ (58 ∷ parts.1))
    × (matches_namespace parts.0 ≡ true)
    × (matches_local parts.1 ≡ true)

extension_parts_iff :
    (value : Text) (parts : Text × Text)
    → (extension_parts value ≡ some parts) ↔ IsQualified value parts
unfolding extension_parts
extension_parts_iff value parts = (
  λ h. elim (Option-cases (split_once (codes ":") value)) [
    | inl e ↦ absurd (cc (rw (e, extension_parts) at h))
    | inr e ↦
        let checked = rw (e.1, extension_parts) at h in
        let found = matched e.0 parts checked in
        (split_once-eq-append (58 ∷ []) value parts (e.1 ∙ ap some found.0), found.1, found.2)
  ],
  λ h.
      ap (λ v. matching_parts (split_once (58 ∷ []) v)) h.0
      ∙ (rw (split_once-separator 58 parts.0 parts.1 (namespace-no_colon parts.0 h.1))
          (rw (h.1, h.2) refl)),
)
  where
    matched :
        (found parts : Text × Text)
        → matching_parts (some found) ≡ some parts
        → (found ≡ parts) × (matches_namespace parts.0 ≡ true) × (matches_local parts.1 ≡ true)
    matched found parts h = elim (Bool-cases (matches_namespace found.0 && matches_local found.1)) [
      | inl e ↦
          let same : found ≡ parts = cc (rw (e) at h) in
          (
            same,
            subst (λ (p : Text × Text). matches_namespace p.0 ≡ true) same (ground arith),
            subst (λ (p : Text × Text). matches_local p.1 ≡ true) same (ground arith),
          )
      | inr e ↦ absurd (cc (rw (e) at h))
    ]

validate_parts_iff :
    (value result : Text) (found : Option (Text × Text)) (wanted : Option Text)
    (reserved : List Text)
    → (validate_parts value found wanted reserved ≡ ok result) ↔ (
        (value ≡ result)
        × ((parts : Text × Text) × (found ≡ some parts)
            × (is_other parts.0 wanted ≡ false)
            × (is_among parts.1 reserved ≡ false)))
unfolding validate_parts
validate_parts_iff value result none wanted reserved = (λ h. absurd (cc), λ h. absurd (cc (h.1.1)))
validate_parts_iff value result (some parts) wanted reserved =
    let own = passes_iff (is_other parts.0 wanted) _ _ result in
    let free = passes_iff (is_among parts.1 reserved) _ (ok value) result in
    (
      λ h.
          let first = own.0 h in
          let second = free.0 first.1 in (cc (second.1), (parts, refl, first.0, second.0)),
      λ h.
          let same : h.1.0 ≡ parts = cc (h.1.1) in
          own.1 (
            subst (λ (p : Text × Text). is_other p.0 wanted ≡ false) same h.1.2,
            free.1
                (subst (λ (p : Text × Text). is_among p.1 reserved ≡ false) same h.1.3, ap ok h.0),
          ),
    )

-- A type is returned, and unchanged, exactly if it is a namespace, a colon and a local type, the
-- namespace the wanted one if one is wanted, and the local type not a reserved one.
pub validate_extension_type-IsQualified :
    (value result : Text) (architecture_namespace : Option Text) (kind : Kind)
    (authoring_version model_version : Option Text)
    → (validate_extension_type value architecture_namespace kind authoring_version model_version
        ≡ ok result)
      ↔ ((value ≡ result)
          × ((parts : Text × Text) × IsQualified value parts
              × (is_other parts.0 architecture_namespace ≡ false)
              × (is_among parts.1 (reserved_types kind authoring_version model_version) ≡ false)))
unfolding validate_extension_type
validate_extension_type-IsQualified value result architecture_namespace kind authoring_version
      model_version =
    let reserved = reserved_types kind authoring_version model_version in
    let whole =
      validate_parts_iff value result (extension_parts value) architecture_namespace reserved in
    (
      λ h.
          let checked = whole.0 h in
          (
            checked.0,
            (
              checked.1.0,
              (extension_parts_iff value checked.1.0).0 checked.1.1,
              checked.1.2,
              checked.1.3,
            ),
          ),
      λ h. whole.1 (h.0, (h.1.0, (extension_parts_iff value h.1.0).1 h.1.1, h.1.2, h.1.3)),
    )
