-- ===== src/SemanticExtensions/Tests.antt =====
-- Extension types and registrations at concrete texts.
use adr_architecture_kit.Base.{none, some, [], ◌∷◌, false, ◌≡◌, refl, ◌↔◌, ok, Text, codes}
use adr_architecture_kit.Identity.{split_once, is_among}
use adr_architecture_kit.SemanticExtensions.{
  entity, is_other, Registrations, reserved_types, extension_parts, validate_parts,
  validate_extension_type, validate_prefix, validate_alias_registration,
}
use adr_architecture_kit.SemanticExtensions.Grammar.{
  IsQualified, validate_extension_type-IsQualified,
}
use adr_architecture_kit.SemanticExtensions.Registrations.{
  IsRegistrable, validate_alias_registration-IsRegistrable,
}

validate_extension_type-IsQualified_example :
    (validate_extension_type (codes "acme:risk") (some (codes "acme")) entity none none
      ≡ ok (codes "acme:risk"))
    ↔ ((◌≡◌ {A = Text} (codes "acme:risk") (codes "acme:risk"))
        × ((parts : Text × Text) × IsQualified (codes "acme:risk") parts
            × (is_other parts.0 (some (codes "acme")) ≡ false)
            × (is_among parts.1 (reserved_types entity none none) ≡ false)))
validate_extension_type-IsQualified_example =
    validate_extension_type-IsQualified (codes "acme:risk") (codes "acme:risk")
      (some (codes "acme")) entity none none

abbrev sample_registrations : Registrations
sample_registrations = (codes "acme:control", codes "CTRL") ∷ []

sample_registered :
    validate_alias_registration
      (codes "acme:risk")
      (codes "RISK-0001")
      (some (codes "acme"))
      sample_registrations
      []
    ≡ ok (codes "RISK")
unfolding validate_alias_registration validate_extension_type validate_parts extension_parts
    reserved_types validate_prefix split_once
sample_registered = refl

validate_alias_registration-IsRegistrable_example :
    IsRegistrable (codes "acme:risk") (codes "RISK") sample_registrations []
validate_alias_registration-IsRegistrable_example =
    validate_alias_registration-IsRegistrable (codes "acme:risk") (codes "RISK-0001") (codes "RISK")
      (some (codes "acme")) sample_registrations [] sample_registered
