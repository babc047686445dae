-- ===== src/IntegrityHeaders/Tests.antt =====
-- A header at concrete fields.
use adr_architecture_kit.Base.{some, [], ◌∷◌, ◌++◌, ◌≡◌, refl, ok, Text, codes}
use adr_architecture_kit.IntegrityHeaders.{
  Fields, ordered_header_lines, comment_lines, build_yaml_header, parse_integrity_header,
}
use adr_architecture_kit.IntegrityHeaders.YamlHeader.{
  in_header_order, parse_integrity_header-build_yaml_header, has_no_break-IsLine,
}

abbrev sample_fields : Fields
sample_fields =
    (codes "generated", codes "deterministic_projection_v1")
    ∷ (codes "integrity_schema_version", codes "1")
    ∷ (codes "artifact_kind", codes "manifest")
    ∷ (codes "generator_id", codes "adr-kit")
    ∷ (codes "generator_version", codes "12")
    ∷ (codes "hash_algorithm", codes "sha256")
    ∷ (codes "source_hash", codes "ab12")
    ∷ (codes "rendered_hash", codes "cd34")
    ∷ []

abbrev sample_text : Text
sample_text =
    codes
      "# integrity_schema_version: 1\n# generated: deterministic_projection_v1\n# artifact_kind: manifest\n# generator_id: adr-kit\n# generator_version: 12\n# hash_algorithm: sha256\n# source_hash: ab12\n# rendered_hash: cd34\n\n"

sample_built : build_yaml_header sample_fields ≡ ok sample_text
unfolding build_yaml_header ordered_header_lines comment_lines
sample_built = refl

parse_integrity_header-build_yaml_header_example :
    parse_integrity_header (sample_text ++ codes "version: 1\n") (some (codes "manifest"))
    ≡ ok (in_header_order sample_fields)
parse_integrity_header-build_yaml_header_example =
    parse_integrity_header-build_yaml_header sample_fields (some (codes "manifest")) sample_text
      (codes "version: 1\n") sample_built
      (
        has_no_break-IsLine (codes "1") refl,
        (
          has_no_break-IsLine (codes "deterministic_projection_v1") refl,
          (
            has_no_break-IsLine (codes "manifest") refl,
            (
              has_no_break-IsLine (codes "adr-kit") refl,
              (
                has_no_break-IsLine (codes "12") refl,
                (
                  has_no_break-IsLine (codes "sha256") refl,
                  (
                    has_no_break-IsLine (codes "ab12") refl,
                    (has_no_break-IsLine (codes "cd34") refl, tt),
                  ),
                ),
              ),
            ),
          ),
        ),
      )
      (refl, refl, refl, refl, refl, refl)
