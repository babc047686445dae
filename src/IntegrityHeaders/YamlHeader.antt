-- ===== src/IntegrityHeaders/YamlHeader.antt =====
-- src/adr_kit/integrity/core.py: a YAML header is parsed as it was built.
use adr_architecture_kit.Base.{
  ℕ, Option, List, [], ◌∷◌, ◌++◌, map, Bool, true, false, not, ◌≡◌, refl, sym, ap, ◌∙◌, ok,
  passes_iff, Returns-bind, arith, eqb, length, All, All-map, All-append, append_assoc, Text, codes,
  same_text,
}
use adr_architecture_kit.Identity.{split_once, is_among, all_in}
use adr_architecture_kit.IntegrityHeaders.{
  Fields, header_field_order, field, header_line, ordered_header_lines, comment_lines,
  build_yaml_header, is_break, attach, lines_from, marked_lines, found_lines, raw_lines, parse_line,
  parse_lines, kinds, contradicts, is_digits, check_fields, parse_integrity_header,
}

-- A text without an end of a line.
abbrev pub IsLine : Text → Type 0
IsLine text = All (λ c. is_break c ≡ false) text

lines_from-line :
    (line rest : Text)
    → IsLine line
    → lines_from false (line ++ (10 ∷ rest)) ≡ line ∷ lines_from false rest
unfolding lines_from
lines_from-line [] rest h = refl
lines_from-line (c ∷ line) rest h = rw (h.0) (ap (attach c) (lines_from-line line rest h.1))

marked_lines-comment_lines :
    (lines : List Text) (body : Text)
    → All IsLine lines
    → marked_lines (lines_from false (comment_lines lines (10 ∷ body))) ≡ lines
unfolding marked_lines lines_from comment_lines
marked_lines-comment_lines [] body h = refl
marked_lines-comment_lines (line ∷ lines) body h =
    ap marked_lines
      (lines_from-line (35 ∷ 32 ∷ line) (comment_lines lines (10 ∷ body)) (refl, (refl, h.0)))
    ∙ ap (λ rest. line ∷ rest) (marked_lines-comment_lines lines body h.1)

comment_lines-append :
    (lines : List Text) (end body : Text)
    → comment_lines lines end ++ body ≡ comment_lines lines (end ++ body)
unfolding comment_lines
comment_lines-append [] end body = refl
comment_lines-append (line ∷ lines) end body =
    ap (λ t. 35 ∷ 32 ∷ t)
      (append_assoc line (10 ∷ comment_lines lines end) body
        ∙ ap (λ t. line ++ (10 ∷ t)) (comment_lines-append lines end body))

-- The fields in the order of the header.
abbrev pub in_header_order : Fields → Fields
in_header_order fields = map (λ key. (key, field key fields)) header_field_order

parse_lines-header_line :
    (fields : Fields)
    → parse_lines header_field_order (map (header_line fields) header_field_order) []
      ≡ ok (in_header_order fields)
unfolding parse_lines parse_line split_once
parse_lines-header_line fields = refl

all_in-All :
    (test : ℕ → Bool) (text : Text) → all_in test text ≡ true → All (λ c. test c ≡ true) text
all_in-All test [] h = tt
all_in-All test (c ∷ text) h = (ground arith, all_in-All test text (ground arith))

-- A constant text without an end of a line.
abbrev pub has_no_break : Text → Bool
has_no_break text = all_in (λ c. not (is_break c)) text

pub has_no_break-IsLine : (text : Text) → has_no_break text ≡ true → IsLine text
has_no_break-IsLine text h =
    All-map text (λ c k. ground arith) (all_in-All (λ c. not (is_break c)) text h)

header_line-IsLine :
    (fields : Fields) (order : List Text)
    → All (λ key. has_no_break key ≡ true) order
    → All (λ key. IsLine (field key fields)) order
    → All IsLine (map (header_line fields) order)
header_line-IsLine fields [] h k = tt
header_line-IsLine fields (key ∷ order) h k = (
  All-append _ key _ (has_no_break-IsLine key h.0) (refl, (refl, k.0)),
  header_line-IsLine fields order h.1 k.1,
)

-- What the parser wants of the values.
abbrev pub IsValidHeader : Option Text → Fields → Type 0
IsValidHeader hint fields =
    (same_text (field (codes "integrity_schema_version") fields) (codes "1") ≡ true)
    × (same_text (field (codes "generated") fields) (codes "deterministic_projection_v1") ≡ true)
    × (same_text (field (codes "hash_algorithm") fields) (codes "sha256") ≡ true)
    × (contradicts hint (field (codes "artifact_kind") fields) ≡ false)
    × (is_among (field (codes "artifact_kind") fields) kinds ≡ true)
    × (is_digits (field (codes "generator_version") fields) ≡ true)

check_fields-IsValidHeader :
    (hint : Option Text) (fields : Fields)
    → IsValidHeader hint fields
    → check_fields hint (in_header_order fields) ≡ ok (in_header_order fields)
unfolding check_fields
check_fields-IsValidHeader hint fields h = rw (h.0, h.1, h.2, h.3, h.4, h.5) refl

ordered-match :
    (fields : Fields) (lines : List Text)
    → ordered_header_lines fields ≡ ok lines
    → map (header_line fields) header_field_order ≡ lines
unfolding ordered_header_lines
ordered-match fields lines h = let kept = (passes_iff _ _ (ok _) lines).0 h in cc (kept.1)

raw_lines-comment_lines :
    (line : Text) (lines : List Text) (body : Text)
    → All IsLine (line ∷ lines)
    → raw_lines (comment_lines (line ∷ lines) (10 ∷ body)) ≡ ok (line ∷ lines)
unfolding raw_lines comment_lines
raw_lines-comment_lines line lines body h =
    ap found_lines (marked_lines-comment_lines (line ∷ lines) body h)

parsed-ok :
    (text : Text) (hint : Option Text) (lines : List Text) (parsed : Fields)
    → raw_lines text ≡ ok lines
    → eqb (length lines) (length header_field_order) ≡ true
    → parse_lines header_field_order lines [] ≡ ok parsed
    → check_fields hint parsed ≡ ok parsed
    → parse_integrity_header text hint ≡ ok parsed
unfolding parse_integrity_header
parsed-ok text hint lines parsed raw count read valid = rw (raw, count, read) valid

-- If a YAML header is built of valid values, none with an end of a line in it, then from the header
-- with any body after it the parser returns its fields in their order.
pub parse_integrity_header-build_yaml_header :
    (fields : Fields) (hint : Option Text) (text body : Text)
    → build_yaml_header fields ≡ ok text
    → All (λ key. IsLine (field key fields)) header_field_order
    → IsValidHeader hint fields
    → parse_integrity_header (text ++ body) hint ≡ ok (in_header_order fields)
unfolding build_yaml_header
parse_integrity_header-build_yaml_header fields hint text body h values_h valid =
    let built = Returns-bind (ordered_header_lines fields) _ h in
    let lines = map (header_line fields) header_field_order in
    let same : lines ≡ built.0 = ordered-match fields built.0 built.1 in
    let whole : comment_lines lines (10 ∷ []) ≡ text =
      ap (λ l. comment_lines l (10 ∷ [])) same ∙ cc (built.2) in
    let shape = ap (λ t. t ++ body) (sym whole) ∙ comment_lines-append lines (10 ∷ []) body in
    let are_lines =
      header_line-IsLine fields header_field_order
        (refl, (refl, (refl, (refl, (refl, (refl, (refl, (refl, tt)))))))) values_h in
    parsed-ok (text ++ body) hint lines (in_header_order fields)
      (ap raw_lines shape ∙ raw_lines-comment_lines _ _ body are_lines) refl
      (parse_lines-header_line fields) (check_fields-IsValidHeader hint fields valid)
