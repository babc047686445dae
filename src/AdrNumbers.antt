-- ===== src/AdrNumbers.antt =====
-- src/adr_kit/repository/architecture_repository.py: `next_id`, the next id of an ADR, and the
-- high-water marks that it keeps in a file.
pub mod Order
mod History
mod Tests
use adr_architecture_kit.Base.{
  ℕ, ◌+◌, ◌-◌, ◌*◌, ◌/◌, ◌%◌, String, Option, none, some, List, [], ◌∷◌, ◌++◌, Bool, true, false,
  ◌&&◌, ◌==◌, ltb, leb, if◌then◌else◌, Result, ok, raise, ◌>>=◌, any, item_of, put, Text, codes,
  is_digit, same_text, is_prefix, drop_prefix,
}
use adr_architecture_kit.Allocation.{default_bands}

-- What `next_id` reads of a document, if its file can be read.
pub record Header : Type 0 where
  pub alias_id : Option Text
  pub declared_id : Option Text

pub data AdrFile : Type 0 where
  unreadable_document : AdrFile
  document : Header → AdrFile

-- .adr-id-allocation.yaml: the marks by type, `none` for a value that is no integer. A mark is not
-- negative.
pub data StateFile : Type 0 where
  missing : StateFile
  unreadable : StateFile
  allocation : List (String × Option ℕ) → StateFile

pub data RegistryError : Type 0 where
  unsupported_type : String → RegistryError
  unread_header : RegistryError
  duplicate_id : Text → RegistryError
  numbers_exhausted : String → RegistryError
  unread_state : RegistryError
  invalid_state : String → RegistryError

-- _ADR_TYPE_PATTERNS, the prefixes
abbrev pub type_prefixes : List (String × Text)
type_prefixes =
    ("logical", codes "ADR-L-")
    ∷ ("physical-system", codes "ADR-PS-")
    ∷ ("physical-component", codes "ADR-PC-")
    ∷ []

abbrev pub max : ℕ → ℕ → ℕ
max a b = if ltb a b then b else a

-- int of (\d{4}) at the start of the text, of ASCII digits
unfoldable pub four_digits_at : Text → Option ℕ
four_digits_at (a ∷ b ∷ c ∷ d ∷ text) =
    if is_digit a && is_digit b && is_digit c && is_digit d
    then some ((a - 48) * 1000 + (b - 48) * 100 + (c - 48) * 10 + (d - 48))
    else none
four_digits_at _ = none

-- int(pattern.match(text).group(1)), if the pattern of the prefix matches
unfoldable pub sequence_of : Text → Text → Option ℕ
unfolding four_digits_at
sequence_of prefix text =
    if is_prefix prefix text then four_digits_at (drop_prefix prefix text) else none

-- f"{n:04d}" of a number below 10000
unfoldable pub four_digits_text : ℕ → Text
four_digits_text n = (48 + n / 1000) ∷ (48 + n / 100 % 10) ∷ (48 + n / 10 % 10) ∷ (48 + n % 10) ∷ []

abbrev pub if_matches : Text → Text → Option Text
if_matches prefix text = elim (sequence_of prefix text) [ none ↦ none | some n ↦ some text ]

abbrev pub nonblank : Text → Option Text
nonblank [] = none
nonblank (c ∷ text) = some (c ∷ text)

-- `load` and `save` of the mark of one type.
unfoldable pub load_allocation_high_water : String → StateFile → Result RegistryError ℕ
load_allocation_high_water adr_type missing = ok 0
load_allocation_high_water adr_type unreadable = raise unread_state
load_allocation_high_water adr_type (allocation marks) = elim (item_of adr_type marks) [
  | none ↦ ok 0
  | some none ↦ raise (invalid_state adr_type)
  | some (some value) ↦ ok value
]

unfoldable pub save_allocation_high_water : String → ℕ → StateFile → Result RegistryError StateFile
save_allocation_high_water adr_type high_water missing =
    ok (allocation ((adr_type, some high_water) ∷ []))
save_allocation_high_water adr_type high_water unreadable = raise unread_state
save_allocation_high_water adr_type high_water (allocation marks) = elim (item_of adr_type marks) [
  | none ↦ ok (allocation (put adr_type (some (max 0 high_water)) marks))
  | some none ↦ raise (invalid_state adr_type)
  | some (some existing) ↦ ok (allocation (put adr_type (some (max existing high_water)) marks))
]

-- `seen_ids` and `highest`
abbrev pub Scan : Type 0
Scan = List Text × ℕ

-- The highest number after one more in the normal band.
unfoldable pub highest_after : Option ℕ → ℕ → ℕ
highest_after none highest = highest
highest_after (some n) highest =
    if leb default_bands.normal_start n && leb n default_bands.normal_end
    then max highest n
    else highest

abbrev pub prefix_of : String → Result RegistryError Text
prefix_of adr_type = elim (item_of adr_type type_prefixes) [
  | none ↦ raise (unsupported_type adr_type)
  | some prefix ↦ ok prefix
]

-- `strip` is str.strip.
module _ (strip : Text → Text) where
  abbrev pub given_alias : Option Text → Option Text
  given_alias none = none
  given_alias (some alias_id) = nonblank (strip alias_id)

  abbrev pub declared : Text → Option Text → Option Text
  declared prefix none = none
  declared prefix (some id) = if_matches prefix id

  unfoldable pub effective_allocation_alias : Text → Header → Option Text
  unfolding sequence_of
  effective_allocation_alias prefix header = elim (given_alias header.alias_id) [
    | some candidate ↦ if_matches prefix candidate
    | none ↦ declared prefix header.declared_id
  ]

  unfoldable pub scan_alias : Text → Option Text → Scan → Result RegistryError Scan
  unfolding highest_after sequence_of
  scan_alias prefix none scan = ok scan
  scan_alias prefix (some alias) scan =
      if any (λ other. same_text other alias) scan.0
      then raise (duplicate_id alias)
      else ok (alias ∷ scan.0, highest_after (sequence_of prefix alias) scan.1)

  unfoldable pub scan_file : Text → AdrFile → Scan → Result RegistryError Scan
  unfolding scan_alias effective_allocation_alias
  scan_file prefix unreadable_document scan = raise unread_header
  scan_file prefix (document header) scan =
      scan_alias prefix (effective_allocation_alias prefix header) scan

  -- `files` are those of the type's directory, in the order of their paths.
  unfoldable pub scan_files : Text → List AdrFile → Scan → Result RegistryError Scan
  unfolding scan_file
  scan_files prefix [] scan = ok scan
  scan_files prefix (file ∷ files) scan =
      scan_file prefix file scan >>= λ next. scan_files prefix files next

  unfoldable pub next_id :
      String → List AdrFile → StateFile → Result RegistryError (Text × StateFile)
  unfolding load_allocation_high_water scan_files save_allocation_high_water four_digits_text
  next_id adr_type files state = prefix_of adr_type >>= λ prefix.
      load_allocation_high_water adr_type state >>= λ mark.
      scan_files prefix files ([], mark) >>= λ scan.
      if ltb default_bands.normal_end (scan.1 + 1)
      then raise (numbers_exhausted adr_type)
      else (save_allocation_high_water adr_type (scan.1 + 1) state >>= λ next.
          ok (prefix ++ four_digits_text (scan.1 + 1), next))
