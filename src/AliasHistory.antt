-- ===== src/AliasHistory.antt =====
-- src/adr_kit/promotion/invariant_alias_history.py: the ledger of the aliases that were given up.
pub mod Validity
mod Tests
use adr_architecture_kit.Base.{
  ℕ, Option, none, some, List, [], ◌∷◌, map, Bool, true, false, not, ◌&&◌, eqb, if◌then◌else◌,
  Result, ok, raise, ◌>>=◌, ◌>>◌, Text, codes, is_digit, same_text, is_prefix, drop_prefix, fits,
  at_dollar,
}
use adr_architecture_kit.Identity.{is_among}
use adr_architecture_kit.IntegrityHeaders.{every}

-- A text, or a missing field or one of another type.
abbrev pub TextField : Type 0
TextField = Option Text

-- `permanently_consumed`
pub data Flag : Type 0 where
  absent_flag : Flag
  boolean_flag : Bool → Flag
  other_flag : Flag

pub record Entry : Type 0 where
  pub fields : List Text
  pub historical_alias : TextField
  pub disposition : TextField
  pub canonical_alias : TextField
  pub permanently_consumed : Flag

-- `entries` and the enrichment log, `false` for one that is no list.
pub record History : Type 0 where
  pub fields : List Text
  pub type : TextField
  pub entries : Option (List Entry)
  pub log_is_list : Bool

pub data HistoryError : Type 0 where
  unknown_fields : HistoryError
  no_schema_version : HistoryError
  wrong_type : HistoryError
  has_status : HistoryError
  entries_not_a_list : HistoryError
  unknown_entry_fields : HistoryError
  bad_historical_alias : HistoryError
  duplicate_alias : Text → HistoryError
  bad_disposition : HistoryError
  bad_canonical_alias : HistoryError
  flag_not_boolean : HistoryError
  log_not_a_list : HistoryError

abbrev pub digit_classes : List (ℕ → Bool)
digit_classes = is_digit ∷ is_digit ∷ is_digit ∷ is_digit ∷ []

-- _INV_ALIAS_RE.match; `$` also allows a last newline.
unfoldable pub matches_inv_alias : Text → Bool
matches_inv_alias text =
    is_prefix (codes "INV-") text && fits at_dollar digit_classes (drop_prefix (codes "INV-") text)

abbrev pub field_matches : (Text → Bool) → TextField → Bool
field_matches test none = false
field_matches test (some text) = test text

abbrev pub allowed_entry_fields : List Text
allowed_entry_fields = map codes (
    "historical_alias" ∷ "disposition" ∷ "canonical_alias" ∷ "retired_surface"
    ∷ "permanently_consumed" ∷ "conflict_provenance" ∷ "note" ∷ [])

abbrev pub allowed_top_fields : List Text
allowed_top_fields = map codes ("schema_version" ∷ "type" ∷ "entries" ∷ "enrichment_log" ∷ [])

abbrev pub dispositions : List Text
dispositions = map codes ("duplicate_of" ∷ "moved_to" ∷ "merged_into" ∷ [])

abbrev pub is_other_flag : Flag → Bool
is_other_flag other_flag = true
is_other_flag absent_flag = false
is_other_flag (boolean_flag b) = false

abbrev pub alias_text : TextField → Text
alias_text none = []
alias_text (some text) = text

-- The alias of an entry that is taken.
unfoldable pub validate_entry : List Text → Entry → Result HistoryError Text
unfolding matches_inv_alias
validate_entry seen entry =
    if not (every (λ name. is_among name allowed_entry_fields) entry.fields)
    then raise unknown_entry_fields
    else if not (field_matches matches_inv_alias entry.historical_alias)
    then raise bad_historical_alias
    else if is_among (alias_text entry.historical_alias) seen
    then raise (duplicate_alias (alias_text entry.historical_alias))
    else if not (field_matches (λ name. is_among name dispositions) entry.disposition)
    then raise bad_disposition
    else if not (field_matches matches_inv_alias entry.canonical_alias)
    then raise bad_canonical_alias
    else if is_other_flag entry.permanently_consumed
    then raise flag_not_boolean
    else ok (alias_text entry.historical_alias)

-- The loop; it gives the aliases in their order.
unfoldable pub validate_entries : List Text → List Entry → Result HistoryError (List Text)
unfolding validate_entry
validate_entries seen [] = ok []
validate_entries seen (entry ∷ entries) = validate_entry seen entry >>= λ alias.
    validate_entries (alias ∷ seen) entries >>= λ aliases. ok (alias ∷ aliases)

abbrev pub entries_of : Option (List Entry) → Result HistoryError (List Entry)
entries_of none = raise entries_not_a_list
entries_of (some entries) = ok entries

-- validate_invariant_alias_history, and the aliases that load_validated_historical_aliases returns:
-- the source returns the set of them; here they are listed in the order of the entries.
unfoldable pub load_validated_historical_aliases : History → Result HistoryError (List Text)
unfolding validate_entries
load_validated_historical_aliases doc =
    if not (every (λ name. is_among name allowed_top_fields) doc.fields)
    then raise unknown_fields
    else if not (is_among (codes "schema_version") doc.fields)
    then raise no_schema_version
    else if not (field_matches (λ type. same_text type (codes "invariant_alias_history")) doc.type)
    then raise wrong_type
    else if is_among (codes "status") doc.fields
    then raise has_status
    else (entries_of doc.entries >>= λ entries. validate_entries [] entries >>= λ aliases.
        if not doc.log_is_list then raise log_not_a_list else ok aliases)
