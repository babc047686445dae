-- ===== src/AdrNumbers/Tests.antt =====
-- The next id at concrete documents.
use adr_architecture_kit.Base.{ℕ, String, none, some, List, [], ◌∷◌, ◌≡◌, refl, ok, Text, codes}
use adr_architecture_kit.AdrNumbers.{
  AdrFile, document, StateFile, missing, allocation, four_digits_at, sequence_of, four_digits_text,
  load_allocation_high_water, save_allocation_high_water, highest_after, effective_allocation_alias,
  scan_alias, scan_file, scan_files, next_id,
}
use adr_architecture_kit.AdrNumbers.Order.{IsNext, next_id-IsNext}
use adr_architecture_kit.AdrNumbers.History.{next_ids, AreDistinct, next_ids-AreDistinct}

-- str.strip of the samples.
abbrev keep : Text → Text
keep text = text

abbrev sample_files : List AdrFile
sample_files =
    document (record { alias_id = some (codes "ADR-L-0004"); declared_id = none })
    ∷ document (record { alias_id = none; declared_id = some (codes "ADR-L-0002-draft") })
    ∷ []

abbrev sample_next : Text × StateFile
sample_next = (codes "ADR-L-0005", allocation (("logical", some 5) ∷ []))

sample_run : next_id keep "logical" sample_files missing ≡ ok sample_next
unfolding next_id load_allocation_high_water save_allocation_high_water scan_files scan_file
    scan_alias effective_allocation_alias highest_after sequence_of four_digits_at four_digits_text
sample_run = refl

next_id-IsNext_example :
    (prefix : Text) × (mark : ℕ) × (n : ℕ) × IsNext keep "logical" sample_files missing sample_next
      prefix mark n
next_id-IsNext_example = next_id-IsNext keep "logical" sample_files missing sample_next sample_run

abbrev sample_calls : List (String × List AdrFile)
sample_calls = ("logical", sample_files) ∷ ("physical-system", []) ∷ ("logical", []) ∷ []

next_ids_lem :
    next_ids keep sample_calls missing
    ≡ ("logical", codes "ADR-L-0005")
      ∷ ("physical-system", codes "ADR-PS-0001")
      ∷ ("logical", codes "ADR-L-0006")
      ∷ []
unfolding next_ids next_id load_allocation_high_water save_allocation_high_water scan_files
    scan_file scan_alias effective_allocation_alias highest_after sequence_of four_digits_at
    four_digits_text
next_ids_lem = refl

next_ids-AreDistinct_example : AreDistinct keep (next_ids keep sample_calls missing)
next_ids-AreDistinct_example = next_ids-AreDistinct keep sample_calls missing
