-- ===== src/Allocation/Tests.antt =====
-- Allocations at small sets of used ids.
use adr_architecture_kit.Base.{
  padded, String, List, [], ◌∷◌, true, ◌≡◌, refl, ok, is_ok, decimal, digits, digit, characters,
  arith,
}
use adr_architecture_kit.Allocation.{
  AdrIdAllocationBands, four_digits, id_number, is_free, is_occupied, first_free, next_normal_band,
  allocate, allocate_child_ids,
}
use adr_architecture_kit.Allocation.Fresh.{
  IsLeastFree, AreFresh, next_normal_band-IsLeastFree, next_normal_band-ok,
  allocate_child_ids-AreFresh,
}

abbrev small_bands : AdrIdAllocationBands
small_bands = record { normal_start = 1; normal_end = 5; reserved_start = 2; reserved_end = 2 }

abbrev used_decisions : List String
used_decisions = "DEC-0001" ∷ "DEC-0003" ∷ []

fourth : next_normal_band used_decisions "DEC-" small_bands ≡ ok "DEC-0004"
unfolding next_normal_band first_free is_free is_occupied id_number four_digits characters padded
    decimal digits digit
fourth = refl

is_free_5 : is_free small_bands used_decisions "DEC-" 5 ≡ true
unfolding is_free is_occupied id_number four_digits characters padded decimal digits digit
is_free_5 = refl

allocated : allocate_child_ids used_decisions [] 1 1 ≡ ok ("DEC-0002" ∷ [], "INV-0001" ∷ [])
unfolding allocate_child_ids allocate next_normal_band first_free is_free is_occupied id_number
    four_digits characters padded decimal digits digit
allocated = refl

next_normal_band-IsLeastFree_example : IsLeastFree small_bands used_decisions "DEC-" 1 6 "DEC-0004"
next_normal_band-IsLeastFree_example =
    next_normal_band-IsLeastFree used_decisions "DEC-" small_bands "DEC-0004" fourth

next_normal_band-ok_example : is_ok (next_normal_band used_decisions "DEC-" small_bands) ≡ true
next_normal_band-ok_example =
    next_normal_band-ok used_decisions "DEC-" small_bands 5 (ground arith) (ground arith) is_free_5

allocate_child_ids-AreFresh_example :
    AreFresh used_decisions 1 ("DEC-0002" ∷ []) × AreFresh [] 1 ("INV-0001" ∷ [])
allocate_child_ids-AreFresh_example =
    allocate_child_ids-AreFresh used_decisions [] 1 1 ("DEC-0002" ∷ []) ("INV-0001" ∷ []) allocated
