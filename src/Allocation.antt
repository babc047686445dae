-- ===== src/Allocation.antt =====
-- src/adr_kit/promotion/allocation.py: the next DEC and INV ids of a promotion.
mod Fresh
mod Tests
use Prim.Native.String
use Prim.Native.String.{slice, len}
use text.Mathlib.Text.{starts_with, find?}
use adr_architecture_kit.Base.{
  ℕ, zero, suc, ◌+◌, ◌-◌, ◌*◌, String, Option, none, some, List, [], ◌∷◌, Bool, true, false, not,
  ◌&&◌, ◌||◌, ◌==◌, ltb, leb, eqb, if◌then◌else◌, Result, ok, raise, ◌>>=◌, any, contains, format,
  decimal, padded, characters,
}

pub record AdrIdAllocationBands : Type 0 where
  pub normal_start : ℕ
  pub normal_end : ℕ
  pub reserved_start : ℕ
  pub reserved_end : ℕ

-- The default values of the fields.
abbrev pub default_bands : AdrIdAllocationBands
default_bands = record {
  normal_start = 1;
  normal_end = 8999;
  reserved_start = 9000;
  reserved_end = 9999;
}

abbrev pub candidate : String → ℕ → String
candidate prefix number = format (prefix ∷ padded number ∷ [])

-- int(text) of four ASCII digits, as `\d{4}` finds them; `$` also allows a last newline.
unfoldable pub four_digits : List String → Option ℕ
four_digits (a ∷ b ∷ c ∷ d ∷ rest) =
    if rest_is_end rest then join (digit_of a) (digit_of b) (digit_of c) (digit_of d) else none
  where
    digit_of : String → Option ℕ
    digit_of text = find? "0123456789" text

    rest_is_end : List String → Bool
    rest_is_end [] = true
    rest_is_end (text ∷ []) = text == "\n"
    rest_is_end _ = false

    join : Option ℕ → Option ℕ → Option ℕ → Option ℕ → Option ℕ
    join (some w) (some x) (some y) (some z) = some (w * 1000 + x * 100 + y * 10 + z)
    join _ _ _ _ = none
four_digits _ = none

unfoldable pub id_number : String → Option ℕ
unfolding four_digits
id_number item =
    if starts_with item "DEC-" || starts_with item "INV-"
    then four_digits (characters (slice item 4 (len item)))
    else none

abbrev pub is_number : ℕ → Option ℕ → Bool
is_number number none = false
is_number number (some other) = eqb other number

-- number in occupied
unfoldable pub is_occupied : List String → ℕ → Bool
unfolding id_number
is_occupied used number = any (λ item. is_number number (id_number item)) used

-- The loop's body returns this number.
unfoldable pub is_free : AdrIdAllocationBands → List String → String → ℕ → Bool
unfolding is_occupied
is_free bands used prefix number =
    not (is_occupied used number)
    && not (leb bands.reserved_start number && leb number bands.reserved_end)
    && not (contains (candidate prefix number) used)

pub data AllocationError : Type 0 where
  band_exhausted : String → AllocationError

-- for number in range(number, number + remaining)
unfoldable pub first_free :
    AdrIdAllocationBands → List String → String → ℕ → ℕ → Result AllocationError String
unfolding is_free
first_free bands used prefix number zero = raise (band_exhausted prefix)
first_free bands used prefix number (suc remaining) =
    let rest = first_free bands used prefix (number + 1) remaining in
    if is_free bands used prefix number then ok (candidate prefix number) else rest

unfoldable pub next_normal_band :
    List String → String → AdrIdAllocationBands → Result AllocationError String
unfolding first_free
next_normal_band used prefix bands =
    first_free bands used prefix bands.normal_start (bands.normal_end + 1 - bands.normal_start)

-- `count` rounds of the loop that allocates an id, adds it to `used` and to the list.
unfoldable pub allocate : ℕ → List String → String → Result AllocationError (List String)
unfolding next_normal_band
allocate zero used prefix = ok []
allocate (suc count) used prefix = next_normal_band used prefix default_bands >>= λ allocated.
    allocate count (allocated ∷ used) prefix >>= λ ids. ok (allocated ∷ ids)

-- `used_dec` and `used_inv` are what `_scan_ids` found in the project.
unfoldable pub allocate_child_ids :
    List String → List String → ℕ → ℕ → Result AllocationError (List String × List String)
unfolding allocate
allocate_child_ids used_dec used_inv dec_count inv_count =
    allocate dec_count used_dec "DEC-" >>= λ decs.
    allocate inv_count used_inv "INV-" >>= λ invs. ok (decs, invs)
