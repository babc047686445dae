-- ===== src/Base/Format.antt =====
-- Texts as Python's f-strings and string methods build them.
use Prim.Native.Nat.{ℕ, zero, suc, ◌+◌, ◌/◌, ◌%◌}
use Prim.Native.Char.{Char}
use Prim.Native.String.{String, slice}
use Prim.Native.String
use mathlib.Core.List.{List, [], ◌∷◌}
use text.Mathlib.Text.{◌==◌, starts_with}
use adr_architecture_kit.Base.Tests.{if◌then◌else◌, ltb}
use adr_architecture_kit.Base.Lists.{contains}
use adr_architecture_kit.Base.Sorting.{sort_by}

-- f"{a}{b}...": the parts one after the other
abbrev pub format : List String → String
format [] = ""
format (part ∷ parts) = String.◌++◌ part (format parts)

unfoldable pub digit : ℕ → String
digit n = slice "0123456789" n (n + 1)

-- The number below is cut to its last `fuel` digits: `n + 1` of them are enough.
unfoldable pub digits : ℕ → ℕ → String
unfolding digit
digits zero n = ""
digits (suc fuel) n =
    let front = digits fuel (n / 10) in
    if ltb n 10 then digit n else String.◌++◌ front (digit (n % 10))

-- str(n)
unfoldable pub decimal : ℕ → String
unfolding digits
decimal n = digits (n + 1) n

-- f"{number:04d}"
unfoldable pub padded : ℕ → String
unfolding decimal
padded number =
    let zeros =
      if ltb number 10
      then "000"
      else if ltb number 100
      then "00"
      else if ltb number 1000
      then "0"
      else "" in
    format (zeros ∷ decimal number ∷ [])

-- `value.split(stop)[0]` for a separator of one character
unfoldable pub before : Char → String → String
before stop String.[] = ""
before stop (String.◌∷◌ c s) =
    let rest = before stop s in
    if String.◌∷◌ c String.[] == String.◌∷◌ stop String.[] then "" else String.◌∷◌ c rest

-- list(value)
unfoldable pub characters : String → List String
characters String.[] = []
characters (String.◌∷◌ c s) = String.◌∷◌ c String.[] ∷ characters s

-- `skip` characters of an occurrence are left over; `width` is the length of the pattern less 1.
unfoldable pub removing : String → ℕ → ℕ → String → String
removing pattern width skip String.[] = ""
removing pattern width (suc skip) (String.◌∷◌ c s) = removing pattern width skip s
removing pattern width zero (String.◌∷◌ c s) =
    let matched = removing pattern width width s in
    let unmatched = removing pattern width zero s in
    if starts_with (String.◌∷◌ c s) pattern then matched else String.◌∷◌ c unmatched

-- `value.replace(pattern, "")`, by `width`, the length of the pattern less 1
unfoldable pub remove_all : String → ℕ → String → String
unfolding removing
remove_all pattern width value = removing pattern width zero value

-- set(values), in the order of the last mentions
unfoldable pub distinct : List String → List String
distinct [] = []
distinct (x ∷ xs) = if contains x xs then distinct xs else x ∷ distinct xs

-- sorted(set(values))
unfoldable pub sorted_set : List String → List String
unfolding distinct
sorted_set values = sort_by (λ value. value) (distinct values)
