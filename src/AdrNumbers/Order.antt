-- ===== src/AdrNumbers/Order.antt =====
-- src/adr_kit/repository/architecture_repository.py: the numbers that `next_id` gives.
use adr_architecture_kit.Base.{
  ℕ, ◌+◌, ◌-◌, ◌*◌, ◌/◌, ◌%◌, ◌≤◌, ◌<◌, String, Option, none, some, List, [], ◌∷◌, ◌++◌, true,
  false, ◌≡◌, ◌≢◌, refl, sym, ap, ◌∙◌, subst, inl, inr, arith, ltb, Option-cases, Result, ok,
  Returns-bind, passes_iff, any, All, All-map, item_of, item_of-put_same, put, Text, is_digit,
  same_text, is_prefix-append, drop_prefix-append,
}
use adr_architecture_kit.AdrNumbers.{
  AdrFile, unreadable_document, document, StateFile, missing, unreadable, allocation, RegistryError,
  max, four_digits_at, sequence_of, four_digits_text, load_allocation_high_water,
  save_allocation_high_water, Scan, highest_after, effective_allocation_alias, scan_alias,
  scan_file, scan_files, prefix_of, next_id,
}

is_digit-add : (d : ℕ) → d ≤ 9 → is_digit (48 + d) ≡ true
is_digit-add d h = ground arith

value_of :
    (a b c d : ℕ)
    → (48 + a - 48) * 1000 + (48 + b - 48) * 100 + (48 + c - 48) * 10 + (48 + d - 48)
      ≡ a * 1000 + b * 100 + c * 10 + d
value_of a b c d = omega arith

-- A number below 10000 is read back from its four digits.
four_digits_at-four_digits_text : (n : ℕ) → n < 10000 → four_digits_at (four_digits_text n) ≡ some n
unfolding four_digits_at four_digits_text
four_digits_at-four_digits_text n h =
    let whole : n / 1000 * 1000 + n / 100 % 10 * 100 + n / 10 % 10 * 10 + n % 10 ≡ n =
      omega arith in
    rw
      (
        is_digit-add (n / 1000) (omega arith),
        is_digit-add (n / 100 % 10) (omega arith),
        is_digit-add (n / 10 % 10) (omega arith),
        is_digit-add (n % 10) (omega arith),
      )
      (ap some (value_of (n / 1000) (n / 100 % 10) (n / 10 % 10) (n % 10) ∙ whole))

max-above : (a b : ℕ) → a < b → max a b ≡ b
max-above a b h = ground arith

loaded :
    (adr_type : String) (high_water : ℕ) (marks : List (String × Option ℕ)) (next : StateFile)
    → ◌≡◌ {A = Result RegistryError StateFile}
        (ok (allocation (put adr_type (some high_water) marks)))
        (ok next)
    → load_allocation_high_water adr_type next ≡ ok high_water
unfolding load_allocation_high_water
loaded adr_type high_water marks next s =
    let same : allocation (put adr_type (some high_water) marks) ≡ next = cc in
    subst (λ state. load_allocation_high_water adr_type state ≡ ok high_water) same
      (rw (item_of-put_same adr_type (some high_water) marks, load_allocation_high_water) refl)

-- What is saved above the mark is loaded again.
load-save :
    (adr_type : String) (mark high_water : ℕ) (state next : StateFile)
    → load_allocation_high_water adr_type state ≡ ok mark
    → mark < high_water
    → save_allocation_high_water adr_type high_water state ≡ ok next
    → load_allocation_high_water adr_type next ≡ ok high_water
unfolding load_allocation_high_water save_allocation_high_water
load-save adr_type mark high_water missing next l h s = loaded adr_type high_water [] next s
load-save adr_type mark high_water unreadable next l h s = absurd (cc)
load-save adr_type mark high_water (allocation marks) next l h s =
    elim (Option-cases (item_of adr_type marks)) [
      | inl e ↦
          loaded adr_type high_water marks next
            (rw (max-above 0 high_water (omega arith)) at (rw (e, save_allocation_high_water) at s))
      | inr e ↦ elim (Option-cases e.0) [
        | inl f ↦ absurd (cc (rw (e.1, f, load_allocation_high_water) at l))
        | inr f ↦
            let same : f.0 ≡ mark = cc (rw (e.1, f.1, load_allocation_high_water) at l) in
            loaded adr_type high_water marks next (
              rw (max-above f.0 high_water (omega arith)) at
                (rw (e.1, f.1, save_allocation_high_water) at s))
      ]
    ]

-- A number of the normal band is not above the highest one.
abbrev pub IsBelow : Text → ℕ → Option Text → Type 0
IsBelow prefix highest alias =
    (text : Text) (n : ℕ)
    → alias ≡ some text
    → sequence_of prefix text ≡ some n
    → 1 ≤ n
    → n ≤ 8999
    → n ≤ highest

highest_after-above : (o : Option ℕ) (highest : ℕ) → highest ≤ highest_after o highest
unfolding highest_after
highest_after-above none highest = ground arith
highest_after-above (some n) highest = ground arith

highest_after-bounds :
    (o : Option ℕ) (highest n : ℕ) → o ≡ some n → 1 ≤ n → n ≤ 8999 → n ≤ highest_after o highest
unfolding highest_after
highest_after-bounds none highest n e h k = absurd (cc)
highest_after-bounds (some m) highest n e h k = let same : m ≡ n = cc in ground arith

module _ (strip : Text → Text) where
  -- The alias of a file that was read.
  abbrev pub alias_of : Text → AdrFile → Option Text
  alias_of prefix unreadable_document = none
  alias_of prefix (document header) = effective_allocation_alias strip prefix header

  scan_alias-IsBelow :
      (prefix : Text) (alias : Option Text) (scan next : Scan)
      → scan_alias strip prefix alias scan ≡ ok next
      → (scan.1 ≤ next.1) × IsBelow prefix next.1 alias
  unfolding scan_alias
  scan_alias-IsBelow prefix none scan next h =
      let same : scan ≡ next = cc in
      (subst (λ t. scan.1 ≤ t.1) same (omega arith), λ text n e. absurd (cc))
  scan_alias-IsBelow prefix (some alias) scan next h =
      let passed = (passes_iff (any (λ other. same_text other alias) scan.0) _ (ok _) next).0 h in
      let same : (alias ∷ scan.0, highest_after (sequence_of prefix alias) scan.1) ≡ next =
        cc (passed.1) in
      (
        subst (λ t. scan.1 ≤ t.1) same (highest_after-above (sequence_of prefix alias) scan.1),
        λ text n e number low high.
            let text_same : alias ≡ text = cc in
            subst (λ t. n ≤ t.1) same
              (highest_after-bounds (sequence_of prefix alias) scan.1 n
                (ap (sequence_of prefix) text_same ∙ number) low high),
      )

  scan_files-IsBelow :
      (prefix : Text) (files : List AdrFile) (scan last : Scan)
      → scan_files strip prefix files scan ≡ ok last
      → (scan.1 ≤ last.1) × All (λ file. IsBelow prefix last.1 (alias_of prefix file)) files
  unfolding scan_files scan_file
  scan_files-IsBelow prefix [] scan last h =
      let same : scan ≡ last = cc in (subst (λ t. scan.1 ≤ t.1) same (omega arith), tt)
  scan_files-IsBelow prefix (unreadable_document ∷ files) scan last h = absurd (cc)
  scan_files-IsBelow prefix (document header ∷ files) scan last h =
      let run =
        Returns-bind (scan_alias strip prefix (effective_allocation_alias strip prefix header) scan)
          _ h in
      let here = scan_alias-IsBelow prefix _ scan run.0 run.1 in
      let later = scan_files-IsBelow prefix files run.0 last run.2 in
      (
        le_trans scan.1 run.0.1 last.1 here.0 later.0,
        (
          λ text n e number low high.
              le_trans n run.0.1 last.1 (here.1 text n e number low high) later.0,
          later.1,
        ),
      )
    where
      le_trans : (a b c : ℕ) → a ≤ b → b ≤ c → a ≤ c
      le_trans a b c h k = omega arith

  -- `id` is the one of the number `n`, after the mark and the numbers of all files, in the band.
  abbrev pub IsNext : String → List AdrFile → StateFile → Text × StateFile → Text → ℕ → ℕ → Type 0
  IsNext adr_type files state result prefix mark n =
      (prefix_of adr_type ≡ ok prefix)
      × (load_allocation_high_water adr_type state ≡ ok mark)
      × (mark < n)
      × (n ≤ 8999)
      × (result.0 ≡ prefix ++ four_digits_text n)
      × (load_allocation_high_water adr_type result.1 ≡ ok n)
      × All (λ file. alias_of prefix file ≢ some result.0) files

  pub sequence_of-next :
      (prefix : Text) (n : ℕ)
      → n ≤ 8999
      → sequence_of prefix (prefix ++ four_digits_text n) ≡ some n
  unfolding sequence_of
  sequence_of-next prefix n h =
      rw
        (
          is_prefix-append prefix (four_digits_text n),
          drop_prefix-append prefix (four_digits_text n),
        )
        (four_digits_at-four_digits_text n (omega arith))

  -- If an id is given, it is the one of a number of the normal band that is greater than the mark;
  -- the new mark is that number, and no file of the type has the id as its alias.
  pub next_id-IsNext :
      (adr_type : String) (files : List AdrFile) (state : StateFile) (result : Text × StateFile)
      → next_id strip adr_type files state ≡ ok result
      → (prefix : Text) × (mark : ℕ) × (n : ℕ) × IsNext adr_type files state result prefix mark n
  unfolding next_id
  next_id-IsNext adr_type files state result h =
      let typed = Returns-bind (prefix_of adr_type) _ h in
      let prefix = typed.0 in
      let loaded = Returns-bind (load_allocation_high_water adr_type state) _ typed.2 in
      let scanned = Returns-bind (scan_files strip prefix files ([], loaded.0)) _ loaded.2 in
      let n = scanned.0.1 + 1 in
      let banded = (passes_iff (ltb 8999 n) _ _ result).0 scanned.2 in
      let saved = Returns-bind (save_allocation_high_water adr_type n state) _ banded.1 in
      let same : (prefix ++ four_digits_text n, saved.0) ≡ result = cc (saved.2) in
      let above = scan_files-IsBelow prefix files ([], loaded.0) scanned.0 scanned.1 in
      let after : loaded.0 < n = next_above loaded.0 scanned.0.1 above.0 in
      let low : n ≤ 8999 = in_band n banded.0 in
      (
        prefix,
        loaded.0,
        n,
        (
          typed.1,
          loaded.1,
          after,
          low,
          ap (λ r. r.0) (sym same),
          subst (λ r. load_allocation_high_water adr_type r.1 ≡ ok n) same
              (load-save adr_type loaded.0 n state saved.0 loaded.1 after saved.1),
          All-map files
              (λ file below e. too_high scanned.0.1 (
                below result.0 n e
                  (ap (λ r. sequence_of prefix r.0) (sym same) ∙ sequence_of-next prefix n low)
                  (one_above scanned.0.1) low))
              above.1,
        ),
      )
    where
      next_above : (a b : ℕ) → a ≤ b → a < b + 1
      next_above a b h = omega arith

      in_band : (n : ℕ) → ltb 8999 n ≡ false → n ≤ 8999
      in_band n h = ground arith

      one_above : (n : ℕ) → 1 ≤ n + 1
      one_above n = omega arith

      too_high : (n : ℕ) → n + 1 ≤ n → ⊥
      too_high n h = omega arith

  -- The number is read back from the id.
  pub sequence_read :
      (prefix : Text) (n m : ℕ)
      → n ≤ 8999
      → m ≤ 8999
      → prefix ++ four_digits_text n ≡ prefix ++ four_digits_text m
      → n ≡ m
  sequence_read prefix n m low low' e = cc (
      sym (sequence_of-next prefix n low)
      ∙ ap (sequence_of prefix) e
      ∙ sequence_of-next prefix m low')
