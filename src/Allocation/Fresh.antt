-- ===== src/Allocation/Fresh.antt =====
-- The allocated ids: fresh, distinct, the least free number of the band.
use adr_architecture_kit.Base.{
  ℕ, zero, suc, ◌+◌, ◌-◌, ◌≤◌, ◌<◌, String, List, [], ◌∷◌, true, false, eq_iff, ◌≡◌, refl, subst,
  inl, inr, arith, eqb, Bool-cases, ok, is_ok, Returns-bind, All, All-map, contains, IsDistinct,
  any-none, length,
}
use adr_architecture_kit.Allocation.{
  AdrIdAllocationBands, default_bands, candidate, is_free, first_free, next_normal_band, allocate,
  allocate_child_ids,
}

-- `id` is the candidate of the least free number from `number` on, and below `end`.
abbrev pub IsLeastFree : AdrIdAllocationBands → List String → String → ℕ → ℕ → String → Type 0
IsLeastFree bands used prefix start end id =
    (n : ℕ) × (id ≡ candidate prefix n)
    × (start ≤ n)
    × (n < end)
    × (is_free bands used prefix n ≡ true)
    × ((m : ℕ) → start ≤ m → m < n → is_free bands used prefix m ≡ false)

module _ (bands : AdrIdAllocationBands) (used : List String) (prefix : String) where
  first_free-here :
      (number remaining : ℕ) (id : String)
      → is_free bands used prefix number ≡ true
      → first_free bands used prefix number (suc remaining) ≡ ok id
      → id ≡ candidate prefix number
  unfolding first_free
  first_free-here number remaining id free = rw (free) λ e. cc

  lt_of_free :
      (number n : ℕ)
      → number ≤ n
      → is_free bands used prefix number ≡ false
      → is_free bands used prefix n ≡ true
      → number + 1 ≤ n
  lt_of_free number n h taken free = elim (Bool-cases (eqb number n)) [
    | inl e ↦
        let same : number ≡ n = ground arith in
        absurd (cc (subst (λ m. is_free bands used prefix m ≡ false) same taken))
    | inr e ↦ ground arith
  ]

  first_free-IsLeastFree :
      (number remaining : ℕ) (id : String)
      → first_free bands used prefix number remaining ≡ ok id
      → IsLeastFree bands used prefix number (number + remaining) id
  unfolding first_free
  first_free-IsLeastFree number zero id e = cc
  first_free-IsLeastFree number (suc remaining) id e =
      elim (Bool-cases (is_free bands used prefix number)) [
        | inl free ↦ (
          number,
          first_free-here number remaining id free e,
          ground arith,
          ground arith,
          free,
          λ m h k. absurd (ground arith),
        )
        | inr taken ↦
            let rest = first_free-IsLeastFree (number + 1) remaining id (ground arith) in
            (
              rest.0,
              rest.1,
              ground (arith, rest.2),
              ground (arith, rest.3),
              rest.4,
              λ m h k. elim (Bool-cases (eqb number m)) [
                | inl e' ↦
                    let same : number ≡ m = ground arith in
                    subst (λ n. is_free bands used prefix n ≡ false) same taken
                | inr e' ↦ rest.5 m (ground arith) k
              ],
            )
      ]

  -- A free number of the range is enough.
  first_free-ok :
      (number remaining n : ℕ)
      → number ≤ n
      → n < number + remaining
      → is_free bands used prefix n ≡ true
      → is_ok (first_free bands used prefix number remaining) ≡ true
  unfolding first_free
  first_free-ok number zero n h k free = absurd (ground arith)
  first_free-ok number (suc remaining) n h k free =
      elim (Bool-cases (is_free bands used prefix number)) [
        | inl e ↦ rw (e) refl
        | inr e ↦ rw (e) (
            first_free-ok (number + 1) remaining n (lt_of_free number n h e free) (ground arith)
              free)
      ]

-- If a number is found, it is the least free one of the normal band, and the id is its candidate.
pub next_normal_band-IsLeastFree :
    (used : List String) (prefix : String) (bands : AdrIdAllocationBands) (id : String)
    → next_normal_band used prefix bands ≡ ok id
    → IsLeastFree bands used prefix bands.normal_start (bands.normal_end + 1) id
unfolding next_normal_band
next_normal_band-IsLeastFree used prefix bands id e =
    let found =
      first_free-IsLeastFree bands used prefix bands.normal_start
        (bands.normal_end + 1 - bands.normal_start) id e in
    (found.0, found.1, found.2, ground (arith, found.2, found.3), found.4, found.5)

-- If a number of the normal band is free, an id is found.
pub next_normal_band-ok :
    (used : List String) (prefix : String) (bands : AdrIdAllocationBands) (n : ℕ)
    → bands.normal_start ≤ n
    → n ≤ bands.normal_end
    → is_free bands used prefix n ≡ true
    → is_ok (next_normal_band used prefix bands) ≡ true
unfolding next_normal_band
next_normal_band-ok used prefix bands n h k free =
    first_free-ok bands used prefix bands.normal_start (bands.normal_end + 1 - bands.normal_start) n
      h (ground arith) free

candidate-fresh :
    (used : List String) (prefix : String) (n : ℕ)
    → is_free default_bands used prefix n ≡ true
    → contains (candidate prefix n) used ≡ false
unfolding is_free
candidate-fresh used prefix n h = ground arith

-- `ids` are `count` ids, distinct and not among `used`.
abbrev pub AreFresh : List String → ℕ → List String → Type 0
AreFresh used count ids =
    All (λ id. contains id used ≡ false) ids × IsDistinct (λ id. id) ids × (length ids ≡ count)

AreFresh-cons :
    (used : List String) (id : String) (count : ℕ) (ids : List String)
    → contains id used ≡ false
    → AreFresh (id ∷ used) count ids
    → AreFresh used (suc count) (id ∷ ids)
AreFresh-cons used id count ids fresh later = (
  (fresh, All-map ids (λ other h. ground (arith, h)) later.0),
  (
    any-none _ ids
        (All-map ids (λ other h. ground (arith, h, eq_iff id other, eq_iff other id)) later.0),
    later.1,
  ),
  ground (arith, later.2),
)

allocate-AreFresh :
    (count : ℕ) (used : List String) (prefix : String) (ids : List String)
    → allocate count used prefix ≡ ok ids
    → AreFresh used count ids
unfolding allocate
allocate-AreFresh zero used prefix [] e = (tt, tt, refl)
allocate-AreFresh zero used prefix (id ∷ ids) e = absurd (cc)
allocate-AreFresh (suc count) used prefix ids e =
    let first = Returns-bind (next_normal_band used prefix default_bands) _ e in
    let more = Returns-bind (allocate count (first.0 ∷ used) prefix) _ first.2 in
    let later = allocate-AreFresh count (first.0 ∷ used) prefix more.0 more.1 in
    let found = next_normal_band-IsLeastFree used prefix default_bands first.0 first.1 in
    let same : ids ≡ first.0 ∷ more.0 = cc (more.2) in
    rw (same) (
      AreFresh-cons used first.0 count more.0
        (rw (found.1) (candidate-fresh used prefix found.0 found.4)) later)

-- If the ids are allocated, there are as many as wanted of each kind, no two alike and none in use.
pub allocate_child_ids-AreFresh :
    (used_dec used_inv : List String) (dec_count inv_count : ℕ) (decs invs : List String)
    → allocate_child_ids used_dec used_inv dec_count inv_count ≡ ok (decs, invs)
    → AreFresh used_dec dec_count decs × AreFresh used_inv inv_count invs
unfolding allocate_child_ids
allocate_child_ids-AreFresh used_dec used_inv dec_count inv_count decs invs e =
    let first = Returns-bind (allocate dec_count used_dec "DEC-") _ e in
    let second = Returns-bind (allocate inv_count used_inv "INV-") _ first.2 in
    let same_decs : decs ≡ first.0 = cc (second.2) in
    let same_invs : invs ≡ second.0 = cc (second.2) in
    rw (same_decs, same_invs)
      (
        allocate-AreFresh dec_count used_dec "DEC-" first.0 first.1,
        allocate-AreFresh inv_count used_inv "INV-" second.0 second.1,
      )
