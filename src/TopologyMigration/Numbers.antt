-- ===== src/TopologyMigration/Numbers.antt =====
-- src/adr_kit/migrators/topology_identity.py: a fresh number is found.
use adr_architecture_kit.Base.{
  padded, ℕ, zero, suc, ◌+◌, ◌-◌, ◌*◌, ◌/◌, ◌%◌, ◌≤◌, ◌<◌, String, some, List, [], ◌∷◌, ◌++◌, Bool,
  true, false, ◌==◌, ◌≡◌, refl, sym, ap, ◌∙◌, inl, inr, arith, eq_iff, Bool-cases, ltb, not,
  if◌then◌else◌, contains, length, filter, digit, digits, decimal, Text, codes,
}
use Prim.Native.String
use Prim.Native.String.append
use Prim.Native.Char.{code}
use adr_architecture_kit.TopologyMigration.{topology_id, free_number, next_topology_id}

-- The number that digits stand for, after a number.
value : ℕ → Text → ℕ
value n [] = n
value n (c ∷ cs) = value (n * 10 + (c - 48)) cs

codes-append : (s t : String) → codes (String.◌++◌ s t) ≡ codes s ++ codes t
codes-append String.[] t = ap codes (append.nil t)
codes-append (String.◌∷◌ c s) t = ap codes (append.cons c s t) ∙ λ i. code c ∷ codes-append s t i

value-append : (n : ℕ) (s t : Text) → value n (s ++ t) ≡ value (value n s) t
unfolding value
value-append n [] t = refl
value-append n (c ∷ s) t = value-append (n * 10 + (c - 48)) s t

codes-digit : (n : ℕ) → n < 10 → codes (digit n) ≡ (48 + n) ∷ []
unfolding digit
codes-digit zero h = refl
codes-digit (suc zero) h = refl
codes-digit (suc (suc zero)) h = refl
codes-digit (suc (suc (suc zero))) h = refl
codes-digit (suc (suc (suc (suc zero)))) h = refl
codes-digit (suc (suc (suc (suc (suc zero))))) h = refl
codes-digit (suc (suc (suc (suc (suc (suc zero)))))) h = refl
codes-digit (suc (suc (suc (suc (suc (suc (suc zero))))))) h = refl
codes-digit (suc (suc (suc (suc (suc (suc (suc (suc zero)))))))) h = refl
codes-digit (suc (suc (suc (suc (suc (suc (suc (suc (suc zero))))))))) h = refl
codes-digit (suc (suc (suc (suc (suc (suc (suc (suc (suc (suc n)))))))))) h = absurd (omega arith)

value-digits : (fuel n : ℕ) → n < fuel → value 0 (codes (digits fuel n)) ≡ n
unfolding digits value
value-digits zero n h = absurd (omega arith)
value-digits (suc fuel) n h = elim (Bool-cases (ltb n 10)) [
  | inl e ↦ rw (e) (ap (value 0) (codes-digit n (ground arith)) ∙ omega arith)
  | inr e ↦ rw (e) (
      ap (value 0) (codes-append (digits fuel (n / 10)) (digit (n % 10)))
      ∙ value-append 0 (codes (digits fuel (n / 10))) (codes (digit (n % 10)))
      ∙ ap (value (value 0 (codes (digits fuel (n / 10))))) (codes-digit (n % 10) (omega arith))
      ∙ last (value 0 (codes (digits fuel (n / 10)))) (value-digits fuel (n / 10) (ground arith)))
]
  where
    last : (m : ℕ) → m ≡ n / 10 → m * 10 + (48 + n % 10 - 48) ≡ n
    last m e = omega (arith, e)

value-zeros :
    (zeros s : String)
    → value 0 (codes zeros) ≡ 0
    → value 0 (codes (String.◌++◌ zeros s)) ≡ value 0 (codes s)
value-zeros zeros s h =
    ap (value 0) (codes-append zeros s)
    ∙ value-append 0 (codes zeros) (codes s)
    ∙ ap (λ n. value n (codes s)) h

value-nil : (s : String) → value 0 (codes (String.◌++◌ s "")) ≡ value 0 (codes s)
unfolding value
value-nil s = ap (value 0) (codes-append s "") ∙ value-append 0 (codes s) []

value-decimal : (n : ℕ) → value 0 (codes (decimal n)) ≡ n
unfolding decimal
value-decimal n = value-digits (n + 1) n (omega arith)

value-padded : (n : ℕ) → value 0 (codes (padded n)) ≡ n
unfolding padded value
value-padded n =
    let zeros =
      if ltb n 10 then "000" else if ltb n 100 then "00" else if ltb n 1000 then "0" else "" in
    value-zeros zeros (String.◌++◌ (decimal n) "") (all_zeros (ltb n 10) (ltb n 100) (ltb n 1000))
    ∙ value-nil (decimal n)
    ∙ value-decimal n
  where
    all_zeros :
        (a b c : Bool)
        → value 0 (codes (if a then "000" else if b then "00" else if c then "0" else "")) ≡ 0
    all_zeros true b c = refl
    all_zeros false true c = refl
    all_zeros false false true = refl
    all_zeros false false false = refl

-- The number of an id, behind its five first characters.
number_of : Text → ℕ
number_of (a ∷ b ∷ c ∷ d ∷ e ∷ rest) = value 0 rest
number_of text = 0

number_of-topology_id : (n : ℕ) → number_of (codes (topology_id n)) ≡ n
unfolding topology_id number_of
number_of-topology_id n =
    ap number_of (codes-append "TOPO-" (String.◌++◌ (padded n) ""))
    ∙ value-nil (padded n)
    ∙ value-padded n

topology_id-injective : (m n : ℕ) → topology_id m ≡ topology_id n → m ≡ n
topology_id-injective m n h =
    sym (number_of-topology_id m) ∙ ap (λ id. number_of (codes id)) h ∙ number_of-topology_id n

without : String → List String → List String
without id ids = filter (λ other. not (other == id)) ids

length-without : (id : String) (ids : List String) → length (without id ids) ≤ length ids
unfolding without
length-without id [] = omega arith
length-without id (x ∷ xs) = ground (arith, length-without id xs)

without-shorter :
    (id : String) (ids : List String)
    → contains id ids ≡ true
    → length (without id ids) + 1 ≤ length ids
unfolding without
without-shorter id [] h = absurd (cc (h))
without-shorter id (x ∷ xs) h = ground (arith, without-shorter id xs, length-without id xs)

contains-without :
    (id other : String) (ids : List String)
    → (id == other) ≡ false
    → contains other (without id ids) ≡ contains other ids
unfolding without
contains-without id other [] h = refl
contains-without id other (x ∷ xs) h =
    ground (arith, contains-without id other xs, eq_iff x id, eq_iff x other, eq_iff id other)

-- Among the ids of more numbers than there are used ids, one is free: `rest` are the used ids that
-- the loop may still meet.
free_number-some :
    (used_ids rest : List String) (fuel number : ℕ)
    → ((m : ℕ) → number ≤ m → contains (topology_id m) used_ids ≡ contains (topology_id m) rest)
    → length rest < fuel
    → (n : ℕ) × (free_number used_ids fuel number ≡ some n)
      × (contains (topology_id n) used_ids ≡ false)
unfolding free_number
free_number-some used_ids rest zero number same h = absurd (omega arith)
free_number-some used_ids rest (suc fuel) number same h =
    elim (Bool-cases (contains (topology_id number) used_ids)) [
      | inr e ↦ (number, rw (e) refl, e)
      | inl e ↦
          let here : contains (topology_id number) rest ≡ true =
            sym (same number (omega arith)) ∙ e in
          let (n, found, free) =
            free_number-some used_ids (without (topology_id number) rest) fuel (suc number)
              (λ m le.
                same m (omega arith)
                ∙ sym (
                    contains-without (topology_id number) (topology_id m) rest (apart number m le)))
              (omega (arith, without-shorter (topology_id number) rest here)) in
          (n, rw (e) found, free)
    ]
  where
    apart : (k m : ℕ) → suc k ≤ m → (topology_id k == topology_id m) ≡ false
    apart k m le = elim (Bool-cases (topology_id k == topology_id m)) [
      | inr e ↦ e
      | inl e ↦
          let equal = topology_id-injective k m ((eq_iff (topology_id k) (topology_id m)).0 e) in
          absurd (omega (arith, equal))
    ]

-- An id is given, and it is not used.
pub next_topology_id-IsFree :
    (used_ids : List String)
    → (id : String) × (next_topology_id used_ids ≡ some id) × (contains id used_ids ≡ false)
unfolding next_topology_id
next_topology_id-IsFree used_ids =
    let (n, found, free) =
      free_number-some used_ids used_ids (suc (length used_ids)) 1 (λ m le. refl) (omega arith) in
    (topology_id n, rw (found, next_topology_id) refl, free)
