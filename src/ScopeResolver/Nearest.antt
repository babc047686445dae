-- ===== src/ScopeResolver/Nearest.antt =====
-- src/adr_kit/scope/resolver.py: the root is the nearest one, and the search stops at a boundary.
use adr_architecture_kit.Base.{
  String, Option, none, some, List, [], ◌∷◌, ◌++◌, true, false, ◌≡◌, ◌≢◌, refl, sym, ap, subst, ◌∙◌,
  ◌↔◌, inl, inr, if◌then◌else◌, All, Bool-cases, Option-cases,
}
use adr_architecture_kit.ScopeResolver.{
  Disk, Found, markers, is_workspace_boundary, first_marker, found_at, find_project_root,
}

-- The first of the markers that a directory has.
abbrev pub IsFirstMarker : Disk → List String → List String → String → Type 0
IsFirstMarker disk ms current marker =
    (before after : List String) × (ms ≡ before ++ (marker ∷ after))
    × All (λ m. disk.has_entry current m ≡ false) before
    × (disk.has_entry current marker ≡ true)

-- A directory that the search leaves.
abbrev pub IsPassed : Disk → List String → Type 0
IsPassed disk current =
    (is_workspace_boundary current ≡ false) × All (λ m. disk.has_entry current m ≡ false) markers

-- The root lies at or above the start and below the anchor, has the marker as its first one, and
-- each directory from the start to below it is passed.
abbrev pub IsNearest : Disk → List String → Found → Type 0
IsNearest disk start found =
    (below : List String) × (start ≡ below ++ found.root)
    × (found.root ≢ [])
    × IsFirstMarker disk markers found.root found.marker
    × ((front back : List String)
        → below ≡ front ++ back
        → back ≢ []
        → IsPassed disk (back ++ found.root))

abbrev tail_of : List String → List String
tail_of [] = []
tail_of (x ∷ xs) = xs

module _ (disk : Disk) where
  first_of :
      (before after current : List String) (marker : String)
      → All (λ m. disk.has_entry current m ≡ false) before
      → disk.has_entry current marker ≡ true
      → first_marker disk (before ++ (marker ∷ after)) current ≡ some marker
  unfolding first_marker
  first_of [] after current marker none_before here = rw (here) refl
  first_of (m ∷ before) after current marker none_before here =
      rw (none_before.0) (first_of before after current marker none_before.1 here)

  first_marker-IsFirstMarker :
      (ms current : List String) (marker : String)
      → first_marker disk ms current ≡ some marker
      → IsFirstMarker disk ms current marker
  unfolding first_marker
  first_marker-IsFirstMarker [] current marker h = absurd (cc (h))
  first_marker-IsFirstMarker (m ∷ ms) current marker h =
      elim (Bool-cases (disk.has_entry current m)) [
        | inl e ↦
            let found : some m ≡ some marker =
              ap (λ b. if b then some m else first_marker disk ms current) (sym e) ∙ h in
            let same : m ≡ marker = cc (found) in
            ([], ms, ap (λ x. x ∷ ms) same, tt, ap (disk.has_entry current) (sym same) ∙ e)
        | inr e ↦
            let later : first_marker disk ms current ≡ some marker =
              ap (λ b. if b then some m else first_marker disk ms current) (sym e) ∙ h in
            let (before, after, split, none_before, here) =
              first_marker-IsFirstMarker ms current marker later in
            (m ∷ before, after, ap (λ xs. m ∷ xs) split, (e, none_before), here)
      ]

  first_marker-none :
      (ms current : List String)
      → (first_marker disk ms current ≡ none) ↔ All (λ m. disk.has_entry current m ≡ false) ms
  unfolding first_marker
  first_marker-none [] current = (λ h. tt, λ h. refl)
  first_marker-none (m ∷ ms) current = elim (Bool-cases (disk.has_entry current m)) [
    | inl e ↦ rw (e) (λ h. absurd (cc (h)), λ h. absurd (cc (h.0)))
    | inr e ↦
        rw (e) (
          λ h. (refl, (first_marker-none ms current).0 h),
          λ h. (first_marker-none ms current).1 h.1,
        )
  ]

  -- The start itself is found.
  found_here :
      (name : String) (parents : List String) (marker : String) (f : Found)
      → first_marker disk markers (name ∷ parents) ≡ some marker
      → ◌≡◌ {A = Option Found} (some (record { root = name ∷ parents; marker = marker })) (some f)
      → IsNearest disk (name ∷ parents) f
  found_here name parents marker f found e =
      let same : record { root = name ∷ parents; marker = marker } ≡ f = cc (e) in
      subst (IsNearest disk (name ∷ parents)) same (
        [],
        refl,
        (λ h. cc (h)),
        first_marker-IsFirstMarker markers (name ∷ parents) marker found,
        λ front back split more. absurd (more (second_empty front back (sym split))),
      )
    where
      second_empty : (front back : List String) → front ++ back ≡ [] → back ≡ []
      second_empty [] back h = h
      second_empty (x ∷ front) back h = absurd (cc (h))

  climb :
      (name : String) (parents : List String) (f : Found)
      → IsPassed disk (name ∷ parents)
      → IsNearest disk parents f
      → IsNearest disk (name ∷ parents) f
  climb name parents f passed (below, split, inside, first, all_passed) =
      (name ∷ below, ap (λ xs. name ∷ xs) split, inside, first, between)
    where
      between :
          (front back : List String)
          → name ∷ below ≡ front ++ back
          → back ≢ []
          → IsPassed disk (back ++ f.root)
      between [] back e more =
          subst (IsPassed disk) (ap (λ xs. name ∷ xs) split ∙ ap (λ xs. xs ++ f.root) e) passed
      between (x ∷ front) back e more = all_passed front back (ap tail_of e) more

  module _ (name : String) (parents : List String) where
    finds :
        (marker : String)
        → first_marker disk markers (name ∷ parents) ≡ some marker
        → find_project_root disk (name ∷ parents)
          ≡ some (record { root = name ∷ parents; marker = marker })
    unfolding find_project_root found_at
    finds marker e = elim (Bool-cases (is_workspace_boundary (name ∷ parents))) [
      | inl b ↦ rw (b, e, find_project_root, found_at) refl
      | inr b ↦ rw (b, e, find_project_root, found_at) refl
    ]

    stops :
        first_marker disk markers (name ∷ parents) ≡ none
        → is_workspace_boundary (name ∷ parents) ≡ true
        → find_project_root disk (name ∷ parents) ≡ none
    unfolding find_project_root found_at
    stops e b = rw (b, e, find_project_root, found_at) refl

    passes :
        first_marker disk markers (name ∷ parents) ≡ none
        → is_workspace_boundary (name ∷ parents) ≡ false
        → find_project_root disk (name ∷ parents) ≡ find_project_root disk parents
    unfolding find_project_root found_at
    passes e b = rw (b, e, find_project_root, found_at) refl

  find_project_root-found :
      (start : List String) (f : Found)
      → find_project_root disk start ≡ some f
      → IsNearest disk start f
  unfolding find_project_root
  find_project_root-found [] f h = absurd (cc (h))
  find_project_root-found (name ∷ parents) f h =
      elim (Option-cases (first_marker disk markers (name ∷ parents))) [
        | inr (marker, e) ↦
            found_here name parents marker f e (sym (finds name parents marker e) ∙ h)
        | inl e ↦ elim (Bool-cases (is_workspace_boundary (name ∷ parents))) [
          | inl b ↦ absurd (cc (sym (stops name parents e b) ∙ h))
          | inr b ↦
              climb name parents f (b, (first_marker-none markers (name ∷ parents)).0 e)
                (find_project_root-found parents f (sym (passes name parents e b) ∙ h))
        ]
      ]

  -- The search passes what lies below the root.
  nearest_found :
      (below : List String) (name : String) (parents : List String) (marker : String)
      → first_marker disk markers (name ∷ parents) ≡ some marker
      → ((front back : List String)
          → below ≡ front ++ back
          → back ≢ []
          → IsPassed disk (back ++ (name ∷ parents)))
      → find_project_root disk (below ++ (name ∷ parents))
        ≡ some (record { root = name ∷ parents; marker = marker })
  nearest_found [] name parents marker e passed = finds name parents marker e
  nearest_found (x ∷ below) name parents marker e passed =
      let (free, unmarked) = passed [] (x ∷ below) refl (λ h. cc (h)) in
      passes x (below ++ (name ∷ parents)) ((first_marker-none markers _).1 unmarked) free
      ∙ nearest_found below name parents marker e
          (λ front back split more. passed (x ∷ front) back (ap (λ xs. x ∷ xs) split) more)

  -- A root is found exactly if it is the nearest directory with any marker: it lies at or above the
  -- start and below the anchor, its marker is the first one that it has, and each directory from the
  -- start to below it has no marker and is no boundary. A marker of a lower rank wins if it is nearer.
  pub find_project_root-IsNearest :
      (start : List String) (f : Found)
      → (find_project_root disk start ≡ some f) ↔ IsNearest disk start f
  find_project_root-IsNearest start f = (
    find_project_root-found start f,
    λ (below, split, inside, first, passed).
        ap (find_project_root disk) split ∙ above below f.root f.marker inside first passed,
  )
    where
      above :
          (below root : List String) (marker : String)
          → root ≢ []
          → IsFirstMarker disk markers root marker
          → ((front back : List String)
              → below ≡ front ++ back
              → back ≢ []
              → IsPassed disk (back ++ root))
          → find_project_root disk (below ++ root) ≡ some (record { root = root; marker = marker })
      above below [] marker inside first passed = absurd (inside refl)
      above below (name ∷ parents) marker inside (before, after, split, none_before, here) passed =
          nearest_found below name parents marker
            (ap (λ ms. first_marker disk ms (name ∷ parents)) split
              ∙ first_of before after (name ∷ parents) marker none_before here)
            passed
