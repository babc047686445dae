-- ===== src/TopologyMigration/Fresh.antt =====
-- src/adr_kit/migrators/topology_identity.py: the ids of the components.
use adr_architecture_kit.Base.{
  count-append, ℕ, suc, ◌+◌, String, Option, none, some, List, [], ◌∷◌, ◌++◌, Bool, true, false,
  ◌==◌, ◌≡◌, refl, sym, ap, ◌∙◌, ◌⊎◌, inl, inr, arith, eq_iff, Bool-cases, if◌then◌else◌, contains,
  count, All,
}
use adr_architecture_kit.TopologyMigration.{
  Value, absent, other, text, TopologyComponent, TopologyDocument, ◌and◌, nothing, next_topology_id,
  components_of, declare_components, declare_all,
}
use adr_architecture_kit.TopologyMigration.Plan.{Allocated, kept, given, id_change, allocate_ids}
use adr_architecture_kit.TopologyMigration.Numbers.{next_topology_id-IsFree}

-- The ids that are texts.
abbrev pub ids_of : List (Option TopologyComponent) → List String
ids_of [] = []
ids_of (none ∷ components) = ids_of components
ids_of (some component ∷ components) = elim component.id [
  | absent ↦ ids_of components
  | other ↦ ids_of components
  | text id ↦ id ∷ ids_of components
]

abbrev pub HasId : Option TopologyComponent → Type 0
HasId none = Unit
HasId (some component) = (id : String) × (component.id ≡ text id)

pub Value-cases : (v : Value) → ((v ≡ absent) ⊎ (v ≡ other)) ⊎ ((t : String) × (v ≡ text t))
Value-cases absent = inl (inl refl)
Value-cases other = inl (inr refl)
Value-cases (text t) = inr (t, refl)

abbrev pub seen : String → List String → ℕ
seen x ids = if contains x ids then 1 else 0

-- The number of times that an id is there and that it is used grow alike.
abbrev pub Balanced : List String → List String → List String → List String → Type 0
Balanced ids used ids' used' =
    (x : String) → count x ids' + seen x used ≡ count x ids + seen x used'

abbrev pub Allocates : String → ℕ → List (Option TopologyComponent) → List String → Type 0
Allocates path index components used_ids =
    (a : Allocated) × (allocate_ids path index components used_ids ≡ some a)
    × Balanced (ids_of components) used_ids (ids_of a.components) a.used_ids
    × All HasId a.components
    × (a.report.diagnostics ≡ [])

allocated_new :
    (id : String) (used ids ids' used' : List String)
    → contains id used ≡ false
    → Balanced ids (id ∷ used) ids' used'
    → Balanced ids used (id ∷ ids') used'
allocated_new id used ids ids' used' free h x =
    let at = h x in
    elim (Bool-cases (id == x)) [
      | inl e ↦
          let same : contains x used ≡ false =
            ap (λ y. contains y used) (sym ((eq_iff id x).0 e)) ∙ free in
          ground arith
      | inr e ↦ ground arith
    ]

Balanced-kept :
    (id : String) (ids used ids' used' : List String)
    → Balanced ids used ids' used'
    → Balanced (id ∷ ids) used (id ∷ ids') used'
Balanced-kept id ids used ids' used' h x = let at = h x in ground arith

-- A component with the id `value`.
module _ (path : String) (index : ℕ) (name : Value) (components : List (Option TopologyComponent))
    (rest : (used_ids : List String) → Allocates path (suc index) components used_ids) where
  abbrev named : Value → TopologyComponent
  named value = record { id = value; name = name }

  allocate_missing :
      (value : Value) (used_ids : List String)
      → (ids_of (some (named value) ∷ components) ≡ ids_of components)
      → (allocate_ids path index (some (named value) ∷ components) used_ids
          ≡ elim (next_topology_id used_ids) [
            | none ↦ none
            | some id ↦
                given
                  (named value)
                  id
                  (id_change path index id)
                  (allocate_ids path (suc index) components (id ∷ used_ids))
          ])
      → Allocates path index (some (named value) ∷ components) used_ids
  unfolding allocate_ids
  allocate_missing value used_ids same step =
      let (id, found, free) = next_topology_id-IsFree used_ids in
      let (a, returned, balanced, all, quiet) = rest (id ∷ used_ids) in
      (
        record {
          components = some (named (text id)) ∷ a.components;
          used_ids = a.used_ids;
          report = id_change path index id and a.report;
        },
        step ∙ rw (found, returned) refl,
        λ x.
            allocated_new id used_ids (ids_of components) (ids_of a.components) a.used_ids free
              balanced x
            ∙ ap (λ ids. count x ids + seen x a.used_ids) (sym same),
        ((id, refl), all),
        quiet,
      )

  allocate_one :
      (value : Value) (used_ids : List String)
      → Allocates path index (some (named value) ∷ components) used_ids
  unfolding allocate_ids
  allocate_one absent used_ids = allocate_missing absent used_ids refl refl
  allocate_one other used_ids = allocate_missing other used_ids refl refl
  allocate_one (text id) used_ids =
      let (a, returned, balanced, all, quiet) = rest used_ids in
      (
        record a { components = some (named (text id)) ∷ a.components },
        ap (kept (some (named (text id)))) returned,
        Balanced-kept id (ids_of components) used_ids (ids_of a.components) a.used_ids balanced,
        ((id, refl), all),
        quiet,
      )

pub allocate_ids-IsFresh :
    (path : String) (index : ℕ) (components : List (Option TopologyComponent))
    (used_ids : List String)
    → Allocates path index components used_ids
unfolding allocate_ids
allocate_ids-IsFresh path index [] used_ids =
    (record { components = []; used_ids = used_ids; report = nothing }, refl, λ x. refl, tt, refl)
allocate_ids-IsFresh path index (none ∷ components) used_ids =
    let (a, e, balanced, all, quiet) = allocate_ids-IsFresh path (suc index) components used_ids in
    (record a { components = none ∷ a.components }, ap (kept none) e, balanced, (tt, all), quiet)
allocate_ids-IsFresh path index (some component ∷ components) used_ids =
    allocate_one path index component.name components
      (λ used. allocate_ids-IsFresh path (suc index) components used) component.id used_ids

quiet_iff {ℓ} :
    {A : Type ℓ} (b : Bool) (x : A) (xs : List A)
    → (if b then x ∷ xs else xs) ≡ []
    → (b ≡ false) × (xs ≡ [])
quiet_iff true x xs h = absurd (cc (h))
quiet_iff false x xs h = (refl, h)

pub append-empty {ℓ} : {A : Type ℓ} (xs ys : List A) → xs ++ ys ≡ [] → (xs ≡ []) × (ys ≡ [])
append-empty [] ys h = (refl, h)
append-empty (x ∷ xs) ys h = absurd (cc (h))

-- The first pass reports nothing only if each id is declared once and not used before.
abbrev DeclaresOnce : String → ℕ → List (Option TopologyComponent) → List String → Type 0
DeclaresOnce path index components used_ids =
    (declare_components path index components used_ids).1 ≡ []
    → (x : String)
    → count x (ids_of components) + seen x used_ids
      ≡ seen x (declare_components path index components used_ids).0

declared_one :
    (path : String) (index : ℕ) (value name : Value) (components : List (Option TopologyComponent))
    → ((used_ids : List String) → DeclaresOnce path (suc index) components used_ids)
    → (used_ids : List String)
    → DeclaresOnce path index (some (record { id = value; name = name }) ∷ components) used_ids
unfolding declare_components
declared_one path index absent name components rest used_ids h x = rest used_ids h x
declared_one path index other name components rest used_ids h x = rest used_ids h x
declared_one path index (text id) name components rest used_ids h x =
    let (free, quiet) = quiet_iff (contains id used_ids) _ _ h in
    let at = rest (id ∷ used_ids) quiet x in
    elim (Bool-cases (id == x)) [
      | inl e ↦
          let same : contains x used_ids ≡ false =
            ap (λ y. contains y used_ids) (sym ((eq_iff id x).0 e)) ∙ free in
          ground arith
      | inr e ↦ ground arith
    ]

declared_once :
    (path : String) (index : ℕ) (components : List (Option TopologyComponent))
    (used_ids : List String)
    → DeclaresOnce path index components used_ids
unfolding declare_components
declared_once path index [] used_ids h x = omega arith
declared_once path index (none ∷ components) used_ids h x =
    declared_once path (suc index) components used_ids h x
declared_once path index (some component ∷ components) used_ids h x =
    declared_one path index component.id component.name components
      (λ used. declared_once path (suc index) components used) used_ids h x

-- The ids of all documents.
abbrev pub all_ids : List (String × TopologyDocument) → List String
all_ids [] = []
all_ids (item ∷ documents) = ids_of (components_of item.1) ++ all_ids documents

pub declare_all-once :
    (documents : List (String × TopologyDocument)) (used_ids : List String)
    → (declare_all documents used_ids).1 ≡ []
    → (x : String)
    → count x (all_ids documents) + seen x used_ids ≡ seen x (declare_all documents used_ids).0
unfolding declare_all
declare_all-once [] used_ids h x = omega arith
declare_all-once (item ∷ documents) used_ids h x =
    let here = declare_components item.0 0 (components_of item.1) used_ids in
    let (quiet, rest) = append-empty here.1 (declare_all documents here.0).1 h in
    omega (
      arith,
      count-append x (ids_of (components_of item.1)) (all_ids documents),
      declared_once item.0 0 (components_of item.1) used_ids quiet x,
      declare_all-once documents here.0 rest x,
    )
