-- ===== src/Topology/Semantics/Tables.antt =====
-- The tables that the check of the memberships fills, by the documents they are filled from.
use adr_architecture_kit.Base.{
  String, Option, none, some, List, [], ◌∷◌, map, Bool, true, false, ◌||◌, ◌==◌, ◌≡◌, refl, sym, ap,
  ◌∙◌, inl, inr, any, if◌then◌else◌, item_of, put, item_of-put, Bool-cases,
}
use adr_architecture_kit.Relationships.Documents.{ComponentSpecification, PhysicalAdr}
use adr_architecture_kit.Relationships.Physical.{component_id_of}
use adr_architecture_kit.Topology.{is_physical_system}
use adr_architecture_kit.Topology.Semantics.{
  refs_of, Memberships, add_system, memberships, resolve_system_ref, is_physical_component,
  claim_each, pc_systems,
}
use adr_architecture_kit.Topology.Semantics.Members.{
  or_else, last_of, system_named, members_in, claims_in,
}

or_else_assoc {ℓ} :
    {A : Type ℓ} (a b c : Option A) → or_else (or_else a b) c ≡ or_else a (or_else b c)
or_else_assoc none b c = refl
or_else_assoc (some x) b c = refl

pub or_else-none {ℓ} : {A : Type ℓ} (a : Option A) → or_else a none ≡ a
or_else-none none = refl
or_else-none (some x) = refl

add_system-systems :
    (adr : PhysicalAdr) (system_id : Option String) (m : Memberships) (reference : String)
    → item_of reference (add_system adr system_id m).system_id_by_adr
      ≡ or_else
          (if adr.id == reference then system_id else none)
          (item_of reference m.system_id_by_adr)
add_system-systems adr none m reference = elim (Bool-cases (adr.id == reference)) [
  | inl e ↦ rw (e) refl
  | inr e ↦ rw (e) refl
]
add_system-systems adr (some system_id) m reference =
    item_of-put adr.id reference system_id m.system_id_by_adr
    ∙ elim (Bool-cases (adr.id == reference)) [ inl e ↦ rw (e) refl | inr e ↦ rw (e) refl ]

add_system-members :
    (adr : PhysicalAdr) (authored : Option String) (m : Memberships) (system_id : String)
    → item_of system_id (add_system adr authored m).members_by_system
      ≡ or_else
          (elim authored [
            | none ↦ none
            | some id ↦ if id == system_id then some (refs_of adr.topology_components) else none
          ])
          (item_of system_id m.members_by_system)
add_system-members adr none m system_id = refl
add_system-members adr (some id) m system_id =
    item_of-put id system_id (refs_of adr.topology_components) m.members_by_system
    ∙ elim (Bool-cases (id == system_id)) [ inl e ↦ rw (e) refl | inr e ↦ rw (e) refl ]

abbrev pub after_one : PhysicalAdr → Memberships → Memberships
after_one adr m = if is_physical_system adr.adr_type then add_system adr adr.system_id m else m

after_one-systems :
    (adr : PhysicalAdr) (m : Memberships) (reference : String)
    → item_of reference (after_one adr m).system_id_by_adr
      ≡ or_else (system_named reference adr) (item_of reference m.system_id_by_adr)
after_one-systems adr m reference = elim (Bool-cases (is_physical_system adr.adr_type)) [
  | inl e ↦ rw (e) (add_system-systems adr adr.system_id m reference)
  | inr e ↦ rw (e) refl
]

after_one-members :
    (adr : PhysicalAdr) (m : Memberships) (system_id : String)
    → item_of system_id (after_one adr m).members_by_system
      ≡ or_else (members_in system_id adr) (item_of system_id m.members_by_system)
after_one-members adr m system_id = elim (Bool-cases (is_physical_system adr.adr_type)) [
  | inl e ↦ rw (e) (add_system-members adr adr.system_id m system_id)
  | inr e ↦ rw (e) refl
]

pub item_of-systems :
    (adrs : List PhysicalAdr) (m : Memberships) (reference : String)
    → item_of reference (memberships adrs m).system_id_by_adr
      ≡ or_else (last_of (system_named reference) adrs) (item_of reference m.system_id_by_adr)
unfolding memberships
item_of-systems [] m reference = refl
item_of-systems (adr ∷ adrs) m reference =
    item_of-systems adrs (after_one adr m) reference
    ∙ ap (or_else (last_of (system_named reference) adrs)) (after_one-systems adr m reference)
    ∙ sym (or_else_assoc (last_of (system_named reference) adrs) _ _)

pub item_of-members :
    (adrs : List PhysicalAdr) (m : Memberships) (system_id : String)
    → item_of system_id (memberships adrs m).members_by_system
      ≡ or_else (last_of (members_in system_id) adrs) (item_of system_id m.members_by_system)
unfolding memberships
item_of-members [] m system_id = refl
item_of-members (adr ∷ adrs) m system_id =
    item_of-members adrs (after_one adr m) system_id
    ∙ ap (or_else (last_of (members_in system_id) adrs)) (after_one-members adr m system_id)
    ∙ sym (or_else_assoc (last_of (members_in system_id) adrs) _ _)

item_of-claim_each :
    (systems : List String) (components : List ComponentSpecification)
    (claims : List (String × List String)) (component_id : String)
    → item_of component_id (claim_each systems components claims) ≡ (
        if any (λ c. component_id_of c == component_id) components
        then some systems
        else item_of component_id claims)
unfolding claim_each
item_of-claim_each systems [] claims component_id = refl
item_of-claim_each systems (c ∷ components) claims component_id =
    item_of-claim_each systems components (put (component_id_of c) systems claims) component_id
    ∙ ap
        (λ rest.
          if any (λ c. component_id_of c == component_id) components then some systems else rest)
        (item_of-put (component_id_of c) component_id systems claims)
    ∙ join (any (λ c. component_id_of c == component_id) components)
        (component_id_of c == component_id) (some systems) (item_of component_id claims)
  where
    join :
        {A : Type 0} (p q : Bool) (x y : A)
        → (if p then x else (if q then x else y)) ≡ (if q || p then x else y)
    join true true x y = refl
    join true false x y = refl
    join false true x y = refl
    join false false x y = refl

pub item_of-claims :
    (table : List (String × String)) (adrs : List PhysicalAdr)
    (claims : List (String × List String)) (component_id : String)
    → item_of component_id (pc_systems table adrs claims)
      ≡ or_else
          (last_of (claims_in (resolve_system_ref table) component_id) adrs)
          (item_of component_id claims)
unfolding pc_systems
item_of-claims table [] claims component_id = refl
item_of-claims table (adr ∷ adrs) claims component_id =
    item_of-claims table adrs _ component_id
    ∙ ap (or_else (last_of (claims_in (resolve_system_ref table) component_id) adrs))
        (elim (Bool-cases (is_physical_component adr.adr_type)) [
          | inl e ↦ rw (e) (
              item_of-claim_each (map (resolve_system_ref table) adr.implements_system)
                adr.component_specifications claims component_id
              ∙ chosen (any (λ c. component_id_of c == component_id) adr.component_specifications) _
                  _)
          | inr e ↦ rw (e) refl
        ])
    ∙ sym (or_else_assoc (last_of (claims_in (resolve_system_ref table) component_id) adrs) _ _)
  where
    chosen :
        {A : Type 0} (p : Bool) (x : A) (y : Option A)
        → (if p then some x else y) ≡ or_else (if p then some x else none) y
    chosen true x y = refl
    chosen false x y = refl
