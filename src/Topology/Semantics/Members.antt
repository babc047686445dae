-- ===== src/Topology/Semantics/Members.antt =====
-- src/adr_kit/compiler/passes/topology_semantic_validation.py: which system a component is a member
-- of and which it claims, read off the documents. Where documents repeat an id, the last one counts.
use adr_architecture_kit.Base.{
  String, Option, none, some, List, [], ◌∷◌, map, true, ◌&&◌, ◌==◌, ◌≡◌, any, if◌then◌else◌,
  contains, All,
}
use adr_architecture_kit.Relationships.Documents.{PhysicalAdr}
use adr_architecture_kit.Relationships.Physical.{component_id_of}
use adr_architecture_kit.Topology.{is_physical_system}
use adr_architecture_kit.Topology.Semantics.{refs_of, is_physical_component}

abbrev pub or_else {ℓ} : {A : Type ℓ} → Option A → Option A → Option A
or_else none other = other
or_else (some x) other = some x

-- What the last element gives that gives something.
abbrev pub last_of {ℓ κ} : {A : Type ℓ} {B : Type κ} → (A → Option B) → List A → Option B
last_of f [] = none
last_of f (x ∷ xs) = or_else (last_of f xs) (f x)

abbrev pub or_empty : Option (List String) → List String
or_empty none = []
or_empty (some texts) = texts

-- The id of the system that the document with the id describes.
abbrev pub system_named : String → PhysicalAdr → Option String
system_named reference adr =
    if is_physical_system adr.adr_type && adr.id == reference then adr.system_id else none

-- A reference names a document of a system, or is the id of the system.
abbrev pub system_meant : List PhysicalAdr → String → String
system_meant adrs reference = elim (last_of (system_named reference) adrs) [
  | none ↦ reference
  | some system_id ↦ system_id
]

-- The components of a system, if the document describes it.
abbrev pub members_in : String → PhysicalAdr → Option (List String)
members_in system_id adr =
    if is_physical_system adr.adr_type
    then elim adr.system_id [
      | none ↦ none
      | some id ↦ if id == system_id then some (refs_of adr.topology_components) else none
    ]
    else none

-- The systems that a document claims for a component, if it specifies it.
abbrev pub claims_in : (String → String) → String → PhysicalAdr → Option (List String)
claims_in meant component_id adr =
    if is_physical_component adr.adr_type
      && any (λ c. component_id_of c == component_id) adr.component_specifications
    then some (map meant adr.implements_system)
    else none

-- Each member of a system claims it.
abbrev pub AreClaimed : List PhysicalAdr → Type 0
AreClaimed adrs =
    (system_id : String)
    → All
        (λ component_id.
          contains system_id (or_empty (last_of (claims_in (system_meant adrs) component_id) adrs))
          ≡ true)
        (or_empty (last_of (members_in system_id) adrs))
