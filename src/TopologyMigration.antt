-- ===== src/TopologyMigration.antt =====
-- src/adr_kit/migrators/topology_identity.py: the plan of a migration. A document has the fields
-- that the migration reads, as YAML gave them.
mod Tests
pub mod Rewriting
pub mod Plan
pub mod Numbers
pub mod Fresh
pub mod References
pub mod Complete
use adr_architecture_kit.Base.{
  ℕ, zero, suc, ◌+◌, String, Option, none, some, List, [], ◌∷◌, ◌++◌, map, Bool, true, false, ◌==◌,
  not, ltb, if◌then◌else◌, Result, ok, raise, ◌>>=◌, contains, length, item_of, put, format,
  decimal, padded, sorted_set,
}

-- A field: not there, of another type, or a text.
pub data Value : Type 0 where
  absent other : Value
  text : String → Value

pub record TopologyComponent : Type 0 where
  pub id : Value
  pub name : Value

pub record TopologyEdge : Type 0 where
  pub source : Value
  pub target : Value

-- `none` is an element that is no mapping, or a field that is no list; a missing list is empty.
pub record ComponentTopology : Type 0 where
  pub components : Option (List (Option TopologyComponent))
  pub relationships : Option (List (Option TopologyEdge))

-- `none` is a topology that is no mapping, or a data flow that has no list as its path.
pub record TopologyDocument : Type 0 where
  pub adr_type : Value
  pub schema_version : Value
  pub component_topology : Option ComponentTopology
  pub data_flows : Option (List (Option (List Value)))

pub record TopologyMigrationChange : Type 0 where
  pub file_path : String
  pub pointer : String
  pub before : Value
  pub after : Value

-- The message is left out.
pub record TopologyMigrationDiagnostic : Type 0 where
  pub file_path : String
  pub pointer : String
  pub code : String

-- What a step reports.
pub record Report : Type 0 where
  pub changes : List TopologyMigrationChange
  pub diagnostics : List TopologyMigrationDiagnostic

infixl 5 ◌and◌
abbrev pub ◌and◌ : Report → Report → Report
r and s = record { changes = r.changes ++ s.changes; diagnostics = r.diagnostics ++ s.diagnostics }

abbrev pub nothing : Report
nothing = record { changes = []; diagnostics = [] }

abbrev pub is_value : Value → String → Bool
is_value (text value) expected = value == expected
is_value _ expected = false

unfoldable pub topology_id : ℕ → String
unfolding padded
topology_id number = format ("TOPO-" ∷ padded number ∷ [])

-- The `while` loop; `none` when the fuel does not do.
unfoldable pub free_number : List String → ℕ → ℕ → Option ℕ
unfolding topology_id
free_number used_ids zero number = none
free_number used_ids (suc fuel) number =
    let rest = free_number used_ids fuel (suc number) in
    if contains (topology_id number) used_ids then rest else some number

-- _next_id: the id, which the caller adds to the used ones.
unfoldable pub next_topology_id : List String → Option String
unfolding free_number
next_topology_id used_ids = elim (free_number used_ids (suc (length used_ids)) 1) [
  | none ↦ none
  | some number ↦ some (topology_id number)
]

abbrev pub pointer_to : List String → String
pointer_to parts = format parts

-- The first pass, over the components of a document. The keys of `id_locations` are `used_ids`.
unfoldable pub declare_components :
    String
    → ℕ
    → List (Option TopologyComponent)
    → List String
    → List String × List TopologyMigrationDiagnostic
declare_components path index [] used_ids = (used_ids, [])
declare_components path index (none ∷ components) used_ids =
    declare_components path (suc index) components used_ids
declare_components path index (some component ∷ components) used_ids = elim component.id [
  | absent ↦ declare_components path (suc index) components used_ids
  | other ↦ declare_components path (suc index) components used_ids
  | text id ↦
      let rest = declare_components path (suc index) components (id ∷ used_ids) in
      (
        rest.0,
        (if contains id used_ids
            then record {
              file_path = path;
              pointer = pointer_to ("/component_topology/components/" ∷ decimal index ∷ "/id" ∷ []);
              code = "duplicate_id";
            }
              ∷ rest.1
            else rest.1),
      )
]

-- topology.get("components", []) of a topology that is a mapping, if it is a list
abbrev pub components_of : TopologyDocument → List (Option TopologyComponent)
components_of document = elim document.component_topology [
  | none ↦ []
  | some topology ↦ elim topology.components [ none ↦ [] | some components ↦ components ]
]

unfoldable pub declare_all :
    List (String × TopologyDocument) → List String → List String × List TopologyMigrationDiagnostic
unfolding declare_components
declare_all [] used_ids = (used_ids, [])
declare_all (item ∷ documents) used_ids =
    let here = declare_components item.0 0 (components_of item.1) used_ids in
    let rest = declare_all documents here.0 in (rest.0, here.1 ++ rest.1)
