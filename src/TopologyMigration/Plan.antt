-- ===== src/TopologyMigration/Plan.antt =====
-- src/adr_kit/migrators/topology_identity.py: the second pass of the plan, and its application.
use adr_architecture_kit.Base.{
  ℕ, suc, String, Option, none, some, List, [], ◌∷◌, ◌++◌, map, if◌then◌else◌, item_of, decimal,
  sorted_set,
}
use adr_architecture_kit.TopologyMigration.{
  absent, other, text, TopologyComponent, ComponentTopology, TopologyDocument,
  TopologyMigrationChange, TopologyMigrationDiagnostic, Report, ◌and◌, nothing, is_value,
  next_topology_id, pointer_to, declare_all,
}
use adr_architecture_kit.TopologyMigration.Rewriting.{
  changed, candidates_of, rewrite_edges, rewrite_flows,
}

pub record Allocated : Type 0 where
  pub components : List (Option TopologyComponent)
  pub used_ids : List String
  pub report : Report

-- A component that stays as it is.
abbrev pub kept : Option TopologyComponent → Option Allocated → Option Allocated
kept component none = none
kept component (some rest) = some (record rest { components = component ∷ rest.components })

-- A component that is given an id.
abbrev pub given : TopologyComponent → String → Report → Option Allocated → Option Allocated
given component id report none = none
given component id report (some rest) = some (record {
  components = some (record component { id = text id }) ∷ rest.components;
  used_ids = rest.used_ids;
  report = report and rest.report;
})

abbrev pub id_change : String → ℕ → String → Report
id_change path index id =
    changed path (pointer_to ("/component_topology/components/" ∷ decimal index ∷ "/id" ∷ []))
      absent (text id)

-- The loop that allocates the ids of a document.
unfoldable pub allocate_ids :
    String → ℕ → List (Option TopologyComponent) → List String → Option Allocated
unfolding next_topology_id
allocate_ids path index [] used_ids =
    some (record { components = []; used_ids = used_ids; report = nothing })
allocate_ids path index (none ∷ components) used_ids =
    kept none (allocate_ids path (suc index) components used_ids)
allocate_ids path index (some component ∷ components) used_ids =
    let missing : Option Allocated = elim (next_topology_id used_ids) [
      | none ↦ none
      | some id ↦
          given component id (id_change path index id)
            (allocate_ids path (suc index) components (id ∷ used_ids))
    ] in
    elim component.id [
      | absent ↦ missing
      | other ↦ missing
      | text id ↦ kept (some component) (allocate_ids path (suc index) components used_ids)
    ]

-- What is done where a field is a list.
abbrev pub if_list :
    {A : Type 0} → (List A → List A × Report) → Option (List A) → Option (List A) × Report
if_list rewrite none = (none, nothing)
if_list rewrite (some items) = let rewritten = rewrite items in (some rewritten.0, rewritten.1)

pub record Migrated : Type 0 where
  pub document : TopologyDocument
  pub used_ids : List String
  pub report : Report

-- The references of a document whose components have their ids.
unfoldable pub rewrite_document :
    String → TopologyDocument → ComponentTopology → Allocated → Report → Migrated
unfolding candidates_of rewrite_edges rewrite_flows
rewrite_document path document topology allocated version =
    let candidates = candidates_of allocated.components [] in
    let edges = if_list (rewrite_edges path candidates 0) topology.relationships in
    let flows = if_list (rewrite_flows path candidates 0) document.data_flows in
    record {
      document = record {
        adr_type = document.adr_type;
        schema_version = text "1.2";
        component_topology =
            some (record { components = some allocated.components; relationships = edges.0 });
        data_flows = flows.0;
      };
      used_ids = allocated.used_ids;
      report = version and allocated.report and edges.1 and flows.1;
    }

-- The body of the second loop over the documents.
unfoldable pub migrate_document : String → TopologyDocument → List String → Option Migrated
unfolding allocate_ids rewrite_document
migrate_document path document used_ids =
    let same = some (record { document = document; used_ids = used_ids; report = nothing }) in
    if is_value document.adr_type "physical-system"
    then elim document.component_topology [
      | none ↦ same
      | some topology ↦ elim topology.components [
        | none ↦ same
        | some components ↦ elim (allocate_ids path 0 components used_ids) [
          | none ↦ none
          | some allocated ↦ some (
              rewrite_document path document topology allocated (
                if is_value document.schema_version "1.2"
                then nothing
                else changed path "/schema_version" document.schema_version (text "1.2")))
        ]
      ]
    ]
    else same

unfoldable pub migrate_documents :
    List (String × TopologyDocument)
    → List String
    → Option (List (String × TopologyDocument) × List String × Report)
unfolding migrate_document
migrate_documents [] used_ids = some ([], used_ids, nothing)
migrate_documents (item ∷ documents) used_ids = elim (migrate_document item.0 item.1 used_ids) [
  | none ↦ none
  | some here ↦ elim (migrate_documents documents here.used_ids) [
    | none ↦ none
    | some rest ↦ some ((item.0, here.document) ∷ rest.0, rest.1, here.report and rest.2)
  ]
]

pub record TopologyMigrationPlan : Type 0 where
  pub changes : List TopologyMigrationChange
  pub diagnostics : List TopologyMigrationDiagnostic
  pub changed_files : List String
  pub documents : List (String × TopologyDocument)

-- {path: documents[path] for path in changed_files}; each of these files has a document.
unfoldable pub changed_documents :
    List String → List (String × TopologyDocument) → List (String × TopologyDocument)
changed_documents [] documents = []
changed_documents (path ∷ paths) documents =
    let rest = changed_documents paths documents in
    elim (item_of path documents) [ none ↦ rest | some document ↦ (path, document) ∷ rest ]

-- `none` stands for a search without fuel enough.
unfoldable pub plan : List (String × TopologyDocument) → Option TopologyMigrationPlan
unfolding declare_all migrate_documents changed_documents
plan source_documents =
    let declared = declare_all source_documents [] in
    elim (migrate_documents source_documents declared.0) [
      | none ↦ none
      | some migrated ↦
          let changed_files = sorted_set (map (λ change. change.file_path) migrated.2.changes) in
          some (record {
            changes = migrated.2.changes;
            diagnostics = declared.1 ++ migrated.2.diagnostics;
            changed_files = changed_files;
            documents = changed_documents changed_files migrated.0;
          })
    ]
