-- ===== src/TopologyMigration/Tests.antt =====
-- src/adr_kit/migrators/topology_identity.py: a plan, and the theorem at a concrete input.
use adr_architecture_kit.Base.{
  padded, ◌≤◌, String, Option, none, some, List, [], ◌∷◌, ◌≡◌, ◌≢◌, refl, ◌⊎◌, count, map, contains,
  item_of, if◌then◌else◌, sorted_set, distinct, sort_with, insert_with, decimal, digits, digit,
}
use adr_architecture_kit.TopologyMigration.{
  Value, absent, text, TopologyDocument, Report, declare_components, declare_all, next_topology_id,
  free_number, topology_id,
}
use adr_architecture_kit.TopologyMigration.Plan.{
  TopologyMigrationPlan, allocate_ids, rewrite_document, migrate_document, migrate_documents,
  changed_documents, plan,
}
use adr_architecture_kit.TopologyMigration.Rewriting.{
  candidates_for, append_candidate, add_candidate, candidates_of, resolve_matches, resolve,
  is_changed, rewrite_reference, rewrite_field, rewrite_edges, rewrite_path, rewrite_flows,
}
use adr_architecture_kit.TopologyMigration.Fresh.{all_ids}
use adr_architecture_kit.TopologyMigration.Complete.{AreComplete, has_change, plan-AreComplete}

-- The second component has no id yet; the edge names both components by their names.
abbrev system : TopologyDocument
system = record {
  adr_type = text "physical-system";
  schema_version = text "1.1";
  component_topology = some (record {
    components = some (
        some (record { id = text "TOPO-0001"; name = text "api" })
        ∷ some (record { id = absent; name = text "store" })
        ∷ []);
    relationships = some (some (record { source = text "api"; target = text "store" }) ∷ []);
  });
  data_flows = some (some (text "api" ∷ text "TOPO-0001" ∷ []) ∷ []);
}

abbrev corpus : List (String × TopologyDocument)
corpus = ("adrs/physical-system/ADR-PS-0001.yaml", system) ∷ []

abbrev outcome : Option TopologyMigrationPlan → List Value
outcome none = []
outcome (some p) = map (λ change. change.after) p.changes

abbrev codes_of : Option TopologyMigrationPlan → List String
codes_of none = "none" ∷ []
codes_of (some p) = map (λ diagnostic. diagnostic.code) p.diagnostics

rewrites :
    (outcome (plan corpus)
      ≡ text "1.2" ∷ text "TOPO-0002" ∷ text "TOPO-0001" ∷ text "TOPO-0002" ∷ text "TOPO-0001" ∷ [])
    × (codes_of (plan corpus) ≡ [])
unfolding plan declare_all declare_components migrate_documents migrate_document rewrite_document
    allocate_ids next_topology_id free_number topology_id padded decimal digits digit candidates_of
    add_candidate append_candidate candidates_for rewrite_edges rewrite_flows rewrite_path
    rewrite_field rewrite_reference is_changed resolve resolve_matches changed_documents sorted_set
    distinct sort_with insert_with
rewrites = (refl, refl)

plan-AreComplete_example :
    (p : TopologyMigrationPlan) × (migrated : List (String × TopologyDocument)) × (used : List
      String)
    × (report : Report) × (migrate_documents corpus (declare_all corpus []).0
        ≡ some (migrated, used, report))
    × (plan corpus ≡ some p)
    × (p.changes ≡ report.changes)
    × ((path : String) → contains path p.changed_files ≡ has_change path p.changes)
    × ((path : String)
        → item_of path p.documents
          ≡ (if has_change path p.changes then item_of path migrated else none))
    × ((p.diagnostics ≢ [])
        ⊎ (((x : String) → count x (all_ids migrated) ≤ 1) × AreComplete migrated))
plan-AreComplete_example = plan-AreComplete corpus
