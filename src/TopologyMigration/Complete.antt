-- ===== src/TopologyMigration/Complete.antt =====
-- src/adr_kit/migrators/topology_identity.py: a plan is made, and it is complete or blocked.
use adr_architecture_kit.Base.{
  count-append, ◌≤◌, String, Option, none, some, List, [], ◌∷◌, ◌++◌, Bool, true, false, ◌&&◌, map,
  ◌≡◌, ◌≢◌, refl, ◌⊎◌, inl, inr, arith, Bool-cases, if◌then◌else◌, sorted_set, count, filter, All,
  any, contains, distinct, item_of, ◌==◌, ◌||◌, any-sort_with, sym, ap, ◌∙◌, eq_iff, Option-cases,
}
use adr_architecture_kit.TopologyMigration.{
  Value, text, TopologyComponent, TopologyEdge, ComponentTopology, TopologyDocument,
  TopologyMigrationChange, Report, ◌and◌, nothing, is_value, components_of, declare_all,
}
use adr_architecture_kit.TopologyMigration.Plan.{
  if_list, Migrated, rewrite_document, migrate_document, migrate_documents, TopologyMigrationPlan,
  changed_documents, plan,
}
use adr_architecture_kit.TopologyMigration.Rewriting.{
  changed, candidates_for, candidates_of, rewrite_edges, rewrite_flows,
}
use adr_architecture_kit.TopologyMigration.Fresh.{
  ids_of, HasId, seen, Balanced, all_ids, append-empty, allocate_ids-IsFresh, declare_all-once,
}
use adr_architecture_kit.TopologyMigration.References.{
  AreEnds, IsFlow, AreAmong, candidates_of-AreAmong, rewrite_edges-AreEnds, rewrite_flows-IsFlow,
}

abbrev pub items_of : {A : Type 0} → Option (List A) → List A
items_of none = []
items_of (some items) = items

abbrev pub edges_of : TopologyDocument → List (Option TopologyEdge)
edges_of document = elim document.component_topology [
  | none ↦ []
  | some topology ↦ items_of topology.relationships
]

-- A physical system with a list of components.
abbrev pub is_migrated : TopologyDocument → Bool
is_migrated document =
    is_value document.adr_type "physical-system" && (elim document.component_topology [
      | none ↦ false
      | some topology ↦ elim topology.components [ none ↦ false | some _ ↦ true ]
    ])

-- Each component has an id, and each reference is one of the ids.
unfoldable pub IsComplete : TopologyDocument → Type 0
IsComplete document =
    All HasId (components_of document)
    × All (AreEnds (ids_of (components_of document))) (edges_of document)
    × All (IsFlow (ids_of (components_of document))) (items_of document.data_flows)

abbrev Migrates : String → TopologyDocument → List String → Type 0
Migrates path document used_ids =
    (m : Migrated) × (migrate_document path document used_ids ≡ some m)
    × Balanced (ids_of (components_of document)) used_ids (ids_of (components_of m.document))
        m.used_ids
    × (is_migrated m.document ≡ true → m.report.diagnostics ≡ [] → IsComplete m.document)

module _ (path : String) (components : List (Option TopologyComponent)) where
  abbrev found : List (String × List String)
  found = candidates_of components []

  among : AreAmong (ids_of components) found
  unfolding candidates_for
  among =
      candidates_of-AreAmong (ids_of components) components [] (λ x c. c)
        (λ key id c. absurd (cc (c)))

  edges_complete :
      (relationships : Option (List (Option TopologyEdge)))
      → (if_list (rewrite_edges path found 0) relationships).1.diagnostics ≡ []
      → All
          (AreEnds (ids_of components))
          (items_of (if_list (rewrite_edges path found 0) relationships).0)
  edges_complete none quiet = tt
  edges_complete (some edges) quiet =
      rewrite_edges-AreEnds path found (ids_of components) among 0 edges quiet

  flows_complete :
      (flows : Option (List (Option (List Value))))
      → (if_list (rewrite_flows path found 0) flows).1.diagnostics ≡ []
      → All (IsFlow (ids_of components)) (items_of (if_list (rewrite_flows path found 0) flows).0)
  flows_complete none quiet = tt
  flows_complete (some flows) quiet =
      rewrite_flows-IsFlow path found (ids_of components) among 0 flows quiet

-- A document that stays as it is.
stays :
    (path : String) (document : TopologyDocument) (used_ids : List String)
    → is_migrated document ≡ false
    → migrate_document path document used_ids
      ≡ some (record { document = document; used_ids = used_ids; report = nothing })
    → Migrates path document used_ids
stays path document used_ids e returned = (
  record { document = document; used_ids = used_ids; report = nothing },
  returned,
  λ x. refl,
  λ h quiet. absurd (cc (e, h)),
)

abbrev document_of :
    Value
    → Value
    → Option ComponentTopology
    → Option (List (Option (List Value)))
    → TopologyDocument
document_of adr_type version topology flows = record {
  adr_type = adr_type;
  schema_version = version;
  component_topology = topology;
  data_flows = flows;
}

migrate_system :
    (path : String) (adr_type version : Value) (flows : Option (List (Option (List Value))))
    (components : List (Option TopologyComponent))
    (relationships : Option (List (Option TopologyEdge))) (used_ids : List String)
    → is_value adr_type "physical-system" ≡ true
    → Migrates path
        (document_of adr_type version
          (some (record { components = some components; relationships = relationships }))
          flows)
        used_ids
unfolding migrate_document rewrite_document IsComplete
migrate_system path adr_type version flows components relationships used_ids e =
    let (a, returned, balanced, all, quiet) = allocate_ids-IsFresh path 0 components used_ids in
    let topology : ComponentTopology = record {
      components = some components;
      relationships = relationships;
    } in
    let document = document_of adr_type version (some topology) flows in
    let reported : Report =
      if is_value version "1.2"
      then nothing
      else changed path "/schema_version" version (text "1.2") in
    (
      rewrite_document path document topology a reported,
      rw (e, returned, migrate_document) refl,
      balanced,
      λ h reports.
          let (before, flows_quiet) = append-empty _ _ reports in
          let (_, edges_quiet) = append-empty _ _ before in
          (
            all,
            edges_complete path a.components relationships edges_quiet,
            flows_complete path a.components flows flows_quiet,
          ),
    )

migrate_topology :
    (path : String) (adr_type version : Value) (flows : Option (List (Option (List Value))))
    (components : Option (List (Option TopologyComponent)))
    (relationships : Option (List (Option TopologyEdge))) (used_ids : List String)
    → is_value adr_type "physical-system" ≡ true
    → Migrates path
        (document_of adr_type version
          (some (record { components = components; relationships = relationships }))
          flows)
        used_ids
unfolding migrate_document
migrate_topology path adr_type version flows none relationships used_ids e =
    stays path
      (document_of adr_type version
        (some (record { components = none; relationships = relationships })) flows)
      used_ids (rw (e) refl) (rw (e, migrate_document) refl)
migrate_topology path adr_type version flows (some components) relationships used_ids e =
    migrate_system path adr_type version flows components relationships used_ids e

migrate_one :
    (path : String) (adr_type version : Value) (topology : Option ComponentTopology)
    (flows : Option (List (Option (List Value)))) (used_ids : List String)
    → Migrates path (document_of adr_type version topology flows) used_ids
unfolding migrate_document
migrate_one path adr_type version none flows used_ids =
    elim (Bool-cases (is_value adr_type "physical-system")) [
      | inl e ↦
          stays path (document_of adr_type version none flows) used_ids (rw (e) refl)
            (rw (e, migrate_document) refl)
      | inr e ↦
          stays path (document_of adr_type version none flows) used_ids (rw (e) refl)
            (rw (e, migrate_document) refl)
    ]
migrate_one path adr_type version (some topology) flows used_ids =
    elim (Bool-cases (is_value adr_type "physical-system")) [
      | inl e ↦
          migrate_topology path adr_type version flows topology.components topology.relationships
            used_ids e
      | inr e ↦
          stays path (document_of adr_type version (some topology) flows) used_ids (rw (e) refl)
            (rw (e, migrate_document) refl)
    ]

unfoldable pub AreComplete : List (String × TopologyDocument) → Type 0
AreComplete documents =
    All (λ item. IsComplete item.1) (filter (λ item. is_migrated item.1) documents)

complete_first :
    (item : String × TopologyDocument) (documents : List (String × TopologyDocument))
    → (is_migrated item.1 ≡ true → IsComplete item.1)
    → AreComplete documents
    → AreComplete (item ∷ documents)
unfolding AreComplete
complete_first item documents h later = elim (Bool-cases (is_migrated item.1)) [
  | inl e ↦ rw (e) (h e, later)
  | inr e ↦ rw (e) later
]

migrate_all :
    (documents : List (String × TopologyDocument)) (used_ids : List String)
    → (migrated : List (String × TopologyDocument)) × (used : List String) × (report : Report)
      × (migrate_documents documents used_ids ≡ some (migrated, used, report))
      × Balanced (all_ids documents) used_ids (all_ids migrated) used
      × (report.diagnostics ≡ [] → AreComplete migrated)
unfolding migrate_documents AreComplete
migrate_all [] used_ids = ([], used_ids, nothing, refl, (λ x. refl), λ quiet. tt)
migrate_all (item ∷ documents) used_ids =
    let document = item.1 in
    let (m, here, balanced, complete) =
      migrate_one item.0 document.adr_type document.schema_version document.component_topology
        document.data_flows used_ids in
    let (rest, used, report, there, balanced', complete') = migrate_all documents m.used_ids in
    (
      (item.0, m.document) ∷ rest,
      used,
      m.report and report,
      rw (here, there, migrate_documents) refl,
      (λ x. omega (
        arith,
        balanced x,
        balanced' x,
        count-append x (ids_of (components_of document)) (all_ids documents),
        count-append x (ids_of (components_of m.document)) (all_ids rest),
      )),
      λ quiet.
          let (first, later) = append-empty m.report.diagnostics report.diagnostics quiet in
          complete_first (item.0, m.document) rest (λ h. complete h first) (complete' later),
    )

empty_or {ℓ} : {A : Type ℓ} (xs : List A) → (xs ≡ []) ⊎ (xs ≢ [])
empty_or [] = inl refl
empty_or (x ∷ xs) = inr (λ h. cc (h))

seen-le : (x : String) (ids : List String) → seen x ids ≤ 1
seen-le x ids = ground arith

-- A change is reported for the file.
abbrev pub has_change : String → List TopologyMigrationChange → Bool
has_change path changes = any (λ change. change.file_path == path) changes

contains-distinct : (x : String) (xs : List String) → contains x (distinct xs) ≡ contains x xs
unfolding distinct
contains-distinct x [] = refl
contains-distinct x (y ∷ ys) = elim (Bool-cases (contains y ys)) [
  | inl e ↦ elim (Bool-cases (y == x)) [
    | inl f ↦
        let there : contains x ys ≡ true = ap (λ z. contains z ys) (sym ((eq_iff y x).0 f)) ∙ e in
        rw (e, f) (contains-distinct x ys ∙ there)
    | inr f ↦ rw (e, f) (contains-distinct x ys)
  ]
  | inr e ↦ rw (e) (ap (λ b. (y == x) || b) (contains-distinct x ys))
]

contains-changed_files :
    (path : String) (changes : List TopologyMigrationChange)
    → contains path (sorted_set (map (λ change. change.file_path) changes))
      ≡ has_change path changes
unfolding sorted_set
contains-changed_files path changes =
    any-sort_with _ (λ y. y == path) (distinct (map (λ change. change.file_path) changes))
    ∙ contains-distinct path (map (λ change. change.file_path) changes)
    ∙ over changes
  where
    over :
        (changes : List TopologyMigrationChange)
        → contains path (map (λ change. change.file_path) changes) ≡ has_change path changes
    over [] = refl
    over (change ∷ changes) = ap (λ b. change.file_path == path || b) (over changes)

item_of-changed_documents :
    (path : String) (files : List String) (documents : List (String × TopologyDocument))
    → item_of path (changed_documents files documents)
      ≡ (if contains path files then item_of path documents else none)
unfolding changed_documents
item_of-changed_documents path [] documents = refl
item_of-changed_documents path (file ∷ files) documents =
    let later = item_of-changed_documents path files documents in
    elim (Bool-cases (file == path)) [
      | inl e ↦
          let same : file ≡ path = (eq_iff file path).0 e in
          elim (Option-cases (item_of path documents)) [
            | inl f ↦
                let missing : item_of file documents ≡ none =
                  ap (λ x. item_of x documents) same ∙ f in
                rw (missing, e, changed_documents) (later ∙ rw (f) (either _))
            | inr (document, f) ↦
                let found : item_of file documents ≡ some document =
                  ap (λ x. item_of x documents) same ∙ f in
                rw (found, e, changed_documents) (sym f)
          ]
      | inr e ↦ elim (Option-cases (item_of file documents)) [
        | inl f ↦ rw (f, e, changed_documents) later
        | inr (document, f) ↦ rw (f, e, changed_documents) later
      ]
    ]
  where
    either : (b : Bool) → ◌≡◌ {A = Option TopologyDocument} (if b then none else none) none
    either true = refl
    either false = refl

-- A plan is always made, and has the changes of the migration. A file is a changed one exactly if a
-- change is reported for it, and the documents of the plan are the migrated ones of the changed
-- files. Either the plan has a diagnostic, or no id is given twice in all documents, and in each
-- migrated physical system each component has an id and each reference is the id of one of its
-- components.
pub plan-AreComplete :
    (documents : List (String × TopologyDocument))
    → (p : TopologyMigrationPlan) × (migrated : List (String × TopologyDocument)) × (used : List
        String)
      × (report : Report) × (migrate_documents documents (declare_all documents []).0
          ≡ some (migrated, used, report))
      × (plan documents ≡ some p)
      × (p.changes ≡ report.changes)
      × ((path : String) → contains path p.changed_files ≡ has_change path p.changes)
      × ((path : String)
          → item_of path p.documents
            ≡ (if has_change path p.changes then item_of path migrated else none))
      × ((p.diagnostics ≢ [])
          ⊎ (((x : String) → count x (all_ids migrated) ≤ 1) × AreComplete migrated))
unfolding plan
plan-AreComplete documents =
    let declared = declare_all documents [] in
    let (migrated, used, report, returned, balanced, complete) = migrate_all documents declared.0 in
    let changed_files = sorted_set (map (λ change. change.file_path) report.changes) in
    let diagnostics = declared.1 ++ report.diagnostics in
    (
      record {
        changes = report.changes;
        diagnostics = diagnostics;
        changed_files = changed_files;
        documents = changed_documents changed_files migrated;
      },
      migrated,
      used,
      report,
      returned,
      rw (returned, plan) refl,
      refl,
      (λ path. contains-changed_files path report.changes),
      (λ path.
          item_of-changed_documents path changed_files migrated
          ∙ ap (λ b. if b then item_of path migrated else none)
              (contains-changed_files path report.changes)),
      elim (empty_or diagnostics) [
        | inr some_one ↦ inl some_one
        | inl e ↦
            let (once, quiet) = append-empty declared.1 report.diagnostics e in
            inr (
              λ x. omega (arith, balanced x, declare_all-once documents [] once x, seen-le x used),
              complete quiet,
            )
      ],
    )
