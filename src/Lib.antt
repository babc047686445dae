-- ===== src/Lib.antt =====
-- ADR Architecture Kit: the compiler of architecture decision records, and its integrity kernel.
--
-- The kit reads ADR documents (YAML), compiles them to a model of entities and relationships, and
-- writes registries and projections. The model follows the Python package src/adr_kit.
--
-- Parts and files:
--   Transaction: src/adr_kit/integrity/transaction.py. `commit_all_or_none` writes a set of files
--     all or none, through a journal; `recover_interrupted_commit` undoes a commit that a crash cut
--     off. An action is a function of a state (Transaction/State.antt: the project's files, the
--     journal's staging, overlay, backups and manifest, the temporary files) that returns or raises.
--     Faults of the operating system and injected ones come from an oracle `fault` over the number of
--     the call and its phase; the validator of the staged tree is a function `accepts`; pathlib's
--     `root / path` is `at_root`. Handler.antt is about what follows the loop. The making of
--     directories, the reads of the state and of contents that were just written do not fail, a
--     refused write leaves its file as it was, and `recover_interrupted_commit` meets no fault of the
--     system. Time stamps and the concurrency of two commits are not modelled.
--   IntegrityHeaders: the headers of src/adr_kit/integrity/core.py, built and parsed.
--   Relationships: src/adr_kit/compiler/passes/derive_relationships.py. The pass is a sequence of
--     steps on relationships and gaps, each of which may raise; `add_relationship` and `add_gap` are
--     the only ones that change them. Documents.antt has the fields that the pass reads,
--     Bindings.antt the external bindings, Logical.antt and Physical.antt the edges of the two kinds
--     of ADRs, Derive.antt the pass. Traversal.antt shows once and for all that what these two
--     functions keep, the pass keeps. json.dumps and sha256 are the arguments `dumps` and
--     `sha256_hex`, of which nothing is assumed, and `relationship_id` is an argument as in the
--     source. `confidence` is a percentage.
--   NeighborPaths: src/adr_kit/compiler/backend/neighbor_paths.py. NeighborPaths.antt has
--     `_structural_distance`, a breadth-first search by rounds on a state, Selection.antt the enumeration
--     and the selection of the paths. The argument `iterate` gives the elements of a set in the order of
--     Python. Walks (Rounds.antt) and peers (Peers.antt) are described apart from the code.
--   TopologyMigration: `plan` of src/adr_kit/migrators/topology_identity.py, over the documents as YAML
--     gave them; Rewriting.antt has the references, Plan.antt the passes; Numbers.antt is about
--     `_next_id`, Fresh.antt about the ids, References.antt and Complete.antt about the plan.
--   ScopeResolver: src/adr_kit/scope/resolver.py, over resolved paths as lists of names. What the disk
--     has, and what pathlib and yaml make of it, is a record `Disk`.
--   PostImages: `build_amend_post_image` of src/adr_kit/promotion/candidates.py, up to the dump.
--   Topology: src/adr_kit/compiler/passes/topology_resolution.py, and in Topology/Semantics.antt
--     topology_semantic_validation.py beside it, whose members and claims Topology/Semantics/Members.antt
--     reads off the documents. Both read the documents of Relationships. Edges.antt
--     takes the resolution and the derivation together.
--   CanonicalInvariants: src/adr_kit/compiler/passes/resolve_invariant_canonical.py.
--   Compiler: the stores of src/adr_kit/compiler/ir; in Compiler/Pipeline.antt the state of
--     src/adr_kit/compiler/pipeline.py, its methods and some of its passes. Stores.antt is about one
--     store, Filling.antt about what whole runs put into the stores.
--   BundleValidation: src/adr_kit/compiler/passes/validate_bundle.py and the log of
--     src/adr_kit/compiler/diagnostics.py. The checks are functions on the log.
--   AdrNumbers: `next_id` of src/adr_kit/repository/architecture_repository.py, over the documents as
--     they were read and the file of the high-water marks as a value. Order.antt is about one call,
--     History.antt about all calls over the life of a repository.
--   Allocation: src/adr_kit/promotion/allocation.py. The loop over the band is a recursion on the
--     count of the numbers that are left, normal_end + 1 - normal_start of them. The files that
--     `_scan_ids` reads are not modelled: the ids that are in use are arguments.
--   AliasHistory: the ledger of src/adr_kit/promotion/invariant_alias_history.py, as it was read.
--   Identity: src/adr_kit/_uuidv7.py, the patterns and URIs of src/adr_kit/identity.py and
--     src/adr_kit/repository/provider_registry.py. uuid.UUID and str.lower are arguments.
--   SemanticExtensions: src/adr_kit/semantic_extensions.py, types and registrations.
--   Base: numbers, texts, tuples, lists, dictionaries, sorting, exceptions. Where patterns are matched,
--     a text is the list of its code points (Codes.antt). Digits are the ASCII ones.
--
-- The compiler's pipeline resolves the invariants and the topologies, derives the relationships from the
-- extracted entities, fills its graph with them, checks the topology of the graph and validates the
-- bundle of the registries built from it; outputs are written through the transaction. A promotion
-- allocates the ids of the decisions and invariants it adds and commits its files by a transaction.
--
-- Not modelled: parsing and schema validation by libraries, rendering, the command line, the api and
-- the extraction of entities from documents.
--
-- Loops are recursions on a list or on a count, but for two `while` loops on fuel. The search of
-- NeighborPaths has a round for each origin and for each end of a relationship, since a node is
-- queued once; the search for a free topology number has one round more than there are used ids. Both
-- are shown to end. `decimal n` has n + 1 digits at its disposal.
mod Base
pub mod Transaction
pub mod NeighborPaths
pub mod TopologyMigration
pub mod ScopeResolver
pub mod PostImages
pub mod Relationships
pub mod Allocation
pub mod BundleValidation
pub mod Identity
pub mod IntegrityHeaders
pub mod SemanticExtensions
pub mod AdrNumbers
pub mod AliasHistory
pub mod CanonicalInvariants
pub mod Compiler
pub mod Topology
