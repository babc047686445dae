-- ===== src/Relationships/Traversal.antt =====
-- What every call of `add_relationship` and `add_gap` keeps, the pass keeps.
pub mod Physical
use adr_architecture_kit.Base.{
  ℕ, ◌+◌, String, Option, none, some, List, [], ◌∷◌, Bool, true, false, ◌||◌, ◌==◌, ◌≡◌, refl,
  if◌then◌else◌, Result, ok, raise, ◌>>=◌, All, format,
}
use adr_architecture_kit.Relationships.Documents.{
  Entity, SupersededBy, absent, single, several, SubstrateBinding, RuleBinding, EvidenceExpectation,
  Capability, InteractionContract, Decision, LogicalAdr, ComponentSpecification, TopologyComponent,
  TopologyRelationship, AdrType, physical, physical_system, physical_component, PhysicalAdr,
}
use adr_architecture_kit.Relationships.State.{
  Metadata, target_scope, allows_missing, DerivedGapSignal, Derivation, DerivationError, Step, skip,
  ◌then◌, when, each, each_from, known, Candidate, edge, derived_edge, add_relationship, add_gap,
}
use adr_architecture_kit.Relationships.Keeps.{
  Ends, Keeps, Keeps-skip, Keeps-then, Keeps-if, Keeps-when, Keeps-each, Keeps-each_from,
  Keeps-given, keeps_rules,
}
use adr_architecture_kit.Relationships.Bindings.{
  normalized_binding_reference, normalized_references, substrate_binding, rule_binding,
  evidence_expectation, bindings,
}
use adr_architecture_kit.Relationships.Logical.{
  explicit_edge, inverse_edge, pair, declared_in, supersedes, superseded_by_one, superseded_by,
  capability_edge, party_edge, invariant_edge, enabled_edge, decision_target, decision_edges,
  related_edge, logical_edges,
}

-- The types of the edges that come with their inverse.
abbrev pub is_dual : String → Bool
is_dual relationship_type =
    relationship_type == "supersedes"
    || relationship_type == "superseded_by"
    || relationship_type == "enables"
    || relationship_type == "enabled_by"

abbrev pub inverse_of : String → String
inverse_of relationship_type =
    if relationship_type == "supersedes"
    then "superseded_by"
    else if relationship_type == "superseded_by"
    then "supersedes"
    else if relationship_type == "enables"
    then "enabled_by"
    else "enables"

-- Only an edge with a `target_scope` may leave the entities.
abbrev pub IsScoped : Candidate → Type 0
IsScoped a = a.allow_nonlocal_target ≡ true → allows_missing (target_scope a.metadata) ≡ true

module _ (dumps : List String → String) (sha256_hex : String → String)
    (relationship_id : String → String → String → String) (entities : List Entity) where
  pub record Rules (P : Derivation → Type 0) (Allowed : String → Type 0) : Type 0 where
    pub gap : (item : DerivedGapSignal) → Keeps P (add_gap item)
    pub single_edge :
        (a : Candidate)
        → Allowed a.relationship_type
        → IsScoped a
        → Keeps P (add_relationship dumps sha256_hex relationship_id entities a)
    pub literal : (t : String) → is_dual t ≡ false → Allowed t
    pub both :
        (t from_id to_id source_ref : String) (evidence : List String)
        → is_dual t ≡ true
        → Keeps P (
            pair dumps sha256_hex relationship_id entities t
              (inverse_of t)
              from_id
              to_id
              source_ref
              evidence)

  module _ {P : Derivation → Type 0} {Allowed : String → Type 0} (R : Rules P Allowed) where
    abbrev relate : String → String → String → String → List String → Step
    relate = explicit_edge dumps sha256_hex relationship_id entities

    pub plain :
        (t from_id to_id source_ref : String) (evidence : List String)
        → is_dual t ≡ false
        → Keeps P (relate t from_id to_id source_ref evidence)
    unfolding explicit_edge
    plain t from_id to_id source_ref evidence h =
        R.single_edge (edge t from_id to_id source_ref evidence) (R.literal t h) (λ nonlocal. cc)

    pub declared_in-Keeps :
        (entity : Entity) → Keeps P (declared_in dumps sha256_hex relationship_id entities entity)
    unfolding declared_in
    declared_in-Keeps entity = search (keeps_rules, plain)

    pub supersedes-Keeps :
        (owner id source_ref target : String)
        → Keeps P (supersedes dumps sha256_hex relationship_id entities owner id source_ref target)
    unfolding supersedes
    supersedes-Keeps owner id source_ref target =
        Keeps-when _ _ (λ _. R.both "supersedes" id target source_ref (owner ∷ []) refl)

    pub superseded_by_one-Keeps :
        (adr_id target : String)
        → Keeps P (superseded_by_one dumps sha256_hex relationship_id entities adr_id target)
    unfolding superseded_by_one
    superseded_by_one-Keeps adr_id target =
        Keeps-when _ _ (λ _. R.both "superseded_by" adr_id target adr_id (adr_id ∷ []) refl)

    superseded_by-Keeps :
        (adr_id : String) (field : SupersededBy)
        → Keeps P (superseded_by dumps sha256_hex relationship_id entities adr_id field)
    unfolding superseded_by
    superseded_by-Keeps adr_id absent = Keeps-skip
    superseded_by-Keeps adr_id (single target) = search (keeps_rules, superseded_by_one-Keeps)
    superseded_by-Keeps adr_id (several targets) = search (keeps_rules, superseded_by_one-Keeps)

    capability_edge-Keeps :
        (adr : LogicalAdr) (capability : Capability) (component_id : String)
        → Keeps P
            (capability_edge dumps sha256_hex relationship_id entities adr capability component_id)
    unfolding capability_edge
    capability_edge-Keeps adr capability component_id = search (keeps_rules, plain, R.gap)

    party_edge-Keeps :
        (adr : LogicalAdr) (contract : InteractionContract) (party : String)
        → Keeps P (party_edge dumps sha256_hex relationship_id entities adr contract party)
    unfolding party_edge
    party_edge-Keeps adr contract party = search (keeps_rules, plain)

    invariant_edge-Keeps :
        (adr : LogicalAdr) (decision : Decision) (id : String)
        → Keeps P (invariant_edge dumps sha256_hex relationship_id entities adr decision id)
    unfolding invariant_edge
    invariant_edge-Keeps adr decision id = search (keeps_rules, plain, R.gap)

    enables-Keeps :
        (from_id to_id source_ref : String) (evidence : List String)
        → Keeps P (
            pair dumps sha256_hex relationship_id entities "enables" "enabled_by" from_id to_id
              source_ref evidence)
    enables-Keeps from_id to_id source_ref evidence =
        R.both "enables" from_id to_id source_ref evidence refl

    enabled_edge-Keeps :
        (adr : LogicalAdr) (decision : Decision) (id : String)
        → Keeps P (enabled_edge dumps sha256_hex relationship_id entities adr decision id)
    unfolding enabled_edge
    enabled_edge-Keeps adr decision id = search (keeps_rules, enables-Keeps, R.gap)

    decision_target-Keeps :
        (t : String) (adr : LogicalAdr) (decision : Decision) (target : String)
        → is_dual t ≡ false
        → Keeps P (decision_target dumps sha256_hex relationship_id entities t adr decision target)
    unfolding decision_target
    decision_target-Keeps t adr decision target h = search (keeps_rules, plain)

    decision_edges-Keeps :
        (adr : LogicalAdr) (decision : Decision)
        → Keeps P (decision_edges dumps sha256_hex relationship_id entities adr decision)
    unfolding decision_edges
    decision_edges-Keeps adr decision =
        search
          (
            keeps_rules, invariant_edge-Keeps, enabled_edge-Keeps, decision_target-Keeps,
            supersedes-Keeps,
          )
          depth 14

    related_edge-Keeps :
        (adr : LogicalAdr) (related : String)
        → Keeps P (related_edge dumps sha256_hex relationship_id entities adr related)
    unfolding related_edge
    related_edge-Keeps adr related = search (keeps_rules, plain)

    substrate_binding-Keeps :
        (adr : LogicalAdr) (index : ℕ) (binding : SubstrateBinding)
        → Keeps P (substrate_binding dumps sha256_hex relationship_id entities adr index binding)
    unfolding substrate_binding
    substrate_binding-Keeps adr index binding = Keeps-given _ _ λ _.
        Keeps-given _ _ λ references. R.single_edge _ (R.literal "binds_substrate" refl) (λ _. refl)

    rule_binding-Keeps :
        (adr : LogicalAdr) (index : ℕ) (binding : RuleBinding)
        → Keeps P (rule_binding dumps sha256_hex relationship_id entities adr index binding)
    unfolding rule_binding
    rule_binding-Keeps adr index binding =
        Keeps-given _ _ λ references. R.single_edge _ (R.literal "binds_rule" refl) (λ _. refl)

    evidence_expectation-Keeps :
        (adr : LogicalAdr) (index : ℕ) (item : EvidenceExpectation)
        → Keeps P (evidence_expectation dumps sha256_hex relationship_id entities adr index item)
    unfolding evidence_expectation
    evidence_expectation-Keeps adr index item =
        Keeps-given _ _
          λ references. R.single_edge _ (R.literal "expects_evidence" refl) (λ _. refl)

    bindings-Keeps :
        (adr : LogicalAdr) → Keeps P (bindings dumps sha256_hex relationship_id entities adr)
    unfolding bindings
    bindings-Keeps adr =
        search
          (keeps_rules, substrate_binding-Keeps, rule_binding-Keeps, evidence_expectation-Keeps)

    pub logical_edges-Keeps :
        (adr : LogicalAdr) → Keeps P (logical_edges dumps sha256_hex relationship_id entities adr)
    unfolding logical_edges
    logical_edges-Keeps adr =
        search
          (
            keeps_rules, related_edge-Keeps, supersedes-Keeps, superseded_by-Keeps,
            capability_edge-Keeps, party_edge-Keeps, decision_edges-Keeps, bindings-Keeps,
          )
          depth 20
