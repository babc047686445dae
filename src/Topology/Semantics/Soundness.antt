-- ===== src/Topology/Semantics/Soundness.antt =====
-- src/adr_kit/compiler/passes/topology_semantic_validation.py: what the check accepts.
use adr_architecture_kit.Base.{
  String, some, List, [], ◌∷◌, Bool, true, false, not, ◌&&◌, ◌||◌, ◌==◌, ◌≡◌, refl, ◌↔◌, arith, ok,
  raise, ◌>>◌, passes_iff, contains, All,
}
use adr_architecture_kit.Relationships.Documents.{PhysicalAdr}
use adr_architecture_kit.Relationships.State.{target_scope, allows_missing}
use adr_architecture_kit.Compiler.{IrEntity, IrRelationship, entity_id, is_some, values}
use adr_architecture_kit.Topology.{topology_verbs, is_text, is_empty}
use adr_architecture_kit.Topology.Components.{is_text_iff}
use adr_architecture_kit.Topology.Semantics.Members.{AreClaimed}
use adr_architecture_kit.Topology.Semantics.Claims.{members_iff}
use adr_architecture_kit.Topology.Semantics.{
  Check, is_topo, type_of, check_identities, is_explicit, check_relationship, check_each,
  memberships, pc_systems, claimed, check_member, check_members, no_memberships,
  validate_ir_topology_semantics,
}

-- No end is a handle, each is an entity unless the target may be missing, and the types of the ends
-- fit: a system is composed of components, and a verb joins components and was authored.
abbrev pub IsSoundRelationship : List IrEntity → IrRelationship → Type 0
IsSoundRelationship graph r =
    (is_topo r.from_entity_id ≡ false)
    × (is_topo r.to_entity_id ≡ false)
    × (is_some (type_of graph r.from_entity_id) ≡ true)
    × ((is_some (type_of graph r.to_entity_id) || allows_missing (target_scope r.metadata)) ≡ true)
    × ((r.relationship_type == "composed_of") ≡ true
        → (type_of graph r.from_entity_id ≡ some "system")
          × (type_of graph r.to_entity_id ≡ some "component"))
    × (contains r.relationship_type topology_verbs ≡ true
        → (type_of graph r.from_entity_id ≡ some "component")
          × (type_of graph r.to_entity_id ≡ some "component")
          × (is_explicit r.provenance_classification ≡ true))
    × ((r.relationship_type == "consumes_interface") ≡ false)

-- Each member of a system is a component that claims the system.
abbrev HasClaims : List (String × List String) → String × List String → Type 0
HasClaims claims entry =
    All (λ component_id. contains entry.0 (claimed claims component_id) ≡ true) entry.1

and_then : (m k : Check) → ((m >> k) ≡ ok tt) ↔ ((m ≡ ok tt) × (k ≡ ok tt))
and_then (ok tt) k = (λ h. (refl, h), λ h. h.1)
and_then (raise e) k = (λ h. absurd (cc), λ h. absurd (cc))

check_each_iff {ℓ κ} :
    {A : Type ℓ} (f : A → Check) (P : A → Type κ) (xs : List A)
    → ((x : A) → (f x ≡ ok tt) ↔ P x)
    → (check_each f xs ≡ ok tt) ↔ All P xs
unfolding check_each
check_each_iff f P [] each = (λ h. tt, λ h. refl)
check_each_iff f P (x ∷ xs) each =
    let here = and_then (f x) (check_each f xs) in
    let later = check_each_iff f P xs each in
    (
      λ h. ((each x).0 (here.0 h).0, later.0 (here.0 h).1),
      λ h. here.1 ((each x).1 h.0, later.1 h.1),
    )

check_identities_iff :
    (entities : List IrEntity)
    → (check_identities entities ≡ ok tt) ↔ All (λ entity. is_topo entity.id ≡ false) entities
unfolding check_identities
check_identities_iff [] = (λ h. tt, λ h. refl)
check_identities_iff (entity ∷ entities) =
    let here = passes_iff (is_topo entity.id) _ (check_identities entities) tt in
    let later = check_identities_iff entities in
    (λ h. ((here.0 h).0, later.0 (here.0 h).1), λ h. here.1 (h.0, later.1 h.1))

contains-empty : (x : String) (xs : List String) → contains x xs ≡ true → is_empty xs ≡ false
contains-empty x [] h = absurd (cc)
contains-empty x (y ∷ ys) h = refl

check_member_iff :
    (claims : List (String × List String)) (system_id component_id : String)
    → (check_member claims system_id component_id ≡ ok tt)
      ↔ (contains system_id (claimed claims component_id) ≡ true)
unfolding check_member
check_member_iff claims system_id component_id =
    let systems = claimed claims component_id in
    let other = passes_iff (not (is_empty systems) && not (contains system_id systems)) _ _ tt in
    let unclaimed = passes_iff (is_empty systems) _ (ok tt) tt in
    (
      λ h. let first = other.0 h in let second = unclaimed.0 first.1 in ground arith,
      λ h.
          let some_claim = contains-empty system_id systems h in
          other.1 (ground arith, unclaimed.1 (some_claim, refl)),
    )

-- What a guard on two conditions refuses.
both_iff : (c a b : Bool) → ((c && (not a || not b)) ≡ false) ↔ (c ≡ true → (a ≡ true) × (b ≡ true))
both_iff false a b = (λ h k. absurd (cc), λ h. refl)
both_iff true true true = (λ h k. (refl, refl), λ h. refl)
both_iff true true false = (λ h. absurd (cc), λ h. absurd (cc ((h refl).1)))
both_iff true false b = (λ h. absurd (cc), λ h. absurd (cc ((h refl).0)))

one_iff : (c a : Bool) → ((c && not a) ≡ false) ↔ (c ≡ true → a ≡ true)
one_iff false a = (λ h k. absurd (cc), λ h. refl)
one_iff true true = (λ h k. refl, λ h. refl)
one_iff true false = (λ h. absurd (cc), λ h. absurd (cc (h refl)))

or_left : (a b : Bool) → (a || b) ≡ false → a ≡ false
or_left a b h = ground arith

or_right : (a b : Bool) → (a || b) ≡ false → b ≡ false
or_right a b h = ground arith

neither : (a b : Bool) → a ≡ false → b ≡ false → (a || b) ≡ false
neither a b h k = ground arith

known_left : (a b c : Bool) → (not a || not b && not c) ≡ false → a ≡ true
known_left a b c h = ground arith

known_right : (a b c : Bool) → (not a || not b && not c) ≡ false → (b || c) ≡ true
known_right a b c h = ground arith

all_known : (a b c : Bool) → a ≡ true → (b || c) ≡ true → (not a || not b && not c) ≡ false
all_known a b c h k = ground arith

check_relationship_iff :
    (graph : List IrEntity) (r : IrRelationship)
    → (check_relationship graph r ≡ ok tt) ↔ IsSoundRelationship graph r
unfolding check_relationship
check_relationship_iff graph r =
    let from_type = type_of graph r.from_entity_id in
    let to_type = type_of graph r.to_entity_id in
    let verb = contains r.relationship_type topology_verbs in
    let missing =
      not (is_some from_type)
      || not (is_some to_type) && not (allows_missing (target_scope r.metadata)) in
    let composed =
      both_iff (r.relationship_type == "composed_of") (is_text "system" from_type)
        (is_text "component" to_type) in
    let joins = both_iff verb (is_text "component" from_type) (is_text "component" to_type) in
    let authored = one_iff verb (is_explicit r.provenance_classification) in
    let g1 = passes_iff (is_topo r.from_entity_id || is_topo r.to_entity_id) _ _ tt in
    let g2 = passes_iff missing _ _ tt in
    let g3 =
      passes_iff
        (r.relationship_type == "composed_of"
          && (not (is_text "system" from_type) || not (is_text "component" to_type)))
        _ _ tt in
    let g4 =
      passes_iff
        (verb && (not (is_text "component" from_type) || not (is_text "component" to_type))) _ _
        tt in
    let g5 = passes_iff (verb && not (is_explicit r.provenance_classification)) _ _ tt in
    let g6 = passes_iff (r.relationship_type == "consumes_interface") _ (ok tt) tt in
    (
      λ h.
          let h1 = g1.0 h in
          let h2 = g2.0 h1.1 in
          let h3 = g3.0 h2.1 in
          let h4 = g4.0 h3.1 in
          let h5 = g5.0 h4.1 in
          let h6 = g6.0 h5.1 in
          (
            or_left _ _ h1.0,
            or_right _ _ h1.0,
            known_left _ _ _ h2.0,
            known_right _ _ _ h2.0,
            λ k. (
              (is_text_iff _ _).0 (composed.0 h3.0 k).0,
              (is_text_iff _ _).0 (composed.0 h3.0 k).1,
            ),
            λ k. (
              (is_text_iff _ _).0 (joins.0 h4.0 k).0,
              (is_text_iff _ _).0 (joins.0 h4.0 k).1,
              authored.0 h5.0 k,
            ),
            h6.0,
          ),
      λ h. g1.1 (
        neither _ _ h.0 h.1,
        g2.1 (
          all_known _ _ _ h.2 h.3,
          g3.1 (
            composed.1 (λ k. ((is_text_iff _ _).1 (h.4 k).0, (is_text_iff _ _).1 (h.4 k).1)),
            g4.1 (
              joins.1 (λ k. ((is_text_iff _ _).1 (h.5 k).0, (is_text_iff _ _).1 (h.5 k).1)),
              g5.1 (authored.1 (λ k. (h.5 k).2), g6.1 (h.6, refl)),
            ),
          ),
        ),
      ),
    )

-- The check passes exactly if no entity is a handle, each relationship is sound, and each component
-- that the document of a system lists is specified by a document of a component that claims the
-- system, by its id or by that of its document. Of several documents for one id the last counts.
pub validate_ir_topology_semantics-IsSound :
    (graph : List IrEntity) (relationships : List IrRelationship) (physical_adrs : List PhysicalAdr)
    → (validate_ir_topology_semantics graph relationships physical_adrs ≡ ok tt) ↔ (
        All (λ entity. is_topo entity.id ≡ false) (values entity_id graph)
        × All (IsSoundRelationship graph) relationships
        × AreClaimed physical_adrs)
unfolding validate_ir_topology_semantics check_members
validate_ir_topology_semantics-IsSound graph relationships physical_adrs =
    let m = memberships physical_adrs no_memberships in
    let claims = pc_systems m.system_id_by_adr physical_adrs [] in
    let entities = check_identities_iff (values entity_id graph) in
    let related =
      check_each_iff (check_relationship graph) _ relationships (check_relationship_iff graph) in
    let members =
      check_each_iff (check_members claims) (HasClaims claims) m.members_by_system (λ entry.
        check_each_iff (check_member claims entry.0) _ entry.1 (check_member_iff claims entry.0)) in
    let last =
      and_then
        (check_identities (values entity_id graph)
          >> check_each (check_relationship graph) relationships)
        (check_each (check_members claims) m.members_by_system) in
    let first =
      and_then (check_identities (values entity_id graph))
        (check_each (check_relationship graph) relationships) in
    (
      λ h.
          let done = last.0 h in
          (
            entities.0 (first.0 done.0).0,
            related.0 (first.0 done.0).1,
            (members_iff physical_adrs).0 (members.0 done.1),
          ),
      λ h.
          last.1 (
            first.1 (entities.1 h.0, related.1 h.1),
            members.1 ((members_iff physical_adrs).1 h.2),
          ),
    )
