-- ===== src/Topology/Resolution.antt =====
-- src/adr_kit/compiler/passes/topology_resolution.py: when a topology resolves.
use adr_architecture_kit.Base.{
  String, List, [], ◌∷◌, true, false, not, ◌||◌, ◌≡◌, refl, sym, ap, subst, ◌∙◌, ◌↔◌, arith,
  if◌then◌else◌, Result, ok, ◌>>=◌, Returns-bind, passes_iff, not-false, not-true, Bool-cases, inl,
  inr, contains, All, All-filter, filter, IsDistinct,
}
use adr_architecture_kit.Relationships.Documents.{
  Entity, TopologyComponent, TopologyRelationship, PhysicalAdr,
}
use adr_architecture_kit.Relationships.Physical.{handles_of}
use adr_architecture_kit.Topology.{
  TopologyResolutionError, resolve_components, is_handle, is_verb, check_edges, resolve_adr,
  has_topology, HandleMap, HandleMaps, resolve_one, resolve_adrs, resolve_topology_handles,
}
use adr_architecture_kit.Topology.Components.{IsAdmitted, handle_of, resolve_components_iff}

abbrev pub IsLocalEdge : List (String × String) → TopologyRelationship → Type 0
IsLocalEdge handles item =
    (is_verb item.verb ≡ true)
    × (is_handle handles item.from_handle ≡ true)
    × (is_handle handles item.to_handle ≡ true)

-- A topology as the authoring rules want it.
abbrev pub IsResolvable : List Entity → PhysicalAdr → Type 0
IsResolvable entities adr =
    All (IsAdmitted entities) adr.topology_components
    × IsDistinct handle_of adr.topology_components
    × All (IsLocalEdge (handles_of adr.topology_components [])) adr.topology_relationships

every_unseen :
    (components : List TopologyComponent) → All (λ c. contains (handle_of c) [] ≡ false) components
every_unseen [] = tt
every_unseen (component ∷ components) = (refl, every_unseen components)

check_edges_iff :
    (handles result : HandleMap) (items : List TopologyRelationship)
    → (check_edges handles items ≡ ok result)
      ↔ (All (IsLocalEdge handles) items × (handles ≡ result))
unfolding check_edges
check_edges_iff handles result [] = (λ h. (tt, cc), λ h. ap ok h.1)
check_edges_iff handles result (item ∷ items) =
    let governed = passes_iff (not (is_verb item.verb)) _ _ result in
    let inside =
      passes_iff
        (not (is_handle handles item.from_handle) || not (is_handle handles item.to_handle)) _
        (check_edges handles items) result in
    let later = check_edges_iff handles result items in
    (
      λ h.
          let verb = governed.0 h in
          let ends = inside.0 verb.1 in
          let rest = later.0 ends.1 in
          (((not-false _ verb.0, ground arith, ground arith), rest.0), rest.1),
      λ h. governed.1 (not-true _ h.0.0.0, inside.1 (ground arith, later.1 (h.0.1, h.1))),
    )

resolve_adr_iff :
    (entities : List Entity) (adr : PhysicalAdr) (result : HandleMap)
    → (resolve_adr entities adr ≡ ok result)
      ↔ (IsResolvable entities adr × (handles_of adr.topology_components [] ≡ result))
unfolding resolve_adr
resolve_adr_iff entities adr result = (
  λ h.
      let both = Returns-bind (resolve_components entities [] [] adr.topology_components) _ h in
      let handles =
        (resolve_components_iff entities [] [] both.0 adr.topology_components).0 both.1 in
      let edges = (check_edges_iff both.0 result adr.topology_relationships).0 both.2 in
      (
        (
          handles.0,
          handles.1,
          subst (λ map. All (IsLocalEdge map) adr.topology_relationships) (sym handles.3) edges.0,
        ),
        handles.3 ∙ edges.1,
      ),
  λ h.
      let handles =
        (resolve_components_iff entities [] [] (handles_of adr.topology_components [])
            adr.topology_components).1
          (h.0.0, h.0.1, every_unseen adr.topology_components, refl) in
      let edges =
        (check_edges_iff (handles_of adr.topology_components []) result
            adr.topology_relationships).1
          (h.0.2, h.1) in
      rw (handles) edges,
)

-- Each ADR with a topology has its handles; the last one comes first.
abbrev pub handle_maps : HandleMaps → List PhysicalAdr → HandleMaps
handle_maps resolved [] = resolved
handle_maps resolved (adr ∷ adrs) =
    handle_maps
      (if has_topology adr
        then (adr.id, handles_of adr.topology_components []) ∷ resolved
        else resolved)
      adrs

-- Nothing is required of an ADR without a topology.
abbrev ResolvesIf : List Entity → PhysicalAdr → Type 0
ResolvesIf entities adr = has_topology adr ≡ true → IsResolvable entities adr

resolve_one_iff :
    (entities : List Entity) (resolved result : HandleMaps) (adr : PhysicalAdr)
    (f : HandleMaps → Result TopologyResolutionError HandleMaps)
    → ((resolve_one entities resolved adr >>= f) ≡ ok result) ↔ (
        ResolvesIf entities adr
        × (f (
              if has_topology adr
              then (adr.id, handles_of adr.topology_components []) ∷ resolved
              else resolved)
            ≡ ok result))
unfolding resolve_one
resolve_one_iff entities resolved result adr f = elim (Bool-cases (has_topology adr)) [
  | inl e ↦ rw (e) (
    λ h.
        let outer =
          Returns-bind (resolve_adr entities adr >>= λ handles. ok ((adr.id, handles) ∷ resolved)) f
            h in
        let inner = Returns-bind (resolve_adr entities adr) _ outer.1 in
        let whole = (resolve_adr_iff entities adr inner.0).0 inner.1 in
        let same : (adr.id, handles_of adr.topology_components []) ∷ resolved ≡ outer.0 = cc in
        (λ _. whole.0, ap f same ∙ outer.2),
    λ h.
        let made =
          (resolve_adr_iff entities adr (handles_of adr.topology_components [])).1
            (h.0 refl, refl) in
        rw (made) h.1,
  )
  | inr e ↦ rw (e) (λ h. (λ k. absurd (cc), h), λ h. h.1)
]

resolve_adrs_iff :
    (entities : List Entity) (adrs : List PhysicalAdr) (resolved result : HandleMaps)
    → (resolve_adrs entities resolved adrs ≡ ok result)
      ↔ (All (ResolvesIf entities) adrs × (handle_maps resolved adrs ≡ result))
unfolding resolve_adrs
resolve_adrs_iff entities [] resolved result = (λ h. (tt, cc), λ h. ap ok h.1)
resolve_adrs_iff entities (adr ∷ adrs) resolved result =
    let here =
      resolve_one_iff entities resolved result adr (λ next. resolve_adrs entities next adrs) in
    let next =
      if has_topology adr
      then (adr.id, handles_of adr.topology_components []) ∷ resolved
      else resolved in
    let later = resolve_adrs_iff entities adrs next result in
    (
      λ h. let first = here.0 h in let rest = later.0 first.1 in ((first.0, rest.0), rest.1),
      λ h. here.1 (h.0.0, later.1 (h.0.1, h.1)),
    )

-- In model 2.2 the handles resolve exactly if each physical system ADR with a topology is
-- resolvable: its components have distinct handles and each refers by its UUID to a component
-- entity, its edges have a governed verb and join handles of the same ADR. The result then has the
-- handles that relationship derivation computes.
pub resolve_topology_handles-IsResolvable :
    (physical_adrs : List PhysicalAdr) (entities : List Entity) (result : HandleMaps)
    → (resolve_topology_handles physical_adrs entities "2.2" ≡ ok result) ↔ (
        All (IsResolvable entities) (filter has_topology physical_adrs)
        × (handle_maps [] physical_adrs ≡ result))
unfolding resolve_topology_handles
resolve_topology_handles-IsResolvable physical_adrs entities result =
    let whole = resolve_adrs_iff entities physical_adrs [] result in
    let only = All-filter (IsResolvable entities) has_topology physical_adrs in
    (λ h. (only.0 (whole.0 h).0, (whole.0 h).1), λ h. whole.1 (only.1 h.0, h.1))
