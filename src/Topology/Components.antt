-- ===== src/Topology/Components.antt =====
-- src/adr_kit/compiler/passes/topology_resolution.py: when the components of a topology resolve.
use adr_architecture_kit.Base.{
  String, Option, none, some, List, [], ◌∷◌, true, false, not, ◌==◌, ◌≡◌, refl, sym, ap, ◌∙◌, ◌↔◌,
  arith, eq_iff, if◌then◌else◌, Result, ok, raise, ◌>>=◌, not-false, not-true, bind-passes_iff,
  Bool-cases, inl, inr, contains, any, All, IsDistinct, codes,
}
use adr_architecture_kit.Identity.{matches_uuidv7}
use adr_architecture_kit.Relationships.Documents.{Entity, TopologyComponent}
use adr_architecture_kit.Relationships.Physical.{truthy, with_handle, reference_of, handles_of}
use adr_architecture_kit.Topology.{
  TopologyResolutionError, entity_type_of, is_text, admit, resolve_components, HandleMap,
}

abbrev pub text_of : Option String → String
text_of none = ""
text_of (some text) = text

-- A handle and a reference are given, the reference a UUID and the id of a component entity.
abbrev pub Admits : List Entity → Option String → Option String → Type 0
Admits entities (some handle) (some component_ref) =
    (matches_uuidv7 (codes component_ref) ≡ true)
    × (entity_type_of entities component_ref ≡ some "component")
Admits entities _ _ = ⊥

abbrev pub IsAdmitted : List Entity → TopologyComponent → Type 0
IsAdmitted entities component =
    Admits entities (truthy component.id) (truthy component.component_ref)

abbrev pub handle_of : TopologyComponent → String
handle_of component = text_of (truthy component.id)

pub is_text_iff : (text : String) (o : Option String) → (is_text text o ≡ true) ↔ (o ≡ some text)
is_text_iff text none = (λ h. absurd (cc), λ h. absurd (cc))
is_text_iff text (some other) =
    (λ h. ap some ((eq_iff other text).0 h), λ h. (eq_iff other text).1 (cc))

admit_iff :
    (entities : List Entity) (seen : List String) (id component_ref : Option String)
    (f : String × String → Result TopologyResolutionError HandleMap) (result : HandleMap)
    → ((admit entities seen id component_ref >>= f) ≡ ok result) ↔ (
        Admits entities id component_ref
        × (contains (text_of id) seen ≡ false)
        × (f (text_of id, text_of component_ref) ≡ ok result))
unfolding admit
admit_iff entities seen none component_ref f result = (λ h. absurd (cc), λ h. absurd h.0)
admit_iff entities seen (some handle) none f result = (
  λ h. absurd (cc ((bind-passes_iff (contains handle seen) _ (raise _) f result).0 h).1),
  λ h. absurd h.0,
)
admit_iff entities seen (some handle) (some component_ref) f result = (
  λ h.
      let fresh = (bind-passes_iff (contains handle seen) _ _ f result).0 h in
      let matched =
        (bind-passes_iff (not (matches_uuidv7 (codes component_ref))) _ _ f result).0 fresh.1 in
      let typed =
        (bind-passes_iff (not (is_text "component" (entity_type_of entities component_ref))) _ _ f
            result).0
          matched.1 in
      ((not-false _ matched.0, (is_text_iff _ _).0 (not-false _ typed.0)), fresh.0, typed.1),
  λ h. (bind-passes_iff (contains handle seen) _ _ f result).1 (
    h.1,
    (bind-passes_iff (not (matches_uuidv7 (codes component_ref))) _ _ f result).1 (
      not-true _ h.0.0,
      (bind-passes_iff (not (is_text "component" (entity_type_of entities component_ref))) _ _ f
            result).1
          (not-true _ ((is_text_iff _ _).1 h.0.1), h.2),
    ),
  ),
)

-- What is not among `handle` and the handles before.
seen_iff :
    (handle : String) (seen : List String) (components : List TopologyComponent)
    → All (λ c. contains (handle_of c) (handle ∷ seen) ≡ false) components ↔ (
        (any (λ c. handle_of c == handle) components ≡ false)
        × All (λ c. contains (handle_of c) seen ≡ false) components)
seen_iff handle seen [] = (λ h. (refl, tt), λ h. tt)
seen_iff handle seen (component ∷ components) = (
  λ h.
      let later = (seen_iff handle seen components).0 h.1 in
      (
        ground (arith, eq_iff handle (handle_of component), eq_iff (handle_of component) handle),
        (ground arith, later.1),
      ),
  λ h. (
    ground (arith, eq_iff handle (handle_of component), eq_iff (handle_of component) handle),
    (seen_iff handle seen components).1 (ground arith, h.1.1),
  ),
)

truthy-some : (o : Option String) (text : String) → truthy o ≡ some text → o ≡ some text
truthy-some none text h = absurd (cc)
truthy-some (some other) text h = elim (Bool-cases (other == "")) [
  | inl e ↦ absurd (cc (ap (λ b. if b then none else some other) (sym e)))
  | inr e ↦ ap (λ b. if b then none else some other) (sym e) ∙ h
]

pub handle_and_reference :
    (entities : List Entity) (id component_ref : Option String)
    → Admits entities id component_ref
    → (id ≡ some (text_of id)) × (component_ref ≡ some (text_of component_ref))
handle_and_reference entities none component_ref h = absurd h
handle_and_reference entities (some handle) none h = absurd h
handle_and_reference entities (some handle) (some component_ref) h = (refl, refl)

pub with_handle-admitted :
    (entities : List Entity) (component : TopologyComponent) (handles : HandleMap)
    → IsAdmitted entities component
    → with_handle component.id (reference_of component) handles
      ≡ (handle_of component, text_of (truthy component.component_ref)) ∷ handles
unfolding reference_of
with_handle-admitted entities component handles h =
    let both =
      handle_and_reference entities (truthy component.id) (truthy component.component_ref) h in
    let id = truthy-some component.id _ both.0 in cc

pub resolve_components_iff :
    (entities : List Entity) (seen : List String) (handles result : HandleMap)
    (components : List TopologyComponent)
    → (resolve_components entities seen handles components ≡ ok result) ↔ (
        All (IsAdmitted entities) components
        × IsDistinct handle_of components
        × All (λ c. contains (handle_of c) seen ≡ false) components
        × (handles_of components handles ≡ result))
unfolding resolve_components handles_of
resolve_components_iff entities seen handles result [] = (λ h. (tt, tt, tt, cc), λ h. ap ok h.3)
resolve_components_iff entities seen handles result (component ∷ components) =
    let handle = handle_of component in
    let item : String × String = (handle, text_of (truthy component.component_ref)) in
    let later =
      resolve_components_iff entities (handle ∷ seen) (item ∷ handles) result components in
    let here =
      admit_iff entities seen (truthy component.id) (truthy component.component_ref)
        (λ item. resolve_components entities (item.0 ∷ seen) (item ∷ handles) components) result in
    let apart = seen_iff handle seen components in
    (
      λ h.
          let first = here.0 h in
          let rest = later.0 first.2 in
          let fresh = apart.0 rest.2 in
          (
            (first.0, rest.0),
            (fresh.0, rest.1),
            (first.1, fresh.1),
            ap (handles_of components) (with_handle-admitted entities component handles first.0)
                ∙ rest.3,
          ),
      λ h. here.1 (
        h.0.0,
        h.2.0,
        later.1 (
          h.0.1,
          h.1.1,
          apart.1 (h.1.0, h.2.1),
          ap (handles_of components) (sym (with_handle-admitted entities component handles h.0.0))
              ∙ h.3,
        ),
      ),
    )
