-- ===== src/Topology/Semantics/Claims.antt =====
-- The check of the memberships asks of the tables what the documents say.
use mathlib.Core.Path.{fun_ext}
use adr_architecture_kit.Base.{
  String, Option, none, some, List, [], ◌∷◌, true, false, ◌==◌, ◌≡◌, refl, sym, ap, ◌∙◌, subst, ◌↔◌,
  inl, inr, arith, contains, item_of, put, item_of-put, eq_iff, Bool-cases, Option-cases, All,
  All-map,
}
use adr_architecture_kit.Relationships.Documents.{PhysicalAdr}
use adr_architecture_kit.Topology.{is_physical_system}
use adr_architecture_kit.Topology.Semantics.{
  refs_of, Memberships, add_system, memberships, resolve_system_ref, pc_systems, claimed,
  no_memberships,
}
use adr_architecture_kit.Topology.Semantics.Members.{
  last_of, or_empty, system_named, system_meant, members_in, claims_in, AreClaimed,
}
use adr_architecture_kit.Topology.Semantics.Tables.{
  or_else-none, after_one, item_of-systems, item_of-members, item_of-claims,
}

-- No key is there twice.
abbrev HasKeysOnce : List (String × List String) → Type 0
HasKeysOnce [] = Unit
HasKeysOnce (entry ∷ entries) = (item_of entry.0 entries ≡ none) × HasKeysOnce entries

put-HasKeysOnce :
    (key : String) (value : List String) (entries : List (String × List String))
    → HasKeysOnce entries
    → HasKeysOnce (put key value entries)
put-HasKeysOnce key value [] h = (refl, tt)
put-HasKeysOnce key value (entry ∷ entries) h = elim (Bool-cases (entry.0 == key)) [
  | inl e ↦
      let same : entry.0 ≡ key = (eq_iff entry.0 key).0 e in
      rw (e) (ap (λ k. item_of k entries) (sym same) ∙ h.0, h.1)
  | inr e ↦
      let differs : (key == entry.0) ≡ false = other e in
      rw (e) (
        item_of-put key entry.0 value entries ∙ rw (differs) h.0,
        put-HasKeysOnce key value entries h.1,
      )
]
  where
    other : (entry.0 == key) ≡ false → (key == entry.0) ≡ false
    other e = ground (arith, eq_iff entry.0 key, eq_iff key entry.0)

memberships-HasKeysOnce :
    (adrs : List PhysicalAdr) (m : Memberships)
    → HasKeysOnce m.members_by_system
    → HasKeysOnce (memberships adrs m).members_by_system
unfolding memberships
memberships-HasKeysOnce [] m h = h
memberships-HasKeysOnce (adr ∷ adrs) m h =
    memberships-HasKeysOnce adrs (after_one adr m)
      (elim (Bool-cases (is_physical_system adr.adr_type)) [
        | inl e ↦ rw (e) (added adr.system_id)
        | inr e ↦ rw (e) h
      ])
  where
    added : (system_id : Option String) → HasKeysOnce (add_system adr system_id m).members_by_system
    added none = h
    added (some system_id) =
        put-HasKeysOnce system_id (refs_of adr.topology_components) m.members_by_system h

-- What holds of each entry holds of what each key has.
entries_iff :
    (P : String → String → Type 0) (entries : List (String × List String))
    → HasKeysOnce entries
    → All (λ entry. All (P entry.0) entry.1) entries
      ↔ ((key : String) → All (P key) (or_empty (item_of key entries)))
entries_iff P [] once = (λ h key. tt, λ h. tt)
entries_iff P (entry ∷ entries) once =
    let later = entries_iff P entries once.1 in
    (
      λ h key. elim (Bool-cases (entry.0 == key)) [
        | inl e ↦
            let same : entry.0 ≡ key = (eq_iff entry.0 key).0 e in
            rw (e) (subst (λ k. All (P k) entry.1) same h.0)
        | inr e ↦ rw (e) (later.0 h.1 key)
      ],
      λ h. (
        rw ((eq_iff entry.0 entry.0).1 refl) at (h entry.0),
        later.1 (λ key. elim (Bool-cases (entry.0 == key)) [
          | inl e ↦
              let same : entry.0 ≡ key = (eq_iff entry.0 key).0 e in
              let missing : item_of key entries ≡ none =
                ap (λ k. item_of k entries) (sym same) ∙ once.0 in
              rw (missing) tt
          | inr e ↦ rw (e) at (h key)
        ]),
      ),
    )

resolve_system_ref-system_meant :
    (adrs : List PhysicalAdr)
    → resolve_system_ref (memberships adrs no_memberships).system_id_by_adr ≡ system_meant adrs
unfolding resolve_system_ref
resolve_system_ref-system_meant adrs = fun_ext (λ reference.
    ap (λ found. elim found [ none ↦ reference | some system_id ↦ system_id ])
      (item_of-systems adrs no_memberships reference
        ∙ or_else-none (last_of (system_named reference) adrs)))

claimed-or_empty :
    (claims : List (String × List String)) (component_id : String)
    → claimed claims component_id ≡ or_empty (item_of component_id claims)
claimed-or_empty claims component_id = elim (Option-cases (item_of component_id claims)) [
  | inl e ↦ rw (e, claimed) refl
  | inr (systems, e) ↦ rw (e, claimed) refl
]

-- `pc_systems` of a component, where the references are resolved by `system_id_by_adr`.
claimed_lem :
    (adrs : List PhysicalAdr) (component_id : String)
    → claimed (pc_systems (memberships adrs no_memberships).system_id_by_adr adrs []) component_id
      ≡ or_empty (last_of (claims_in (system_meant adrs) component_id) adrs)
claimed_lem adrs component_id =
    let table = (memberships adrs no_memberships).system_id_by_adr in
    claimed-or_empty (pc_systems table adrs []) component_id
    ∙ ap or_empty (
        item_of-claims table adrs [] component_id
        ∙ or_else-none (last_of (claims_in (resolve_system_ref table) component_id) adrs))
    ∙ ap (λ meant. or_empty (last_of (claims_in meant component_id) adrs))
        (resolve_system_ref-system_meant adrs)

-- The tables say what the documents say.
pub members_iff :
    (adrs : List PhysicalAdr)
    → All
        (λ entry.
          All
            (λ component_id.
              contains entry.0 (
                claimed
                  (pc_systems (memberships adrs no_memberships).system_id_by_adr adrs [])
                  component_id)
              ≡ true)
            entry.1)
        (memberships adrs no_memberships).members_by_system
      ↔ AreClaimed adrs
members_iff adrs =
    let m = memberships adrs no_memberships in
    let claims = pc_systems m.system_id_by_adr adrs [] in
    let found = λ (system_id : String).
      item_of-members adrs no_memberships system_id
      ∙ or_else-none (last_of (members_in system_id) adrs) in
    let entries =
      entries_iff (λ system_id c. contains system_id (claimed claims c) ≡ true) m.members_by_system
        (memberships-HasKeysOnce adrs no_memberships tt) in
    (
      λ h system_id.
          subst
            (λ o.
              All
                (λ c.
                  contains system_id (or_empty (last_of (claims_in (system_meant adrs) c) adrs))
                  ≡ true)
                (or_empty o))
            (found system_id)
            (All-map (or_empty (item_of system_id m.members_by_system))
              (λ c k. ap (contains system_id) (sym (claimed_lem adrs c)) ∙ k)
              (entries.0 h system_id)),
      λ h. entries.1 (λ system_id.
          subst (λ o. All (λ c. contains system_id (claimed claims c) ≡ true) (or_empty o))
            (sym (found system_id))
            (All-map (or_empty (last_of (members_in system_id) adrs))
              (λ c k. ap (contains system_id) (claimed_lem adrs c) ∙ k) (h system_id))),
    )
