-- ===== src/Identity/Providers/Lookup.antt =====
-- The registry finds each provider, and the entity of a URI.
use adr_architecture_kit.Base.{
  ℕ, Option, none, some, List, [], ◌∷◌, false, not, ◌≡◌, refl, sym, ap, ◌∙◌, subst, inl, inr, arith,
  Bool-cases, Result, ok, raise, Returns-bind, passes_iff, not-false, All, All-map, Text, same_text,
  same_text_iff,
}
use adr_architecture_kit.Identity.{
  IdentityError, validate_uuidv7, derive_entity_uri, UriError, parse_entity_uri,
}
use adr_architecture_kit.Identity.Uri.{validate_uuidv7-ok, derive_entity_uri-parse_entity_uri}
use adr_architecture_kit.Identity.Providers.{
  ProvidedEntity, Repository, ProviderBinding, ProviderError, entity_not_found, ProviderRegistry,
  get, is_key, register, no_bindings, provider_registry, required, get_repository,
  get_repository_by_namespace, of_identity, of_uri, resolve_entity, resolve_uri,
}

-- The registry gives the binding for its key and for its namespace.
abbrev pub IsRegistered : ProviderRegistry → ProviderBinding → Type 0
IsRegistered registry binding =
    (get_repository registry binding.workspace_key ≡ ok binding.repository)
    × (get_repository_by_namespace registry binding.architecture_namespace ≡ ok binding.repository)

abbrev Holds : ProviderRegistry → ProviderBinding → Type 0
Holds registry binding =
    (get binding.workspace_key registry.by_key ≡ some binding)
    × (get binding.architecture_namespace registry.by_namespace ≡ some binding)

-- A fresh key hides no other.
get-cons :
    (key other : Text) (binding found : ProviderBinding) (items : List (Text × ProviderBinding))
    → is_key other items ≡ false
    → get key items ≡ some found
    → get key ((other, binding) ∷ items) ≡ some found
unfolding get
get-cons key other binding found items fresh h = elim (Bool-cases (same_text other key)) [
  | inr e ↦ rw (e) h
  | inl e ↦
      let same : other ≡ key = (same_text_iff other key).0 e in
      let absent : is_key key items ≡ false = subst (λ k. is_key k items ≡ false) same fresh in
      absurd (ground arith)
]

get-here :
    (key : Text) (binding : ProviderBinding) (items : List (Text × ProviderBinding))
    → get key ((key, binding) ∷ items) ≡ some binding
unfolding get
get-here key binding items = rw ((same_text_iff key key).1 refl) refl

-- What is registered before stays, and what is registered now is there.
register-Holds :
    (bindings : List ProviderBinding) (before after : ProviderRegistry)
    → register bindings before ≡ ok after
    → ((binding : ProviderBinding) → Holds before binding → Holds after binding)
      × All (Holds after) bindings
unfolding register
register-Holds [] before after h =
    (λ binding k. let same : before ≡ after = cc in subst (λ r. Holds r binding) same k, tt)
register-Holds (binding ∷ bindings) before after h =
    let keyed = (passes_iff (is_key binding.workspace_key before.by_key) _ _ after).0 h in
    let named =
      (passes_iff (is_key binding.architecture_namespace before.by_namespace) _ _ after).0
        keyed.1 in
    let later = register-Holds bindings _ after named.1 in
    (
      λ other k. later.0 other (
        get-cons other.workspace_key binding.workspace_key binding other before.by_key keyed.0 k.0,
        get-cons other.architecture_namespace binding.architecture_namespace binding other
            before.by_namespace named.0 k.1,
      ),
      (
        later.0 binding (
          get-here binding.workspace_key binding before.by_key,
          get-here binding.architecture_namespace binding before.by_namespace,
        ),
        later.1,
      ),
    )

Holds-IsRegistered :
    (registry : ProviderRegistry) (binding : ProviderBinding)
    → Holds registry binding
    → IsRegistered registry binding
unfolding get_repository get_repository_by_namespace
Holds-IsRegistered registry binding h = (rw (h.0) refl, rw (h.1) refl)

-- If the registry is made, each provider is found by its key and by its namespace.
pub provider_registry-IsRegistered :
    (bindings : List ProviderBinding) (registry : ProviderRegistry)
    → provider_registry bindings ≡ ok registry
    → All (IsRegistered registry) bindings
unfolding provider_registry
provider_registry-IsRegistered [] registry h = tt
provider_registry-IsRegistered (binding ∷ bindings) registry h =
    All-map (binding ∷ bindings) (Holds-IsRegistered registry)
      (register-Holds (binding ∷ bindings) no_bindings registry h).1

of_identity-ok : {A : Type 0} (r : Result IdentityError A) (a : A) → of_identity r ≡ ok a → r ≡ ok a
of_identity-ok (ok b) a h = cc
of_identity-ok (raise e) a h = absurd (cc)

of_uri-ok : {A : Type 0} (r : Result UriError A) (a : A) → of_uri r ≡ ok a → r ≡ ok a
of_uri-ok (ok b) a h = cc
of_uri-ok (raise e) a h = absurd (cc)

required-ok :
    {A : Type 0} (e : ProviderError) (o : Option A) (a : A) → required e o ≡ ok a → o ≡ some a
required-ok e none a h = absurd (cc)
required-ok e (some b) a h = cc

-- An entity that resolve_uri returns has that URI, and the repository that is registered for the
-- namespace of the URI has it under the UUID of the URI.
pub resolve_uri-parse_entity_uri :
    (uuid_parse : Text → Option (ℕ × Text)) (registry : ProviderRegistry) (uri : Text)
    (entity : ProvidedEntity)
    → resolve_uri uuid_parse registry uri ≡ ok entity
    → (entity.uri ≡ uri)
      × (namespace : Text) × (uuid : Text) × (repository : Repository) × (parse_entity_uri uri
          ≡ ok (namespace, uuid))
      × (get_repository_by_namespace registry namespace ≡ ok repository)
      × (repository uuid ≡ some entity)
unfolding resolve_uri resolve_entity
resolve_uri-parse_entity_uri uuid_parse registry uri entity h =
    let parsed = Returns-bind (of_uri (parse_entity_uri uri)) _ h in
    let parts = of_uri-ok (parse_entity_uri uri) parsed.0 parsed.1 in
    let valid = Returns-bind (of_identity (validate_uuidv7 uuid_parse parsed.0.1)) _ parsed.2 in
    let repository = Returns-bind (get_repository_by_namespace registry parsed.0.0) _ valid.2 in
    let found =
      Returns-bind (required (entity_not_found parsed.0.0 parsed.0.1) (repository.0 parsed.0.1)) _
        repository.2 in
    let derived =
      Returns-bind (of_identity (derive_entity_uri uuid_parse parsed.0.0 parsed.0.1)) _ found.2 in
    let compared =
      (passes_iff (not (same_text found.0.uri derived.0)) _ (ok found.0) entity).0 derived.2 in
    let same : found.0 ≡ entity = cc (compared.1) in
    let version =
      (validate_uuidv7-ok uuid_parse parsed.0.1 valid.0 (of_identity-ok _ _ valid.1)).2 in
    let whole =
      derive_entity_uri-parse_entity_uri uuid_parse uri parsed.0.0 parsed.0.1 parts version in
    let expected : derived.0 ≡ uri = cc (of_identity-ok _ _ derived.1, whole) in
    (
      ap (λ (e : ProvidedEntity). e.uri) (sym same)
          ∙ (same_text_iff found.0.uri derived.0).0 (not-false _ compared.0)
          ∙ expected,
      parsed.0.0,
      parsed.0.1,
      repository.0,
      parts,
      repository.1,
      required-ok _ _ found.0 found.1 ∙ ap some same,
    )
