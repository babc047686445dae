-- ===== src/Identity/Providers.antt =====
-- src/adr_kit/repository/provider_registry.py: the registry of providers by key and namespace.
pub mod Lookup
use adr_architecture_kit.Base.{
  ℕ, Option, none, some, List, [], ◌∷◌, Bool, true, false, not, ◌≡◌, if◌then◌else◌, Result, ok,
  raise, ◌>>=◌, Text, same_text,
}
use adr_architecture_kit.Identity.{
  IdentityError, validate_uuidv7, derive_entity_uri, UriError, parse_entity_uri,
}

-- The two fields of an entity that the registry reads.
pub record ProvidedEntity : Type 0 where
  pub id : Text
  pub uri : Text

-- `repository.find_entity_by_uuid`; the rest of a repository is not read.
abbrev pub Repository : Type 0
Repository = Text → Option ProvidedEntity

pub record ProviderBinding : Type 0 where
  pub workspace_key : Text
  pub architecture_namespace : Text
  pub repository : Repository

pub data ProviderError : Type 0 where
  no_provider : ProviderError
  duplicate_key : Text → ProviderError
  duplicate_namespace : Text → ProviderError
  unknown_key : Text → ProviderError
  unknown_namespace : Text → ProviderError
  entity_not_found : Text → Text → ProviderError
  uri_mismatch : Text → Text → ProviderError
  bad_uuid : IdentityError → ProviderError
  bad_uri : UriError → ProviderError

pub record ProviderRegistry : Type 0 where
  pub by_key : List (Text × ProviderBinding)
  pub by_namespace : List (Text × ProviderBinding)

-- dict.get
unfoldable pub get : Text → List (Text × ProviderBinding) → Option ProviderBinding
get key [] = none
get key (item ∷ items) = if same_text item.0 key then some item.1 else get key items

abbrev pub is_key : Text → List (Text × ProviderBinding) → Bool
is_key key items = elim (get key items) [ none ↦ false | some binding ↦ true ]

-- The loop of `__init__`.
unfoldable pub register :
    List ProviderBinding → ProviderRegistry → Result ProviderError ProviderRegistry
unfolding get
register [] registry = ok registry
register (binding ∷ bindings) registry =
    let rest = register bindings (record {
      by_key = (binding.workspace_key, binding) ∷ registry.by_key;
      by_namespace = (binding.architecture_namespace, binding) ∷ registry.by_namespace;
    }) in
    if is_key binding.workspace_key registry.by_key
    then raise (duplicate_key binding.workspace_key)
    else if is_key binding.architecture_namespace registry.by_namespace
    then raise (duplicate_namespace binding.architecture_namespace)
    else rest

abbrev pub no_bindings : ProviderRegistry
no_bindings = record { by_key = []; by_namespace = [] }

-- ProviderRegistry(bindings)
unfoldable pub provider_registry : List ProviderBinding → Result ProviderError ProviderRegistry
unfolding register
provider_registry [] = raise no_provider
provider_registry (binding ∷ bindings) = register (binding ∷ bindings) no_bindings

abbrev pub required : {A : Type 0} → ProviderError → Option A → Result ProviderError A
required e none = raise e
required e (some a) = ok a

unfoldable pub get_repository : ProviderRegistry → Text → Result ProviderError Repository
get_repository registry key =
    required (unknown_key key) (get key registry.by_key) >>= λ binding. ok binding.repository

unfoldable pub get_repository_by_namespace :
    ProviderRegistry → Text → Result ProviderError Repository
get_repository_by_namespace registry namespace =
    required (unknown_namespace namespace) (get namespace registry.by_namespace) >>= λ binding.
    ok binding.repository

-- An error of the identity helpers passes through.
abbrev pub of_identity : {A : Type 0} → Result IdentityError A → Result ProviderError A
of_identity (ok a) = ok a
of_identity (raise e) = raise (bad_uuid e)

abbrev pub of_uri : {A : Type 0} → Result UriError A → Result ProviderError A
of_uri (ok a) = ok a
of_uri (raise e) = raise (bad_uri e)

module _ (uuid_parse : Text → Option (ℕ × Text)) (registry : ProviderRegistry) where
  unfoldable pub resolve_entity : Text → Text → Result ProviderError ProvidedEntity
  resolve_entity namespace uuid = of_identity (validate_uuidv7 uuid_parse uuid) >>= λ _.
      get_repository_by_namespace registry namespace >>= λ repository.
      required (entity_not_found namespace uuid) (repository uuid) >>= λ entity.
      of_identity (derive_entity_uri uuid_parse namespace uuid) >>= λ expected_uri.
      if not (same_text entity.uri expected_uri)
      then raise (uri_mismatch expected_uri entity.uri)
      else ok entity

  unfoldable pub resolve_uri : Text → Result ProviderError ProvidedEntity
  resolve_uri uri = of_uri (parse_entity_uri uri) >>= λ parts. resolve_entity parts.0 parts.1
