-- ===== src/Identity/Tests.antt =====
-- Entity URIs and alias names at concrete texts.
use adr_architecture_kit.Base.{
  ℕ, ◌≤◌, Option, none, some, [], ◌∷◌, true, false, ◌≡◌, refl, ◌↔◌, if◌then◌else◌, ok, All, length,
  Text, codes, same_text,
}
use adr_architecture_kit.Identity.{
  matches_uuidv7, is_version_7, validate_uuidv7, derive_entity_uri, split_once, checked_parts,
  parse_entity_uri, alias_rest, matches_alias_name, is_among, reserved_names, validate_alias_name,
  repeats,
}
use adr_architecture_kit.Identity.Uri.{
  parse_entity_uri-derive_entity_uri, derive_entity_uri-parse_entity_uri,
}
use adr_architecture_kit.Identity.AliasName.{
  IsAliasName, is_undashed_uuid, validate_alias_name-IsAliasName, matches_alias_name-newline,
}
use adr_architecture_kit.Identity.Providers.{
  ProvidedEntity, Repository, ProviderBinding, ProviderRegistry, get, register, provider_registry,
  get_repository_by_namespace, resolve_entity, resolve_uri,
}
use adr_architecture_kit.Identity.Providers.Lookup.{
  IsRegistered, provider_registry-IsRegistered, resolve_uri-parse_entity_uri,
}

-- uuid.UUID of the sample below.
abbrev sample_parse : Text → Option (ℕ × Text)
sample_parse value = some (7, value)

abbrev sample_uuid : Text
sample_uuid = codes "019fee89-e617-7b55-931f-d0126c67c176"

abbrev sample_namespace : Text
sample_namespace = codes "adr-kit"

abbrev sample_uri : Text
sample_uri = codes "adr://adr-kit/entities/019fee89-e617-7b55-931f-d0126c67c176"

sample_derived : derive_entity_uri sample_parse sample_namespace sample_uuid ≡ ok sample_uri
unfolding derive_entity_uri validate_uuidv7 matches_uuidv7 is_version_7
sample_derived = refl

sample_parsed : parse_entity_uri sample_uri ≡ ok (sample_namespace, sample_uuid)
unfolding parse_entity_uri checked_parts split_once matches_uuidv7
sample_parsed = refl

sample_version : is_version_7 sample_parse sample_uuid ≡ true
unfolding is_version_7
sample_version = refl

parse_entity_uri-derive_entity_uri_example :
    parse_entity_uri sample_uri ≡ ok (sample_namespace, sample_uuid)
parse_entity_uri-derive_entity_uri_example =
    parse_entity_uri-derive_entity_uri sample_parse sample_namespace sample_uuid sample_uri refl
      refl sample_derived

derive_entity_uri-parse_entity_uri_example :
    derive_entity_uri sample_parse sample_namespace sample_uuid ≡ ok sample_uri
derive_entity_uri-parse_entity_uri_example =
    derive_entity_uri-parse_entity_uri sample_parse sample_uri sample_namespace sample_uuid
      sample_parsed sample_version

abbrev keep_case : Text → Text
keep_case text = text

validate_alias_name-IsAliasName_example :
    (validate_alias_name keep_case (codes "entity-graph") none ≡ ok (codes "entity-graph")) ↔ (
      (◌≡◌ {A = Text} (codes "entity-graph") (codes "entity-graph"))
      × ((3 ≤ length (codes "entity-graph")) × (length (codes "entity-graph") ≤ 96))
      × IsAliasName (codes "entity-graph")
      × ((matches_uuidv7 (codes "entity-graph") ≡ false)
          × (is_undashed_uuid (codes "entity-graph") ≡ false)
          × (is_among (codes "entity-graph") reserved_names ≡ false)
          × (repeats keep_case (codes "entity-graph") none ≡ false)))
validate_alias_name-IsAliasName_example =
    validate_alias_name-IsAliasName keep_case (codes "entity-graph") (codes "entity-graph") none

entity_graph_matches : matches_alias_name (codes "entity-graph") ≡ true
unfolding matches_alias_name alias_rest
entity_graph_matches = refl

matches_alias_name-newline_example : matches_alias_name (codes "entity-graph\n") ≡ true
matches_alias_name-newline_example =
    matches_alias_name-newline (codes "entity-graph") refl entity_graph_matches

abbrev sample_entity : ProvidedEntity
sample_entity = record { id = sample_uuid; uri = sample_uri }

abbrev sample_repository : Repository
sample_repository uuid = if same_text uuid sample_uuid then some sample_entity else none

abbrev sample_binding : ProviderBinding
sample_binding = record {
  workspace_key = codes "kit";
  architecture_namespace = sample_namespace;
  repository = sample_repository;
}

abbrev other_binding : ProviderBinding
other_binding = record {
  workspace_key = codes "kernel";
  architecture_namespace = codes "ste-kernel";
  repository = λ uuid. none;
}

abbrev sample_registry : ProviderRegistry
sample_registry = record {
  by_key = (codes "kernel", other_binding) ∷ (codes "kit", sample_binding) ∷ [];
  by_namespace = (codes "ste-kernel", other_binding) ∷ (sample_namespace, sample_binding) ∷ [];
}

sample_registered : provider_registry (sample_binding ∷ other_binding ∷ []) ≡ ok sample_registry
unfolding provider_registry register get
sample_registered = refl

provider_registry-IsRegistered_example :
    All (IsRegistered sample_registry) (sample_binding ∷ other_binding ∷ [])
provider_registry-IsRegistered_example =
    provider_registry-IsRegistered (sample_binding ∷ other_binding ∷ []) sample_registry
      sample_registered

sample_resolved : resolve_uri sample_parse sample_registry sample_uri ≡ ok sample_entity
unfolding resolve_uri resolve_entity parse_entity_uri checked_parts split_once matches_uuidv7
    validate_uuidv7 is_version_7 derive_entity_uri get_repository_by_namespace get
sample_resolved = refl

resolve_uri-parse_entity_uri_example :
    (◌≡◌ {A = Text} sample_uri sample_uri)
    × (namespace : Text) × (uuid : Text) × (repository : Repository) × (parse_entity_uri sample_uri
        ≡ ok (namespace, uuid))
    × (get_repository_by_namespace sample_registry namespace ≡ ok repository)
    × (repository uuid ≡ some sample_entity)
resolve_uri-parse_entity_uri_example =
    resolve_uri-parse_entity_uri sample_parse sample_registry sample_uri sample_entity
      sample_resolved
