-- ===== src/AliasHistory/Tests.antt =====
-- A ledger with an alias that ends in a newline.
use adr_architecture_kit.Base.{All, some, List, [], ◌∷◌, map, true, ◌≡◌, refl, ok, Text, codes}
use adr_architecture_kit.AliasHistory.{
  Entry, History, absent_flag, matches_inv_alias, validate_entry, validate_entries,
  load_validated_historical_aliases,
}
use adr_architecture_kit.AliasHistory.Validity.{
  AreDistinct, IsInvAlias, load_validated_historical_aliases-AreTaken,
}

abbrev sample_entry : Text → Entry
sample_entry alias = record {
  fields = map codes ("historical_alias" ∷ "disposition" ∷ "canonical_alias" ∷ []);
  historical_alias = some alias;
  disposition = some (codes "moved_to");
  canonical_alias = some (codes "INV-0009");
  permanently_consumed = absent_flag;
}

abbrev sample_history : History
sample_history = record {
  fields = map codes ("schema_version" ∷ "type" ∷ "entries" ∷ []);
  type = some (codes "invariant_alias_history");
  entries = some (sample_entry (codes "INV-0001") ∷ sample_entry (codes "INV-0001\n") ∷ []);
  log_is_list = true;
}

abbrev sample_aliases : List Text
sample_aliases = codes "INV-0001" ∷ codes "INV-0001\n" ∷ []

-- The second alias is taken, since it is another text that the pattern allows.
sample_loaded : load_validated_historical_aliases sample_history ≡ ok sample_aliases
unfolding load_validated_historical_aliases validate_entries validate_entry matches_inv_alias
sample_loaded = refl

load_validated_historical_aliases-AreTaken_example :
    (entries : List Entry) × (sample_history.entries ≡ some entries)
    × (map (λ entry. entry.historical_alias) entries ≡ map some sample_aliases)
    × AreDistinct sample_aliases
    × All IsInvAlias sample_aliases
load_validated_historical_aliases-AreTaken_example =
    load_validated_historical_aliases-AreTaken sample_history sample_aliases sample_loaded
