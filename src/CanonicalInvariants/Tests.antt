-- ===== src/CanonicalInvariants/Tests.antt =====
-- The resolution of invariants at concrete mentions.
use adr_architecture_kit.Base.{String, some, List, [], ◌∷◌, ◌≡◌, ◌↔◌, ok}
use adr_architecture_kit.CanonicalInvariants.{
  Mention, CanonicalInvariantSelection, selection, resolve_invariant_canonical,
}
use adr_architecture_kit.CanonicalInvariants.Uniqueness.{
  AreDefinedBy, resolve_invariant_canonical-AreDefinedBy,
}

abbrev sample_definition : Mention
sample_definition = record {
  statement = some "Each write is validated.";
  name = "Validated writes";
  summary = "Each write is validated.";
  lifecycle_stage = "active";
  artifact = "adrs/logical/ADR-L-0001.yaml";
  source_ref = "ADR-L-0001#INV-0001";
}

abbrev sample_reference : Mention
sample_reference = record sample_definition {
  source_ref = "ADR-PC-0001";
  artifact = "adrs/physical-component/ADR-PC-0001.yaml";
}

abbrev sample_mentions : List (String × List Mention)
sample_mentions = ("INV-0001", sample_reference ∷ sample_definition ∷ []) ∷ []

abbrev sample_results : List CanonicalInvariantSelection
sample_results =
    selection "INV-0001" (sample_reference ∷ sample_definition ∷ []) sample_definition ∷ []

resolve_invariant_canonical-AreDefinedBy_example :
    (resolve_invariant_canonical sample_mentions ≡ ok sample_results)
    ↔ AreDefinedBy sample_mentions sample_results
resolve_invariant_canonical-AreDefinedBy_example =
    resolve_invariant_canonical-AreDefinedBy sample_mentions sample_results
