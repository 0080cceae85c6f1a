-- ===== src/Ingestion/Registry/Table.antt =====
-- backend/app/ingestion/registry.py: `SOURCE_REGISTRY`, in its order, and `REGISTRY_BY_KEY`.
use asber.Base.{Bool, List, Option, Text, [], find, text_eq, ◌∷◌}
use asber.Ingestion.Registry.Defs.{SourceDef}
use asber.Ingestion.Registry.Feeds.{
  yara_source, virustotal_source, malwarebazaar_source, qualys_source, urlhaus_source,
  bleepingcomputer_source, sigma_source, otx_source, crowdstrike_source, therecord_source,
  krebs_source,
}
use asber.Ingestion.Registry.Intelligence.{
  sentinellabs_source, msrc_source, mitre_attack_source, project_zero_source, cisa_kev_source,
  mandiant_source, nvd_source, talos_source, cve_org_source, github_source, unit42_source,
  exploitdb_source,
}

unfoldable pub source_registry : List SourceDef
source_registry =
    cisa_kev_source ∷ nvd_source ∷ cve_org_source ∷ mitre_attack_source ∷ exploitdb_source
    ∷ github_source ∷ project_zero_source ∷ msrc_source ∷ unit42_source ∷ talos_source
    ∷ mandiant_source ∷ sentinellabs_source ∷ crowdstrike_source ∷ qualys_source
    ∷ bleepingcomputer_source ∷ krebs_source ∷ therecord_source ∷ sigma_source ∷ yara_source
    ∷ otx_source ∷ malwarebazaar_source ∷ urlhaus_source ∷ virustotal_source ∷ []

abbrev pub has_key : Text → SourceDef → Bool
has_key key sdef = text_eq sdef.key key

-- `REGISTRY_BY_KEY.get(key)`; no two entries share a key.
unfoldable pub registry_by_key : Text → Option SourceDef
registry_by_key key = find (has_key key) source_registry
