-- ===== src/Correlation/Nvd/Examples.antt =====
-- `apply_nvd` at a concrete entry.
use asber.Base.{[], codes, false, insert, lookup, none, refl, some, true, ◌∷◌, ◌≡◌}
use asber.Correlation.Nvd.Again.{apply_nvd_twice}
use asber.Correlation.Nvd.{apply_nvd, merge_nvd, is_changed_nvd, NvdEntry, nvd_row, with_fetch_time}
use asber.Correlation.Entry.{Graph, get_or_create_vulnerability}
use asber.Models.{Vulnerability}

abbrev item : NvdEntry
item = record {
  cve_id = codes "CVE-2024-3400";
  description = some (codes "A command injection in GlobalProtect");
  vuln_status = some (codes "Analyzed");
  published = some 1712880000;
  last_modified = some 1712966400;
  cwes = codes "CWE-77" ∷ [];
  products =
      record {
        vendor = codes "paloaltonetworks";
        product = codes "pan-os";
        cpe = codes "cpe:2.3:o:paloaltonetworks:pan-os:10.2.0:*";
        versions = none;
      }
      ∷ [];
  references =
      record { url = codes "https://example.org/advisory"; tags = []; ref_type = codes "reference" }
      ∷ [];
  primary_vendor = some (codes "paloaltonetworks");
  primary_product = some (codes "pan-os");
  cvss_score = some 100;
  cvss_severity = some (codes "CRITICAL");
  cvss_vector = none;
  cvss_version = some (codes "3.1");
  ssvc_exploitation = some (codes "active");
  ssvc_automatable = none;
  ssvc_technical_impact = none;
}

abbrev empty_graph : Graph
empty_graph = record { vulnerabilities = []; references = []; products = [] }

first_flags : (apply_nvd 5 true item empty_graph).0 ≡ (true, true)
unfolding apply_nvd nvd_row get_or_create_vulnerability is_changed_nvd merge_nvd
first_flags = refl

-- The CVE is not followed: nothing is stored.
untracked : apply_nvd 5 false item empty_graph ≡ ((false, false), empty_graph)
unfolding apply_nvd
untracked = refl

apply_nvd_twice_example :
    (row : Vulnerability) × (lookup item.cve_id
        (apply_nvd 5 true item empty_graph).1.vulnerabilities
      ≡ some row)
    × (apply_nvd 9 false item (apply_nvd 5 true item empty_graph).1 ≡ (
      (false, false),
      record (apply_nvd 5 true item empty_graph).1 {
        vulnerabilities =
            insert item.cve_id
              (with_fetch_time 9 row)
              (apply_nvd 5 true item empty_graph).1.vulnerabilities;
      },
    ))
apply_nvd_twice_example = apply_nvd_twice 5 9 false item empty_graph
