-- ===== src/Correlation/Examples.antt =====
-- The theorems on the correlation at a concrete entry and concrete edges, and runs.
use asber.Base.{List, Text, [], codes, false, length, none, refl, some, starts_with, true, ◌∷◌, ◌≡◌}
use asber.Correlation.Kev.{apply_kev_twice}
use asber.Correlation.Edges.{link_all, AreDistinct, links_form_a_set}
use asber.Correlation.Entry.{
  get_or_create_vulnerability, Graph, contains, kev_row, apply_kev, kev_references,
}
use asber.Correlation.Links.{EntityLink, link}
use asber.Correlation.Merge.{merge_kev, is_changed, KevEntry}

abbrev entry : KevEntry
entry = record {
  cve_id = codes "CVE-2024-3400";
  vendor = some (codes "Palo Alto Networks");
  product = some (codes "PAN-OS");
  kev_name = some (codes "PAN-OS Command Injection");
  kev_date_added = some 1712880000;
  kev_due_date = none;
  kev_required_action = none;
  kev_ransomware = none;
  kev_notes = none;
  short_description = some (codes "GlobalProtect");
  cwes = codes "CWE-77" ∷ [];
  note_urls =
      codes "https://security.paloaltonetworks.com/CVE-2024-3400"
      ∷ codes "https://nvd.nist.gov/vuln/detail/CVE-2024-3400"
      ∷ [];
}

abbrev no_rows : Graph
no_rows = record { vulnerabilities = []; references = []; products = [] }

first_flags : (apply_kev 5 entry no_rows).0 ≡ (true, true)
unfolding apply_kev kev_row get_or_create_vulnerability is_changed merge_kev
first_flags = refl

-- The link to NVD among the notes is left out.
first_references : length (apply_kev 5 entry no_rows).1.references ≡ 2
unfolding apply_kev kev_references contains starts_with
first_references = refl

apply_kev_twice_example :
    apply_kev 9 entry (apply_kev 5 entry no_rows).1
    ≡ ((false, false), (apply_kev 5 entry no_rows).1)
apply_kev_twice_example = apply_kev_twice 5 9 entry no_rows

abbrev mention : Text → EntityLink
mention document = record {
  subject_type = codes "document";
  subject_id = document;
  object_type = codes "cve";
  object_id = codes "CVE-2024-3400";
  relation = codes "mentions";
  method = codes "regex";
  confidence = codes "high";
  source_key = codes "talos";
  evidence = some (codes "exploited in the wild");
  observed_at = none;
}

abbrev mentions : List EntityLink
mentions = mention (codes "1") ∷ mention (codes "2") ∷ mention (codes "1") ∷ []

mentions_run : length (link_all mentions []) ≡ 2
unfolding link
mentions_run = refl

links_form_a_set_example :
    AreDistinct (link_all (mention (codes "1") ∷ mentions) [])
    × ((link (mention (codes "1")) (link_all (mention (codes "1") ∷ mentions) [])).0.1 ≡ false)
    × ((link (mention (codes "1")) (link_all (mention (codes "1") ∷ mentions) [])).1
        ≡ link_all (mention (codes "1") ∷ mentions) [])
links_form_a_set_example = links_form_a_set (mention (codes "1")) mentions [] tt
