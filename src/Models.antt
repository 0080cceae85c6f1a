-- ===== src/Models.antt =====
-- backend/app/models.py: the rows that the modelled code reads and writes. A time is a number of
-- seconds since 1970 in UTC, a CVSS score a number of tenths, a nullable column an `Option`.
use asber.Base.{ℕ, Bool, Option, List, Text}

-- One entry of `relevance_reasons`; its points are tenths.
pub record Reason : Type 0 where
  pub factor : Text
  pub points : ℕ
  pub detail : Text

pub record Vulnerability : Type 0 where
  pub cve_id : Text
  pub title : Option Text
  pub description : Option Text
  pub vuln_status : Option Text
  pub published : Option ℕ
  pub last_modified : Option ℕ
  pub first_seen : ℕ
  pub updated_at : ℕ
  pub cvss_score : Option ℕ
  pub cvss_severity : Option Text
  pub cvss_vector : Option Text
  pub cvss_version : Option Text
  pub ssvc_exploitation : Option Text
  pub ssvc_automatable : Option Text
  pub ssvc_technical_impact : Option Text
  pub cwes : List Text
  pub vendor : Option Text
  pub product : Option Text
  pub in_kev : Bool
  pub kev_name : Option Text
  pub kev_date_added : Option ℕ
  pub kev_due_date : Option ℕ
  pub kev_required_action : Option Text
  pub kev_ransomware : Option Text
  pub kev_notes : Option Text
  pub actively_exploited : Bool
  pub has_exploit : Bool
  pub has_poc : Bool
  pub exploit_count : ℕ
  pub poc_count : ℕ
  pub source_count : ℕ
  pub tags : List Text
  pub platforms : List Text
  pub relevance_score : ℕ
  pub relevance_reasons : List Reason
  pub techniques : List (Text × Text)
  pub last_activity_at : Option ℕ
  pub nvd_fetched_at : Option ℕ

pub record AffectedProduct : Type 0 where
  pub cve_id : Text
  pub vendor : Text
  pub product : Text
  pub cpe : Text
  pub versions : Option Text
  pub source_key : Text

pub record EnvironmentAsset : Type 0 where
  pub id : ℕ
  pub owner_id : Text
  pub environment_id : ℕ
  pub label : Text
  pub category : Text
  pub vendor : Text
  pub product : Text
  pub version : Option Text
  pub cpe : Option Text
  pub catalogued : Bool
  pub hardware_model : Option Text
  pub notes : Option Text

pub record Document : Type 0 where
  pub id : ℕ
  pub source_key : Text
  pub url : Text
  pub title : Text
  pub summary : Option Text
  pub doc_type : Text
  pub tier : ℕ
  pub authors : List Text
  pub categories : List Text
  pub content_hash : Text
  pub reports_exploitation : Bool
  pub published_at : Option ℕ
  pub extraction_version : Option Text

pub record Exploit : Type 0 where
  pub id : ℕ
  pub source_key : Text
  pub external_id : Text
  pub title : Text
  pub url : Text
  pub kind : Text
  pub verified : Bool
  pub cve_ids : List Text
  pub tier : ℕ
  pub published_at : Option ℕ

pub record AttackObject : Type 0 where
  pub stix_id : Text
  pub obj_type : Text
  pub external_id : Option Text
  pub name : Text
  pub aliases : List Text
  pub deprecated : Bool
  pub revoked : Bool
  pub modified : Option ℕ
