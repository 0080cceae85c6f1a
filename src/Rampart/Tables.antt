-- ===== src/Rampart/Tables.antt =====
-- The tables that the repository reads and writes, of backend/app/models.py. A session is the
-- value of these tables; a primary key is the next number of its table.
use asber.Base.{List, Text, ℕ}
use asber.Models.{AffectedProduct, EnvironmentAsset, Vulnerability}
use asber.Matching.Asset.{Confidence, State, Method}

pub record Environment : Type 0 where
  pub id : ℕ
  pub owner_id : Text
  pub name : Text
  pub kind : Text

pub record EnvironmentMatch : Type 0 where
  pub id : ℕ
  pub owner_id : Text
  pub environment_id : ℕ
  pub asset_id : ℕ
  pub cve_id : Text
  pub state : State
  pub method : Method
  pub confidence : Confidence
  pub evidence : Text
  pub exposure : ℕ
  pub matched_at : ℕ

pub record Tables : Type 0 where
  pub environments : List Environment
  pub next_environment : ℕ
  pub assets : List EnvironmentAsset
  pub next_asset : ℕ
  pub matches : List EnvironmentMatch
  pub next_match : ℕ
  pub vulnerabilities : List Vulnerability
  pub affected_products : List AffectedProduct
