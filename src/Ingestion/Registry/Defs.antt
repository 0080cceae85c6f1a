-- ===== src/Ingestion/Registry/Defs.antt =====
-- backend/app/ingestion/registry.py: `SourceDef`.
use asber.Base.{Bool, List, Option, Text, [], false, none, true, ℕ, ◌*◌}

abbrev pub minute : ℕ
minute = 60

abbrev pub hour : ℕ
hour = 3600

pub record SourceDef : Type 0 where
  pub key : Text
  pub name : Text
  pub homepage : Text
  pub endpoint : Text
  pub category : Text
  pub source_type : Text
  pub tier : ℕ
  pub method : Text
  pub interval : ℕ
  pub phase : ℕ
  pub enabled_by_default : Bool
  pub requires_auth : Bool
  pub auth_env : Option Text
  pub worker : Option Text
  pub doc_type : Option Text
  pub rate_limit : Text
  pub fields : List Text
  pub notes : Text
  pub max_bytes : ℕ

-- The defaults of the fields that have one; the others are given in every entry.
abbrev pub defaults : SourceDef
defaults = record {
  key = [];
  name = [];
  homepage = [];
  endpoint = [];
  category = [];
  source_type = [];
  tier = 0;
  method = [];
  interval = 0;
  phase = 1;
  enabled_by_default = true;
  requires_auth = false;
  auth_env = none;
  worker = none;
  doc_type = none;
  rate_limit = [];
  fields = [];
  notes = [];
  max_bytes = 25 * 1024 * 1024;
}
