-- ===== src/Indicators/Examples.antt =====
-- Kinds, names of families, and a feed of four rows, two of which name one sample.
use asber.Base.{
  List, Option, Text, [], all_digits, arith, codes, false, int, is_space, join, lower, lstrip, map,
  none, refl, replicate, rstrip, some, split_on, starts_with, strip, text_eq, ℕ, ◌++◌, ◌==◌, ◌∷◌,
  ◌≡◌, Bool, true, is_digit,
}
use asber.Indicators.Feed.{
  parse_url, payload_rows, parse_sample, Row, sample, Parsed, malformed_row, published, skipped_row,
}
use asber.Ingestion.Worker.{run_worker, Store}
use asber.Indicators.{
  host_of, domain, clean_word, classify, ipv4, sha256, sha1, lookup_form, url_kind,
}
use asber.Models.{AttackObject}
use asber.Indicators.Upsert.{Indicator, Indicators}
use asber.Indicators.Lookup.{HasLookupForm, published-HasLookupForm}
use asber.Indicators.Upsert.Runs.{sync_feed-Refines}
use asber.Indicators.Families.{family_keys, format_tags}
use asber.Indicators.Upsert.Sync.{sync_feed}
use asber.Indicators.Upsert.Refine.{Refines}
use asber.Correlation.Entry.{contains}
use asber.Ingestion.Backoff.{Source}

classify_runs :
    (classify (codes " 10.0.0.255 ") ≡ some ipv4)
    × (classify (codes "10.0.0.256") ≡ none)
    × (classify (codes "Evil.Example.COM") ≡ some domain)
    × (classify (codes "http://x/y") ≡ some url_kind)
    × (classify (replicate 40 b'A') ≡ some sha1)
unfolding classify lookup_form strip lstrip rstrip lower contains starts_with split_on all_digits
    int
classify_runs = (refl, refl, refl, refl, refl)

family_keys_run :
    (family_keys (some (codes " RemcosRAT ")) ≡ codes "remcosrat" ∷ codes "remcos" ∷ [])
    × (family_keys (some (codes "elf")) ≡ [])
    × (family_keys (some (codes "N/A")) ≡ [])
    × (family_keys (some (codes "xbot")) ≡ codes "xbot" ∷ [])
unfolding family_keys clean_word strip lstrip rstrip lower split_on join format_tags starts_with
    is_space
family_keys_run = (refl, refl, refl, refl)

host_of_run :
    host_of (λ v. some (codes "user@evil.test:8080")) (codes "http://u")
    ≡ some (some (codes "evil.test"))
unfolding host_of lookup_form strip lstrip rstrip lower contains starts_with
host_of_run = refl

-- A reader of lines without quotes.
abbrev plain_reader : Text → List (List Text)
unfolding split_on
plain_reader text = map (split_on (λ c. c == b',')) (split_on (λ c. c == 10) text)

abbrev hash : ℕ → Text
hash c = replicate 64 c

abbrev feed : Text
feed =
    codes "# abuse.ch\n# first_seen_utc,sha256_hash,signature\n"
    ++ (codes ",xyz,\n,"
        ++ (hash b'A'
            ++ (codes ",Emotet\n,"
                ++ (hash b'a' ++ (codes ",Qakbot\n," ++ (hash b'b' ++ codes ","))))))

abbrev required : List Text
required = codes "sha256_hash" ∷ codes "first_seen_utc" ∷ []

abbrev no_dates : Text → Option ℕ
no_dates text = none

abbrev emotet : AttackObject
emotet = record {
  stix_id = codes "malware--e";
  obj_type = codes "malware";
  external_id = none;
  name = codes "emotet";
  aliases = [];
  deprecated = false;
  revoked = false;
  modified = none;
}

abbrev old_row : Indicator
old_row = record {
  id = 5;
  source_key = codes "malwarebazaar";
  observation = sample no_dates (hash b'b') [];
  tier = 2;
  last_seen_at = none;
  collected_at = 3;
}

abbrev other_source_row : Indicator
other_source_row = record old_row { id = 6; source_key = codes "urlhaus" }

abbrev feed_source : Source ℕ
feed_source = record {
  interval_seconds = 3600;
  state = 0;
  last_attempt = none;
  last_status = none;
  last_error = none;
  consecutive_failures = none;
  last_successful_fetch = none;
  items_fetched = 0;
  items_new = 0;
  items_updated = 0;
}

abbrev before_feed : Store Indicators ℕ
before_feed = record {
  rows = record { indicators = old_row ∷ other_source_row ∷ []; next_id = 7 };
  source = feed_source;
}

abbrev no_recompute : List Text → Indicators → Indicators
no_recompute cves t = t

abbrev feed_rows : List Row
feed_rows =
    ((codes "first_seen_utc", [])
      ∷ (codes "sha256_hash", codes "xyz")
      ∷ (codes "signature", [])
      ∷ [])
    ∷ ((codes "first_seen_utc", [])
        ∷ (codes "sha256_hash", hash b'A')
        ∷ (codes "signature", codes "Emotet")
        ∷ [])
    ∷ ((codes "first_seen_utc", [])
        ∷ (codes "sha256_hash", hash b'a')
        ∷ (codes "signature", codes "Qakbot")
        ∷ [])
    ∷ ((codes "first_seen_utc", [])
        ∷ (codes "sha256_hash", hash b'b')
        ∷ (codes "signature", [])
        ∷ [])
    ∷ []

feed_is_read : payload_rows plain_reader required feed ≡ some feed_rows
unfolding payload_rows strip lstrip rstrip split_on starts_with join is_space plain_reader
feed_is_read = refl

sync_feed-Refines_example :
    Refines text_eq
      (emotet ∷ [])
      (parse_sample no_dates)
      (codes "malwarebazaar")
      2
      15
      feed_rows
      before_feed.rows
      (sha256, hash b'a')
      (run_worker no_recompute 10 20
        (sync_feed text_eq
          (emotet ∷ [])
          (parse_sample no_dates)
          (codes "malwarebazaar")
          2
          15
          plain_reader
          required
          before_feed.rows
          (some feed))
        before_feed).1.rows
sync_feed-Refines_example =
    sync_feed-Refines no_recompute text_eq (emotet ∷ []) (parse_sample no_dates) plain_reader
      (codes "malwarebazaar") 2 15 10 20 required feed feed_rows before_feed (sha256, hash b'a')
      feed_is_read ((refl, (refl, tt)), (omega arith, (omega arith, tt)))

-- A row with a sample's hash and a URL, both of them of their kinds.
abbrev both_columns : Row
both_columns = (codes "sha256_hash", hash b'a') ∷ (codes "url", codes "HTTP://Evil.example/x") ∷ []

abbrev is_published : Parsed → Bool
is_published malformed_row = false
is_published skipped_row = false
is_published (published o candidates) = true

sample_published : is_published (parse_sample no_dates both_columns) ≡ true
unfolding parse_sample classify lookup_form lower strip lstrip rstrip is_digit
sample_published = refl

url_published :
    is_published (parse_url no_dates (λ v. some (codes "evil.example")) both_columns) ≡ true
unfolding parse_url classify lookup_form lower strip lstrip rstrip is_digit contains starts_with
    host_of
url_published = refl

published-HasLookupForm_example :
    HasLookupForm (parse_sample no_dates both_columns)
    × HasLookupForm (parse_url no_dates (λ v. some (codes "evil.example")) both_columns)
published-HasLookupForm_example =
    published-HasLookupForm no_dates (λ v. some (codes "evil.example")) both_columns
