-- ===== src/Tests/Enrichment.antt =====
-- The enrichment at concrete addresses and settings.
use net_audit.Common.Int.{pos}
use net_audit.Alerts.{low, high}
use net_audit.Alerts.{medium}
use net_audit.Common.Text.{codes, text_eq}
use net_audit.Alerts.Enrichment.Run.{
  update_config, enrich_all, config_error, look_up_all, provider_error, set_providers,
}
use net_audit.Alerts.Enrichment.Keys.{AreKeyed, is_keyed, update_all, update_all-AreKeyed}
use net_audit.Alerts.Enrichment.{
  get_enrichment_provider, set_enrichment_provider, update_provider, get_enrichment_cache,
  record_enrichment_usage,
}
use net_audit.Alerts.Enrichment.Run.{ConfigUpdate}
use net_audit.Alerts.Enrichment.Allowed.{SentOnly, IsPermitted, enrich-SentOnly}
use net_audit.Alerts.Enrichment.{get_enrichment_usage}
use net_audit.Alerts.Enrichment.Run.{enrich}
use net_audit.Alerts.Enrichment.Quota.{Run, Counted, run_all, run_all-Counted}
use net_audit.Alerts.Enrichment.Lookup.{
  Tables, payload, look_up, usable_providers, after_answer, stored_response,
}
use net_audit.Alerts.Enrichment.{ProviderRow}
use net_audit.Alerts.Enrichment.Lookup.{Answers}
use net_audit.Alerts.Enrichment.Responses.{
  ReadAddress, object, indicator, no_fields, extract_public_ips, extract_from, is_public,
  before_percent, parse_provider_response, get_field,
}
use net_audit.Alerts.Enrichment.Responses.{Address}
use net_audit.Common.{◌==◌, if◌then◌else◌, ◌≡◌, refl, Bool, true, false, none, some, [], ◌∷◌, arith}

abbrev plain_address : Address
plain_address = record {
  is_private = false;
  is_loopback = false;
  is_link_local = false;
  is_reserved = false;
  is_multicast = false;
  is_unspecified = false;
  is_site_local = false;
  in_shared_space = false;
}

-- Addresses that begin with 1 are private.
abbrev sample_read : ReadAddress
sample_read [] = none
sample_read (c ∷ cs) = some (record plain_address { is_private = c == b'1' })

abbrev sample_answers : Answers
sample_answers provider_id ip key = payload (object no_fields)

abbrev abuse_row : ProviderRow
abuse_row = record {
  provider_id = codes "abuseipdb";
  provider_enabled = true;
  api_key = some (codes "k");
  last_status = none;
  last_attempt = none;
}

abbrev sample_tables : Tables
sample_tables = record {
  config = record { is_on = true; least_severity = medium; cache_ttl_hours = pos 24 };
  providers = abuse_row ∷ [];
  cache = [];
  usage = [];
  requested = [];
}

abbrev sample_run : Run
sample_run = record {
  read_address = sample_read;
  answers = sample_answers;
  now = 1000;
  today = codes "2026-01-01";
  indicators =
      indicator (codes "ip") (codes "8.8.8.8") ∷ indicator (codes "ip") (codes "10.0.0.1") ∷ [];
  severity = high;
}

-- The public address is asked about, and the answer counted.
run_counts :
    (run_all (sample_run ∷ []) sample_tables).usage
    ≡ (record { usage_provider = codes "abuseipdb"; day = codes "2026-01-01"; requests = 1 }) ∷ []
unfolding enrich enrich_all look_up_all look_up extract_public_ips extract_from is_public
    before_percent usable_providers text_eq get_enrichment_usage get_enrichment_cache
    get_enrichment_provider after_answer parse_provider_response get_field stored_response
    record_enrichment_usage
run_counts = refl

run_all-Counted_example :
    Counted
      (codes "abuseipdb")
      (codes "2026-01-01")
      (run_all (sample_run ∷ sample_run ∷ []) sample_tables)
unfolding get_enrichment_usage
run_all-Counted_example =
    run_all-Counted (sample_run ∷ sample_run ∷ []) sample_tables (codes "abuseipdb")
      (codes "2026-01-01") (refl, omega arith)

enrich-SentOnly_example :
    SentOnly
      (IsPermitted sample_read high sample_tables)
      sample_tables
      (enrich sample_read sample_answers 1000
        (codes "2026-01-01")
        sample_run.indicators
        high
        sample_tables).1
enrich-SentOnly_example =
    enrich-SentOnly sample_read sample_answers 1000 (codes "2026-01-01") sample_run.indicators high
      sample_tables

abbrev turn_on : ConfigUpdate
turn_on = record {
  given_on = true;
  given_severity = low;
  given_ttl = pos 1;
  provider_updates =
      (record { id = codes "abuseipdb"; enabled = true; new_key = none; clear_key = false }) ∷ [];
}

sample_keyed : AreKeyed sample_tables.providers
unfolding get_enrichment_provider
sample_keyed y = by_match (text_eq (codes "abuseipdb") y)
  where
    by_match : (b : Bool) → is_keyed (if b then some abuse_row else none) ≡ true
    by_match true = refl
    by_match false = refl

update_all-AreKeyed_example : AreKeyed (update_all (turn_on ∷ []) sample_tables).providers
update_all-AreKeyed_example =
    update_all-AreKeyed (turn_on ∷ []) sample_tables ((refl, tt), tt) sample_keyed

-- A key and `clear_key` at once pass the checks, and leave the enabled provider without a key.
abbrev swap_key : ConfigUpdate
swap_key = record turn_on {
  provider_updates =
      (record {
        id = codes "abuseipdb";
        enabled = true;
        new_key = some (codes "n");
        clear_key = true;
      })
      ∷ [];
}

key_lost :
    (update_config swap_key sample_tables).1.providers ≡ record abuse_row { api_key = none } ∷ []
unfolding update_config config_error provider_error text_eq set_providers set_enrichment_provider
    update_provider
key_lost = refl
