-- ===== src/Alerts/Enrichment/Lookup.antt =====
-- alerts/enrichment.py: the service, with its configuration, the test of a key, and the lookups.

use net_audit.Common.Attempt.{Attempt, failed, done}
use net_audit.Alerts.{medium}
use net_audit.Alerts.Enrichment.{
  get_enrichment_usage, CacheRow, record_enrichment_usage, get_enrichment_cache, UsageRow,
  get_enrichment_provider,
}
use net_audit.Alerts.Enrichment.Responses.{parse_provider_response, Json, is_empty}
use net_audit.Alerts.Enrichment.{set_enrichment_cache}
use net_audit.Alerts.Enrichment.{ProviderRow}
use net_audit.Common.Int.{ℤ, pos, negsuc}
use net_audit.Alerts.Enrichment.{ConfigRow}
use net_audit.Common.Text.{Text, text_eq, codes, decimal}
use net_audit.Common.{
  ltb, leb, if◌then◌else◌, ℕ, ◌+◌, ◌*◌, ◌/◌, Bool, true, false, not, ◌&&◌, Option, none, some, List,
  [], ◌∷◌, ◌++◌,
}

-- The tables, and a log of the requests, the latest first: whose key was sent, the address that was asked
-- about, the day, and whether the answer was stored.
pub record Lookup : Type 0 where
  pub asked : Text
  pub asked_ip : Text
  pub sent_key : Text
  pub on_day : Text
  pub is_stored : Bool

pub record Tables : Type 0 where
  pub config : ConfigRow
  pub providers : List ProviderRow
  pub cache : List (CacheRow Json)
  pub usage : List UsageRow
  pub requested : List Lookup

-- What `send_request` and `json.loads` make of a request: a rejection by its code, a response that is not
-- ok by its status, a body that is no JSON, or a payload.
pub data Answer : Type 0 where
  rejected : Text → Answer
  not_ok : Option ℕ → Answer
  bad_json : Answer
  payload : Json → Answer

-- The answer to a request to a provider about an address with a key.
abbrev pub Answers : Type 0
Answers = Text → Text → Text → Answer

-- What a run's result holds of an address and a provider.
pub data Entry : Type 0 where
  error_entry : Text → Entry
  response_entry : Json → Entry

-- The row that the schema inserts.
abbrev pub default_config : ConfigRow
default_config = record { is_on = false; least_severity = medium; cache_ttl_hours = pos 24 }

abbrev pub provider_daily_limit : Text → Option ℕ
provider_daily_limit provider_id =
    if text_eq provider_id (codes "abuseipdb")
    then some 1000
    else if text_eq provider_id (codes "virustotal")
    then some 500
    else none

-- int(limit * QUOTA_SOFT_LIMIT_RATIO), which the floats of both limits make exact.
abbrev pub soft_limit : ℕ → ℕ
soft_limit limit = limit * 9 / 10

abbrev pub has_key : Option Text → Bool
has_key none = false
has_key (some key) = not (is_empty key)

-- now - fetched < hours * 3600, in milliseconds.
abbrev pub is_fresh : ℕ → ℤ → ℕ → Bool
is_fresh now (pos hours) fetched = ltb now (fetched + hours * 3600000)
is_fresh now (negsuc n) fetched = ltb (now + (n + 1) * 3600000) fetched

abbrev pub is_usable : ProviderRow → Bool
is_usable p = p.provider_enabled && has_key p.api_key

unfoldable pub usable_providers : List ProviderRow → List Text
usable_providers [] = []
usable_providers (p ∷ ps) =
    let rest : List Text = usable_providers ps in if is_usable p then p.provider_id ∷ rest else rest

abbrev pub lookup_of : Text → Text → Text → Text → Bool → Lookup
lookup_of provider_id ip key today stored = record {
  asked = provider_id;
  asked_ip = ip;
  sent_key = key;
  on_day = today;
  is_stored = stored;
}

abbrev pub logged : Lookup → Tables → Tables
logged l t = record t { requested = l ∷ t.requested }

-- The response is cached and counted.
unfoldable pub stored_response : Text → Text → Text → Text → ℕ → Json → Tables → Tables
unfolding set_enrichment_cache record_enrichment_usage
stored_response provider_id ip key today now parsed t =
    logged (lookup_of provider_id ip key today true) (record t {
      cache =
          set_enrichment_cache
            (record { ip = ip; provider = provider_id; response = parsed; fetched = now }) t.cache;
      usage = record_enrichment_usage provider_id today t.usage;
    })

abbrev pub after_parse :
    Text → Text → Text → Text → ℕ → Attempt Json → Tables → Attempt Entry × Tables
after_parse provider_id ip key today now (failed e) t =
    (failed e, logged (lookup_of provider_id ip key today false) t)
after_parse provider_id ip key today now (done parsed) t =
    (done (response_entry parsed), stored_response provider_id ip key today now parsed t)

abbrev pub status_text : Option ℕ → Text
status_text none = codes "http_None"
status_text (some status) = codes "http_" ++ decimal status

unfoldable pub after_answer :
    Text → Text → Text → Text → ℕ → Answer → Tables → Attempt Entry × Tables
unfolding parse_provider_response stored_response
after_answer provider_id ip key today now (rejected code) t =
    (done (error_entry code), logged (lookup_of provider_id ip key today false) t)
after_answer provider_id ip key today now (not_ok status) t =
    (done (error_entry (status_text status)), logged (lookup_of provider_id ip key today false) t)
after_answer provider_id ip key today now bad_json t =
    (done (error_entry (codes "bad_response")), logged (lookup_of provider_id ip key today false) t)
after_answer provider_id ip key today now (payload j) t =
    after_parse provider_id ip key today now (parse_provider_response provider_id j) t

-- The key is read again; a missing row or key raises on the way to the header.
abbrev pub key_of : Option ProviderRow → Option Text
key_of none = none
key_of (some p) = p.api_key

abbrev pub with_key :
    Answers → Text → Text → Text → ℕ → Option Text → Tables → Attempt Entry × Tables
with_key answers provider_id ip today now none t = (failed (codes "TypeError"), t)
with_key answers provider_id ip today now (some key) t =
    after_answer provider_id ip key today now (answers provider_id ip key) t

abbrev pub fresh_response : ℕ → ℤ → Option (CacheRow Json) → Option Json
fresh_response now ttl none = none
fresh_response now ttl (some row) = if is_fresh now ttl row.fetched then some row.response else none

abbrev pub unless_cached :
    Answers → Text → Text → Text → ℕ → Option Json → Tables → Attempt Entry × Tables
unless_cached answers provider_id ip today now (some response) t =
    (done (response_entry response), t)
unless_cached answers provider_id ip today now none t =
    with_key answers provider_id ip today now
      (key_of (get_enrichment_provider provider_id t.providers)) t

abbrev pub within_limit :
    Answers → ℕ → ℤ → Text → Text → Text → Option ℕ → Tables → Attempt Entry × Tables
within_limit answers now ttl today ip provider_id none t = (failed (codes "KeyError"), t)
within_limit answers now ttl today ip provider_id (some limit) t =
    if leb (soft_limit limit) (get_enrichment_usage provider_id today t.usage)
    then (done (error_entry (codes "quota_exhausted")), t)
    else unless_cached answers provider_id ip today now
        (fresh_response now ttl (get_enrichment_cache ip provider_id t.cache)) t

-- One address and one provider.
unfoldable pub look_up : Answers → ℕ → ℤ → Text → Text → Text → Tables → Attempt Entry × Tables
unfolding after_answer get_enrichment_usage get_enrichment_cache get_enrichment_provider
look_up answers now ttl today ip provider_id t =
    within_limit answers now ttl today ip provider_id (provider_daily_limit provider_id) t

abbrev pub Entries : Type 0
Entries = List (Text × Entry)
