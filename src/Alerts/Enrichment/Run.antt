-- ===== src/Alerts/Enrichment/Run.antt =====
-- alerts/enrichment.py: `enrich`, over all addresses and providers, and the settings of the service.

use net_audit.Alerts.Enrichment.Responses.{extract_public_ips, ReadAddress, Indicator}
use net_audit.Alerts.Enrichment.{set_enrichment_provider}
use net_audit.Alerts.Enrichment.Lookup.{Tables, Entries, has_key, key_of, provider_daily_limit}
use net_audit.Common.Int.{ℤ, pos, negsuc}
use net_audit.Alerts.Enrichment.{get_enrichment_provider}
use net_audit.Alerts.Enrichment.{ProviderRow}
use net_audit.Alerts.{Severity, severity_order}
use net_audit.Alerts.Enrichment.Lookup.{usable_providers}
use net_audit.Alerts.Enrichment.{ConfigRow}
use net_audit.Alerts.Enrichment.Lookup.{Answers}
use net_audit.Common.Text.{Text, text_eq}
use net_audit.Alerts.Enrichment.Lookup.{look_up}
use net_audit.Common.Attempt.{Attempt, failed, done}
use net_audit.Common.{
  ltb, if◌then◌else◌, any, ℕ, Bool, true, false, not, ◌&&◌, ◌||◌, Option, none, some, List, [], ◌∷◌,
}

-- The next step, unless an exception ends the run with the tables as they are.
abbrev pub then_run :
    {A B : Type 0} → Attempt A × Tables → (A → Tables → Attempt B × Tables) → Attempt B × Tables
then_run (failed e, t) next = (failed e, t)
then_run (done a, t) next = next a t

unfoldable pub look_up_all :
    Answers → ℕ → ℤ → Text → Text → List Text → Tables → Attempt Entries × Tables
unfolding look_up
look_up_all answers now ttl today ip [] t = (done [], t)
look_up_all answers now ttl today ip (p ∷ ps) t =
    then_run (look_up answers now ttl today ip p t) (λ entry u.
      then_run (look_up_all answers now ttl today ip ps u)
        (λ entries v. (done ((p, entry) ∷ entries), v)))

-- An address that no provider was asked about has no place in the result.
abbrev pub add_address : Text → Entries → List (Text × Entries) → List (Text × Entries)
add_address ip [] results = results
add_address ip (e ∷ es) results = (ip, e ∷ es) ∷ results

unfoldable pub enrich_all :
    Answers
    → ℕ
    → ℤ
    → Text
    → List Text
    → List Text
    → Tables
    → Attempt (List (Text × Entries)) × Tables
unfolding look_up_all
enrich_all answers now ttl today providers [] t = (done [], t)
enrich_all answers now ttl today providers (ip ∷ ips) t =
    then_run (look_up_all answers now ttl today ip providers t) (λ entries u.
      then_run (enrich_all answers now ttl today providers ips u)
        (λ results v. (done (add_address ip entries results), v)))

-- An exception is logged, and the result is empty.
abbrev pub never_raised : Attempt (List (Text × Entries)) × Tables → List (Text × Entries) × Tables
never_raised (failed e, t) = ([], t)
never_raised (done results, t) = (results, t)

-- Whether the run gets as far as the lookups: it is on, the threat is severe enough, and there is an
-- address and a provider.
abbrev pub is_due : ConfigRow → Severity → List Text → List Text → Bool
is_due row severity ips providers =
    row.is_on
    && (not (ltb (severity_order severity) (severity_order row.least_severity))
        && (not (is_no_text ips) && not (is_no_text providers)))
  where
    is_no_text : List Text → Bool
    is_no_text [] = true
    is_no_text (t ∷ ts) = false

unfoldable pub enrich :
    ReadAddress
    → Answers
    → ℕ
    → Text
    → List Indicator
    → Severity
    → Tables
    → List (Text × Entries) × Tables
unfolding enrich_all usable_providers extract_public_ips
enrich read_address answers now today indicators severity t =
    let row : ConfigRow = t.config in
    let ips : List Text = extract_public_ips read_address indicators in
    let usable : List Text = usable_providers t.providers in
    if is_due row severity ips usable
    then never_raised (enrich_all answers now row.cache_ttl_hours today usable ips t)
    else ([], t)

pub record ProviderUpdate : Type 0 where
  pub id : Text
  pub enabled : Bool
  pub new_key : Option Text
  pub clear_key : Bool

pub record ConfigUpdate : Type 0 where
  pub given_on : Bool
  pub given_severity : Severity
  pub given_ttl : ℤ
  pub provider_updates : List ProviderUpdate

-- `EnrichmentConfigError`, with its code's words.
pub data ConfigError : Type 0 where
  bad_cache_ttl : ConfigError
  duplicate_provider unknown_provider missing_key : Text → ConfigError

abbrev pub is_known : Option ℕ → Bool
is_known none = false
is_known (some limit) = true

abbrev pub keeps_key : ProviderUpdate → List ProviderRow → Bool
keeps_key p rows =
    has_key p.new_key || (has_key (key_of (get_enrichment_provider p.id rows)) && not p.clear_key)

unfoldable pub provider_error :
    List Text → List ProviderRow → List ProviderUpdate → Option ConfigError
unfolding get_enrichment_provider
provider_error seen rows [] = none
provider_error seen rows (p ∷ ps) =
    let rest : Option ConfigError = provider_error (p.id ∷ seen) rows ps in
    if any (text_eq p.id) seen
    then some (duplicate_provider p.id)
    else if not (is_known (provider_daily_limit p.id))
    then some (unknown_provider p.id)
    else if p.enabled && not (keeps_key p rows)
    then some (missing_key p.id)
    else rest

abbrev pub is_bad_ttl : ℤ → Bool
is_bad_ttl (pos hours) = ltb hours 1
is_bad_ttl (negsuc n) = true

unfoldable pub config_error : ConfigUpdate → Tables → Option ConfigError
unfolding provider_error
config_error u t =
    if is_bad_ttl u.given_ttl
    then some bad_cache_ttl
    else provider_error [] t.providers u.provider_updates

unfoldable pub set_providers : List ProviderUpdate → List ProviderRow → List ProviderRow
unfolding set_enrichment_provider
set_providers [] rows = rows
set_providers (p ∷ ps) rows =
    set_providers ps (set_enrichment_provider p.id p.enabled p.new_key p.clear_key rows)

abbrev pub row_of : ConfigUpdate → ConfigRow
row_of u = record {
  is_on = u.given_on;
  least_severity = u.given_severity;
  cache_ttl_hours = u.given_ttl;
}

abbrev pub when_checked : ConfigUpdate → Tables → Option ConfigError → Option ConfigError × Tables
when_checked u t (some error) = (some error, t)
when_checked u t none =
    (none, record t { config = row_of u; providers = set_providers u.provider_updates t.providers })

unfoldable pub update_config : ConfigUpdate → Tables → Option ConfigError × Tables
unfolding config_error set_providers
update_config u t = when_checked u t (config_error u t)
