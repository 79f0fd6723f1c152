-- ===== src/Alerts/Enrichment.antt =====
-- alerts/store.py, the tables of the enrichment: its configuration, the providers with their keys, the
-- cached responses, and the counts of requests by day.
pub mod Responses
pub mod Lookup
pub mod Run
pub mod Keeps
pub mod Quota
pub mod Allowed
pub mod Keys
use net_audit.Common.Int.{ℤ}
use net_audit.Common.Text.{text_eq}
use net_audit.Alerts.{ChannelStatus}
use net_audit.Common.Text.{Text}
use net_audit.Alerts.{Severity}
use net_audit.Common.{
  if◌then◌else◌, All, ℕ, ◌+◌, ap, Bool, true, false, ◌&&◌, Option, none, some, List, [], ◌∷◌, arith,
}

pub record ConfigRow : Type 0 where
  pub is_on : Bool
  pub least_severity : Severity
  pub cache_ttl_hours : ℤ

-- `last_attempt` is the number of the instant's milliseconds.
pub record ProviderRow : Type 0 where
  pub provider_id : Text
  pub provider_enabled : Bool
  pub api_key : Option Text
  pub last_status : Option ChannelStatus
  pub last_attempt : Option ℕ

-- R is the type of the responses that are kept.
pub record CacheRow {ℓ} (R : Type ℓ) : Type ℓ where
  pub ip : Text
  pub provider : Text
  pub response : R
  pub fetched : ℕ

pub record UsageRow : Type 0 where
  pub usage_provider : Text
  pub day : Text
  pub requests : ℕ

unfoldable pub get_enrichment_provider : Text → List ProviderRow → Option ProviderRow
get_enrichment_provider provider_id [] = none
get_enrichment_provider provider_id (p ∷ ps) =
    if text_eq p.provider_id provider_id then some p else get_enrichment_provider provider_id ps

-- COALESCE(?, api_key)
abbrev pub coalesce : Option Text → Option Text → Option Text
coalesce none stored = stored
coalesce (some key) stored = some key

abbrev pub provider_set : Bool → Option Text → Bool → ProviderRow → ProviderRow
provider_set enabled key true p = record p {
  provider_enabled = enabled;
  api_key = none;
  last_status = none;
  last_attempt = none;
}
provider_set enabled key false p = record p {
  provider_enabled = enabled;
  api_key = coalesce key p.api_key;
}

unfoldable pub update_provider :
    Text → (ProviderRow → ProviderRow) → List ProviderRow → List ProviderRow
update_provider provider_id change [] = []
update_provider provider_id change (p ∷ ps) =
    let rest : List ProviderRow = update_provider provider_id change ps in
    if text_eq p.provider_id provider_id then change p ∷ rest else p ∷ rest

unfoldable pub set_enrichment_provider :
    Text → Bool → Option Text → Bool → List ProviderRow → List ProviderRow
unfolding update_provider
set_enrichment_provider provider_id enabled key clear_key ps =
    update_provider provider_id (provider_set enabled key clear_key) ps

abbrev pub with_status : ChannelStatus → ℕ → ProviderRow → ProviderRow
with_status status now p = record p { last_status = some status; last_attempt = some now }

unfoldable pub update_enrichment_provider_status :
    Text → ChannelStatus → ℕ → List ProviderRow → List ProviderRow
unfolding update_provider
update_enrichment_provider_status provider_id status now ps =
    update_provider provider_id (with_status status now) ps

unfoldable pub get_enrichment_cache :
    {R : Type 0} → Text → Text → List (CacheRow R) → Option (CacheRow R)
get_enrichment_cache ip provider [] = none
get_enrichment_cache ip provider (c ∷ cs) =
    if text_eq c.ip ip && text_eq c.provider provider
    then some c
    else get_enrichment_cache ip provider cs

unfoldable pub set_enrichment_cache :
    {R : Type 0} → CacheRow R → List (CacheRow R) → List (CacheRow R)
set_enrichment_cache row [] = row ∷ []
set_enrichment_cache row (c ∷ cs) =
    let rest = set_enrichment_cache row cs in
    if text_eq c.ip row.ip && text_eq c.provider row.provider then row ∷ cs else c ∷ rest

abbrev pub is_row : Text → Text → UsageRow → Bool
is_row provider day u = text_eq u.usage_provider provider && text_eq u.day day

unfoldable pub get_enrichment_usage : Text → Text → List UsageRow → ℕ
get_enrichment_usage provider day [] = 0
get_enrichment_usage provider day (u ∷ us) =
    if is_row provider day u then u.requests else get_enrichment_usage provider day us

unfoldable pub record_enrichment_usage : Text → Text → List UsageRow → List UsageRow
record_enrichment_usage provider day [] =
    (record { usage_provider = provider; day = day; requests = 1 }) ∷ []
record_enrichment_usage provider day (u ∷ us) =
    let rest : List UsageRow = record_enrichment_usage provider day us in
    if is_row provider day u then (record u { requests = u.requests + 1 }) ∷ us else u ∷ rest
