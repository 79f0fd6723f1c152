-- ===== src/Alerts/Enrichment/Responses.antt =====
-- alerts/enrichment.py: which addresses may be asked about, and what is kept of a response.
use net_audit.Common.Attempt.{Attempt, done, failed}
use net_audit.Common.Int.{ℤ, pos}
use net_audit.Common.Text.{Text, text_eq, codes}
use net_audit.Common.{
  ◌==◌, if◌then◌else◌, any, zero, Bool, true, false, not, ◌&&◌, ◌||◌, Option, none, some, List, [],
  ◌∷◌,
}

-- What the source reads of an `ipaddress` object.
pub record Address : Type 0 where
  pub is_private : Bool
  pub is_loopback : Bool
  pub is_link_local : Bool
  pub is_reserved : Bool
  pub is_multicast : Bool
  pub is_unspecified : Bool
  pub is_site_local : Bool
  pub in_shared_space : Bool

-- `ipaddress.ip_address`, none for a ValueError.
abbrev pub ReadAddress : Type 0
ReadAddress = Text → Option Address

-- ip_str.split("%")[0]
unfoldable pub before_percent : Text → Text
before_percent [] = []
before_percent (c ∷ cs) = if c == b'%' then [] else c ∷ before_percent cs

abbrev pub is_public_ip : Address → Bool
is_public_ip a = not (
    a.is_private
    || (a.is_loopback
        || (a.is_link_local
            || (a.is_reserved || (a.is_multicast || (a.is_unspecified || a.is_site_local))))))

-- 100.64.0.0/10 is refused first.
abbrev pub is_public_address : Option Address → Bool
is_public_address none = false
is_public_address (some a) = if a.in_shared_space then false else is_public_ip a

unfoldable pub is_public : ReadAddress → Text → Bool
unfolding before_percent
is_public read_address ip = is_public_address (read_address (before_percent ip))

-- An indicator is a dict, here its type and `str` of its value, or something else.
pub data Indicator : Type 0 where
  indicator : Text → Text → Indicator
  not_a_dict : Indicator

abbrev pub is_empty : Text → Bool
is_empty [] = true
is_empty (c ∷ cs) = false

abbrev pub is_wanted : ReadAddress → List Text → Text → Text → Bool
is_wanted read_address seen kind value =
    text_eq kind (codes "ip")
    && (not (is_empty value) && (not (any (text_eq value) seen) && is_public read_address value))

unfoldable pub extract_from : ReadAddress → List Text → List Indicator → List Text
unfolding is_public
extract_from read_address seen [] = []
extract_from read_address seen (not_a_dict ∷ rest) = extract_from read_address seen rest
extract_from read_address seen (indicator kind value ∷ rest) =
    let further = extract_from read_address (value ∷ seen) rest in
    let without = extract_from read_address seen rest in
    if is_wanted read_address seen kind value then value ∷ further else without

unfoldable pub extract_public_ips : ReadAddress → List Indicator → List Text
unfolding extract_from
extract_public_ips read_address indicators = extract_from read_address [] indicators

-- A JSON value; a float is its text, and whether it is zero.
mutual
  pub data Json : Type 0 where
    null : Json
    boolean : Bool → Json
    whole : ℤ → Json
    float : Bool → Text → Json
    string : Text → Json
    array : Items → Json
    object : Fields → Json

  pub data Items : Type 0 where
    no_items : Items
    item : Json → Items → Items

  pub data Fields : Type 0 where
    no_fields : Fields
    field : Text → Json → Fields → Fields

-- Python's truth of a value.
abbrev pub is_true : Json → Bool
is_true null = false
is_true (boolean b) = b
is_true (whole (pos zero)) = false
is_true (whole n) = true
is_true (float is_zero text) = not is_zero
is_true (string s) = not (is_empty s)
is_true (array no_items) = false
is_true (array (item j js)) = true
is_true (object no_fields) = false
is_true (object (field name j fs)) = true

unfoldable pub get_field : Text → Fields → Json
get_field name no_fields = null
get_field name (field n j fs) = if text_eq n name then j else get_field name fs

-- `.get(name)`, an AttributeError for what is no dict.
abbrev pub get : Text → Json → Attempt Json
get name (object fs) = done (get_field name fs)
get name _ = failed (codes "AttributeError")

abbrev pub and_then : Attempt Json → (Json → Attempt Json) → Attempt Json
and_then (failed e) k = failed e
and_then (done j) k = k j

-- `… or {}`
abbrev pub or_empty : Json → Json
or_empty j = if is_true j then j else object no_fields

abbrev pub parse_abuseipdb : Json → Attempt Json
parse_abuseipdb (object fs) = done (
    object (
      field (codes "abuse_confidence_score") (get_field (codes "abuseConfidenceScore") fs) (
        field (codes "is_tor") (boolean (is_true (get_field (codes "isTor") fs))) (
          field (codes "country_code") (get_field (codes "countryCode") fs) (
            field (codes "usage_type") (get_field (codes "usageType") fs) (
              field (codes "num_reports") (get_field (codes "numReports") fs) (
                field (codes "last_reported_at") (get_field (codes "lastReportedAt") fs)
                  (field (codes "isp") (get_field (codes "isp") fs) no_fields))))))))
parse_abuseipdb _ = failed (codes "AttributeError")

abbrev pub parse_virustotal : Json → Attempt Json
parse_virustotal (object fs) = done (
    object (
      field (codes "reputation") (get_field (codes "reputation") fs) (
        field (codes "as_owner") (get_field (codes "as_owner") fs) (
          field (codes "country") (get_field (codes "country") fs) (
            field (codes "network") (get_field (codes "network") fs) (
              field (codes "last_analysis_stats")
                (or_empty (get_field (codes "last_analysis_stats") fs))
                (field (codes "last_analysis_date") (get_field (codes "last_analysis_date") fs)
                  no_fields)))))))
parse_virustotal _ = failed (codes "AttributeError")

unfoldable pub parse_provider_response : Text → Json → Attempt Json
unfolding get_field
parse_provider_response provider_id payload = and_then (get (codes "data") payload) (λ body.
    if text_eq provider_id (codes "abuseipdb")
    then parse_abuseipdb (or_empty body)
    else and_then (get (codes "attributes") (or_empty body))
        (λ attrs. parse_virustotal (or_empty attrs)))
