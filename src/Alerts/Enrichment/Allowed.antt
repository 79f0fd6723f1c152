-- ===== src/Alerts/Enrichment/Allowed.antt =====
-- What a run of `enrich` sends, and to whom.
use net_audit.Alerts.Enrichment.{ProviderRow}
use net_audit.Alerts.Enrichment.Responses.{Address, before_percent}
use net_audit.Alerts.Enrichment.Lookup.{has_key, is_usable}
use net_audit.Common.Attempt.{Attempt, failed, done}
use net_audit.Alerts.Enrichment.Run.{enrich}
use net_audit.Alerts.Enrichment.Run.{is_due}
use net_audit.Common.Int.{ℤ}
use net_audit.Alerts.{Severity, severity_order}
use net_audit.Alerts.Enrichment.Responses.{
  extract_public_ips, is_wanted, Indicator, is_public, indicator, not_a_dict, Json,
  parse_provider_response,
}
use net_audit.Alerts.Enrichment.{
  ConfigRow, get_enrichment_provider, get_enrichment_usage, get_enrichment_cache,
}
use net_audit.Alerts.Enrichment.Responses.{extract_from}
use net_audit.Common.Text.{Text}
use net_audit.Alerts.Enrichment.Lookup.{
  Lookup, Tables, Answers, usable_providers, logged, after_answer, key_of, stored_response, Answer,
  lookup_of, rejected, with_key, within_limit, look_up, not_ok, unless_cached, soft_limit,
  provider_daily_limit, payload, fresh_response, after_parse, bad_json,
}
use net_audit.Alerts.Enrichment.Responses.{ReadAddress}
use net_audit.Alerts.Enrichment.Keeps.{enrich-keeps, enrich_all-keeps}
use net_audit.Common.{
  ltb, leb, Bool-cases, All, ℕ, ◌≤◌, ◌≡◌, refl, sym, ap, inl, inr, Bool, true, false, not, ◌&&◌,
  Option, none, some, List, [], ◌∷◌, ◌++◌, arith, ◌⊎◌, some-cases,
}

-- An address outside every range that is not public, a zone left aside.
abbrev pub IsOpen : ReadAddress → Text → Type 0
IsOpen read_address ip =
    (a : Address) × (read_address (before_percent ip) ≡ some a)
    × (a.is_private ≡ false)
    × (a.is_loopback ≡ false)
    × (a.is_link_local ≡ false)
    × (a.is_reserved ≡ false)
    × (a.is_multicast ≡ false)
    × (a.is_unspecified ≡ false)
    × (a.is_site_local ≡ false)
    × (a.in_shared_space ≡ false)

abbrev pub IsRow : ProviderRow → List ProviderRow → Type 0
IsRow p [] = ⊥
IsRow p (x ∷ xs) = (p ≡ x) ⊎ IsRow p xs

-- A provider that is enabled and has a key that is not empty.
abbrev pub IsReady : List ProviderRow → Text → Type 0
IsReady ps provider_id =
    (p : ProviderRow) × IsRow p ps
    × (p.provider_id ≡ provider_id)
    × (p.provider_enabled ≡ true)
    × ((c : ℕ) × ((cs : Text) × (p.api_key ≡ some (c ∷ cs))))

-- A lookup that the settings allow: the service is on and the threat severe enough, the address is
-- public, and the provider is an enabled one, asked with its own key.
abbrev pub IsPermitted : ReadAddress → Severity → Tables → Lookup → Type 0
IsPermitted read_address severity t l =
    (t.config.is_on ≡ true)
    × ((severity_order t.config.least_severity ≤ severity_order severity)
        × (IsOpen read_address l.asked_ip
            × (IsReady t.providers l.asked
                × (key_of (get_enrichment_provider l.asked t.providers) ≡ some l.sent_key))))

-- The requests from some tables to others are all of a kind.
abbrev pub SentOnly : (Lookup → Type 0) → Tables → Tables → Type 0
SentOnly Kind before after =
    (sent : List Lookup) × ((after.requested ≡ sent ++ before.requested) × All Kind sent)

IsReady-cons :
    (p : ProviderRow) (ps : List ProviderRow) (ids : List Text)
    → All (IsReady ps) ids
    → All (IsReady (p ∷ ps)) ids
IsReady-cons p ps [] h = tt
IsReady-cons p ps (x ∷ ids) ((q, row, named, on, key), hs) =
    ((q, inr row, named, on, key), IsReady-cons p ps ids hs)

has_key-filled :
    (key : Option Text) → has_key key ≡ true → (c : ℕ) × ((cs : Text) × (key ≡ some (c ∷ cs)))
has_key-filled none h = cc
has_key-filled (some []) h = cc
has_key-filled (some (c ∷ cs)) h = (c, (cs, refl))

usable_providers-IsReady : (ps : List ProviderRow) → All (IsReady ps) (usable_providers ps)
unfolding usable_providers
usable_providers-IsReady [] = tt
usable_providers-IsReady (p ∷ ps) =
    let rest = IsReady-cons p ps (usable_providers ps) (usable_providers-IsReady ps) in
    elim (Bool-cases (is_usable p)) [
      | inl usable ↦
          rw usable
            ((p, inl refl, refl, ground arith, has_key-filled p.api_key (ground arith)), rest)
      | inr other ↦ rw other rest
    ]

is_public-IsOpen :
    (read_address : ReadAddress) (ip : Text)
    → is_public read_address ip ≡ true
    → IsOpen read_address ip
unfolding is_public
is_public-IsOpen read_address ip h = elim (some-cases (read_address (before_percent ip))) [
  | inl unread ↦ ground arith
  | inr (a, reads) ↦ (
    a,
    reads,
    ground arith,
    ground arith,
    ground arith,
    ground arith,
    ground arith,
    ground arith,
    ground arith,
    ground arith,
  )
]

wanted-IsOpen :
    (read_address : ReadAddress) (seen : List Text) (kind value : Text)
    → is_wanted read_address seen kind value ≡ true
    → IsOpen read_address value
wanted-IsOpen read_address seen kind value h = is_public-IsOpen read_address value (ground arith)

extract-IsOpen :
    (read_address : ReadAddress) (seen : List Text) (indicators : List Indicator)
    → All (IsOpen read_address) (extract_from read_address seen indicators)
unfolding extract_from
extract-IsOpen read_address seen [] = tt
extract-IsOpen read_address seen (not_a_dict ∷ rest) = extract-IsOpen read_address seen rest
extract-IsOpen read_address seen (indicator kind value ∷ rest) =
    let further = extract-IsOpen read_address (value ∷ seen) rest in
    let without = extract-IsOpen read_address seen rest in
    elim (Bool-cases (is_wanted read_address seen kind value)) [
      | inl wanted ↦ rw wanted (wanted-IsOpen read_address seen kind value wanted, further)
      | inr other ↦ rw other without
    ]

module _ (read_address : ReadAddress) (severity : Severity) (t0 : Tables) where
  abbrev Sent : Tables → Type 0
  Sent t = (t.providers ≡ t0.providers) × SentOnly (IsPermitted read_address severity t0) t0 t

  module _ (answers : Answers) (now : ℕ) (ttl : ℤ) (today : Text) where
    logged-Sent :
        (l : Lookup) (t : Tables)
        → IsPermitted read_address severity t0 l
        → Sent t
        → Sent (logged l t)
    logged-Sent l t permitted (same, (sent, (e, h))) =
        (same, (l ∷ sent, (ap (λ ls. l ∷ ls) e, (permitted, h))))

    after_answer-Sent :
        (q ip key : Text) (a : Answer) (t : Tables)
        → ((stored : Bool) → IsPermitted read_address severity t0 (lookup_of q ip key today stored))
        → Sent t
        → Sent (after_answer q ip key today now a t).1
    unfolding after_answer stored_response
    after_answer-Sent q ip key (rejected code) t ok h =
        logged-Sent (lookup_of q ip key today false) t (ok false) h
    after_answer-Sent q ip key (not_ok status) t ok h =
        logged-Sent (lookup_of q ip key today false) t (ok false) h
    after_answer-Sent q ip key bad_json t ok h =
        logged-Sent (lookup_of q ip key today false) t (ok false) h
    after_answer-Sent q ip key (payload j) t ok h = parsed (parse_provider_response q j)
      where
        parsed : (a : Attempt Json) → Sent (after_parse q ip key today now a t).1
        parsed (failed e) = logged-Sent (lookup_of q ip key today false) t (ok false) h
        parsed (done j) = logged-Sent (lookup_of q ip key today true) t (ok true) h

    module _ (ip q : Text)
        (ok : (key : Text) (stored : Bool)
          → key_of (get_enrichment_provider q t0.providers) ≡ some key
          → IsPermitted read_address severity t0 (lookup_of q ip key today stored)) where
      with_key-Sent :
          (key : Option Text) (t : Tables)
          → key_of (get_enrichment_provider q t0.providers) ≡ key
          → Sent t
          → Sent (with_key answers q ip today now key t).1
      with_key-Sent none t e h = h
      with_key-Sent (some key) t e h =
          after_answer-Sent q ip key (answers q ip key) t (λ stored. ok key stored e) h

      unless_cached-Sent :
          (response : Option Json) (t : Tables)
          → Sent t
          → Sent (unless_cached answers q ip today now response t).1
      unless_cached-Sent (some response) t h = h
      unless_cached-Sent none t h =
          with_key-Sent (key_of (get_enrichment_provider q t.providers)) t
            (ap (λ ps. key_of (get_enrichment_provider q ps)) (sym h.0)) h

      within_limit-Sent :
          (limit : Option ℕ) (t : Tables)
          → Sent t
          → Sent (within_limit answers now ttl today ip q limit t).1
      within_limit-Sent none t h = h
      within_limit-Sent (some limit) t h =
          elim (Bool-cases (leb (soft_limit limit) (get_enrichment_usage q today t.usage))) [
            | inl spent ↦ rw spent h
            | inr left ↦ rw left (
                unless_cached-Sent (fresh_response now ttl (get_enrichment_cache ip q t.cache)) t h)
          ]

      look_up-Sent : (t : Tables) → Sent t → Sent (look_up answers now ttl today ip q t).1
      unfolding look_up
      look_up-Sent t h = within_limit-Sent (provider_daily_limit q) t h

due_on :
    (row : ConfigRow) (severity : Severity) (ips providers : List Text)
    → is_due row severity ips providers ≡ true
    → (row.is_on ≡ true) × (severity_order row.least_severity ≤ severity_order severity)
due_on row severity ips providers h =
    split row.is_on _ (severity_order severity) (severity_order row.least_severity) h
  where
    split : (a c : Bool) (x y : ℕ) → (a && (not (ltb x y) && c)) ≡ true → (a ≡ true) × (y ≤ x)
    split a c x y k = ground arith

-- Whatever is answered, a run sends a request only while the service is on and the threat is at least as
-- severe as the settings ask, only about a public address, only to a provider that is enabled and has a
-- key that is not empty, and with that provider's own key.
pub enrich-SentOnly :
    (read_address : ReadAddress) (answers : Answers) (now : ℕ) (today : Text)
    (indicators : List Indicator) (severity : Severity) (t : Tables)
    → SentOnly
        (IsPermitted read_address severity t)
        t
        (enrich read_address answers now today indicators severity t).1
unfolding extract_public_ips
enrich-SentOnly read_address answers now today indicators severity t =
    let start : Sent read_address severity t t = (refl, ([], (refl, tt))) in
    let ps = usable_providers t.providers in
    let ips = extract_public_ips read_address indicators in
    (enrich-keeps (Sent read_address severity t) read_address answers now today indicators severity
      t start
      (λ due.
        let on = due_on t.config severity ips ps due in
        enrich_all-keeps (IsReady t.providers) (IsOpen read_address) (Sent read_address severity t)
          answers now t.config.cache_ttl_hours today
          (λ ip q u i a k.
            look_up-Sent read_address severity t answers now t.config.cache_ttl_hours today ip q
              (λ key stored e. (on.0, (on.1, (i, (a, e))))) u k)
          ps ips t (extract-IsOpen read_address [] indicators)
          (usable_providers-IsReady t.providers) start)).1
