-- ===== src/Alerts/Enrichment/Keys.antt =====
-- The enabled providers have keys.
use mathlib.Core.Option.{some-ne-none}
use mathlib.Core.Option
use net_audit.Alerts.Enrichment.Responses.{is_empty}
use net_audit.Alerts.Enrichment.Lookup.{has_key, key_of, Tables, provider_daily_limit}
use net_audit.Alerts.Enrichment.Run.{
  set_providers, keeps_key, ConfigError, is_known, config_error, update_config, is_bad_ttl,
  duplicate_provider, unknown_provider, missing_key, bad_cache_ttl,
}
use net_audit.Alerts.Enrichment.Run.{provider_error}
use net_audit.Alerts.Enrichment.{set_enrichment_provider, update_provider, provider_set, coalesce}
use net_audit.Alerts.Enrichment.{get_enrichment_provider}
use net_audit.Alerts.Enrichment.Run.{ConfigUpdate}
use net_audit.Alerts.Enrichment.Run.{ProviderUpdate}
use net_audit.Common.Text.{Text, text_eq, text_eq→≡, text_eq_sym}
use net_audit.Alerts.Enrichment.{ProviderRow}
use net_audit.Common.{
  if◌then◌else◌, Bool-cases, some-cases, All, any, ◌≡◌, refl, sym, ◌∙◌, inl, inr, Bool, true, false,
  not, ◌&&◌, ◌||◌, Option, none, some, List, [], ◌∷◌, arith,
}

abbrev pub is_keyed : Option ProviderRow → Bool
is_keyed none = true
is_keyed (some p) = not p.provider_enabled || has_key p.api_key

-- Every provider that is enabled has a key that is not empty.
abbrev pub AreKeyed : List ProviderRow → Type 0
AreKeyed rows = (provider_id : Text) → is_keyed (get_enrichment_provider provider_id rows) ≡ true

abbrev is_given_empty : Option Text → Bool
is_given_empty none = false
is_given_empty (some key) = is_empty key

-- An update of an enabled provider does not clear its key, and does not give an empty one.
abbrev pub is_consistent : ProviderUpdate → Bool
is_consistent p = not (p.enabled && (p.clear_key || is_given_empty p.new_key))

abbrev pub IsConsistent : ConfigUpdate → Type 0
IsConsistent u = All (λ p. is_consistent p ≡ true) u.provider_updates

get-update_provider :
    (x y : Text) (change : ProviderRow → ProviderRow) (rows : List ProviderRow)
    → ((p : ProviderRow) → (change p).provider_id ≡ p.provider_id)
    → get_enrichment_provider y (update_provider x change rows) ≡ (
        if text_eq x y
        then Option.map change (get_enrichment_provider x rows)
        else get_enrichment_provider y rows)
unfolding get_enrichment_provider update_provider
get-update_provider x y change [] keeps = ground arith
get-update_provider x y change (p ∷ ps) keeps =
    let rest = get-update_provider x y change ps keeps in
    elim (Bool-cases (text_eq p.provider_id x)) [
      | inl same ↦
          let e : p.provider_id ≡ x = text_eq→≡ p.provider_id x same in
          rw (same, keeps p, sym e) (rw e (ground (arith, rest)))
      | inr other ↦ elim (Bool-cases (text_eq p.provider_id y)) [
        | inl here ↦
            let e : p.provider_id ≡ y = text_eq→≡ p.provider_id y here in
            let apart : text_eq x y ≡ false = rw (sym e) (text_eq_sym x p.provider_id ∙ other) in
            rw (other, here, apart) refl
        | inr there ↦ rw (other, there, rest) refl
      ]
    ]

set_id :
    (enabled : Bool) (key : Option Text) (clear : Bool) (p : ProviderRow)
    → (provider_set enabled key clear p).provider_id ≡ p.provider_id
set_id enabled key true p = refl
set_id enabled key false p = refl

get-set_provider :
    (u : ProviderUpdate) (y : Text) (rows : List ProviderRow)
    → get_enrichment_provider y (set_enrichment_provider u.id u.enabled u.new_key u.clear_key rows)
      ≡ (if text_eq u.id y
          then Option.map
              (provider_set u.enabled u.new_key u.clear_key)
              (get_enrichment_provider u.id rows)
          else get_enrichment_provider y rows)
unfolding set_enrichment_provider
get-set_provider u y rows =
    get-update_provider u.id y (provider_set u.enabled u.new_key u.clear_key) rows
      (set_id u.enabled u.new_key u.clear_key)

coalesce_key :
    (given stored : Option Text)
    → is_given_empty given ≡ false
    → (has_key given || has_key stored) ≡ true
    → has_key (coalesce given stored) ≡ true
coalesce_key none stored h k = k
coalesce_key (some key) stored h k = rw h refl

-- The row of an update that was checked is keyed.
set-is_keyed :
    (enabled clear : Bool) (given : Option Text) (row : Option ProviderRow)
    → not (enabled && (clear || is_given_empty given)) ≡ true
    → (enabled && not (has_key given || (has_key (key_of row) && not clear))) ≡ false
    → is_keyed (Option.map (provider_set enabled given clear) row) ≡ true
set-is_keyed enabled clear given none consistent checked = refl
set-is_keyed false true given (some p) consistent checked = refl
set-is_keyed false false given (some p) consistent checked = refl
set-is_keyed true true given (some p) consistent checked = cc
set-is_keyed true false given (some p) consistent checked =
    coalesce_key given p.api_key (ground arith) (ground arith)

passed :
    (b c d : Bool) (x y z : ConfigError) (rest : Option ConfigError)
    → (if b then some x else if not c then some y else if d then some z else rest) ≡ none
    → (b ≡ false) × ((d ≡ false) × (rest ≡ none))
passed true c d x y z rest h = cc
passed false false d x y z rest h = cc
passed false true true x y z rest h = cc
passed false true false x y z rest h = (refl, (refl, h))

-- What the checks of a list of updates say of the first.
first_checked :
    (seen : List Text) (rows : List ProviderRow) (p : ProviderUpdate) (ps : List ProviderUpdate)
    → provider_error seen rows (p ∷ ps) ≡ none
    → (any (text_eq p.id) seen ≡ false)
      × (((p.enabled && not (keeps_key p rows)) ≡ false)
          × (provider_error (p.id ∷ seen) rows ps ≡ none))
unfolding provider_error
first_checked seen rows p ps h =
    passed (any (text_eq p.id) seen) (is_known (provider_daily_limit p.id))
      (p.enabled && not (keeps_key p rows)) (duplicate_provider p.id) (unknown_provider p.id)
      (missing_key p.id) (provider_error (p.id ∷ seen) rows ps) h

other_row :
    (seen : List Text) (p : ProviderUpdate) (y : Text) (before rows : List ProviderRow)
    → any (text_eq y) (p.id ∷ seen) ≡ false
    → ((y : Text)
        → any (text_eq y) seen ≡ false
        → get_enrichment_provider y rows ≡ get_enrichment_provider y before)
    → get_enrichment_provider y (set_enrichment_provider p.id p.enabled p.new_key p.clear_key rows)
      ≡ get_enrichment_provider y before
other_row seen p y before rows k same =
    let apart : text_eq p.id y ≡ false = text_eq_sym p.id y ∙ ground arith in
    rw (get-set_provider p y rows, apart) (same y (ground arith))

set-AreKeyed :
    (p : ProviderUpdate) (rows : List ProviderRow)
    → is_consistent p ≡ true
    → (p.enabled && not (keeps_key p rows)) ≡ false
    → AreKeyed rows
    → AreKeyed (set_enrichment_provider p.id p.enabled p.new_key p.clear_key rows)
set-AreKeyed p rows consistent checked h y = elim (Bool-cases (text_eq p.id y)) [
  | inl here ↦
      rw (get-set_provider p y rows, here)
        (set-is_keyed p.enabled p.clear_key p.new_key (get_enrichment_provider p.id rows) consistent
          checked)
  | inr there ↦ rw (get-set_provider p y rows, there) (h y)
]

set_providers-AreKeyed :
    (seen : List Text) (before rows : List ProviderRow) (ps : List ProviderUpdate)
    → provider_error seen before ps ≡ none
    → ((y : Text)
        → any (text_eq y) seen ≡ false
        → get_enrichment_provider y rows ≡ get_enrichment_provider y before)
    → All (λ p. is_consistent p ≡ true) ps
    → AreKeyed rows
    → AreKeyed (set_providers ps rows)
unfolding set_providers
set_providers-AreKeyed seen before rows [] ok same consistent h = h
set_providers-AreKeyed seen before rows (p ∷ ps) ok same consistent h =
    let f = first_checked seen before p ps ok in
    set_providers-AreKeyed (p.id ∷ seen) before
      (set_enrichment_provider p.id p.enabled p.new_key p.clear_key rows) ps f.1.1
      (λ y k. other_row seen p y before rows k same) consistent.1
      (set-AreKeyed p rows consistent.0 (rw (same p.id f.0) f.1.0) h)

update_error :
    (u : ConfigUpdate) (t : Tables)
    → config_error u t ≡ none
    → provider_error [] t.providers u.provider_updates ≡ none
unfolding config_error
update_error u t h =
    beyond (is_bad_ttl u.given_ttl) (provider_error [] t.providers u.provider_updates) h
  where
    beyond :
        (b : Bool) (rest : Option ConfigError)
        → (if b then some bad_cache_ttl else rest) ≡ none
        → rest ≡ none
    beyond true rest k = cc
    beyond false rest k = k

abbrev pub update_all : List ConfigUpdate → Tables → Tables
update_all [] t = t
update_all (u ∷ us) t = update_all us (update_config u t).1

update_config-AreKeyed :
    (u : ConfigUpdate) (t : Tables)
    → IsConsistent u
    → AreKeyed t.providers
    → AreKeyed (update_config u t).1.providers
unfolding update_config
update_config-AreKeyed u t consistent h = elim (some-cases (config_error u t)) [
  | inl e ↦
      rw (e, update_config)
        (set_providers-AreKeyed [] t.providers t.providers u.provider_updates (update_error u t e)
          (λ y k. refl) consistent h)
  | inr (error, e) ↦ rw (e, update_config) h
]

-- If every enabled provider has a key that is not empty, that holds behind every sequence of updates,
-- refused ones included, none of which clears the key of a provider that it enables or gives it an empty
-- one.
pub update_all-AreKeyed :
    (us : List ConfigUpdate) (t : Tables)
    → All IsConsistent us
    → AreKeyed t.providers
    → AreKeyed (update_all us t).providers
update_all-AreKeyed [] t consistent h = h
update_all-AreKeyed (u ∷ us) t consistent h =
    update_all-AreKeyed us (update_config u t).1 consistent.1
      (update_config-AreKeyed u t consistent.0 h)
