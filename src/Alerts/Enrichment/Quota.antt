-- ===== src/Alerts/Enrichment/Quota.antt =====
-- The counts of requests stay below the daily limits.
use net_audit.Alerts.{Severity}
use net_audit.Common.Int.{ℤ}
use net_audit.Alerts.Enrichment.Run.{enrich}
use net_audit.Common.Attempt.{Attempt, failed, done}
use net_audit.Alerts.Enrichment.Responses.{
  Json, ReadAddress, Indicator, extract_public_ips, parse_provider_response,
}
use net_audit.Alerts.Enrichment.Lookup.{
  stored_response, provider_daily_limit, Lookup, Tables, after_answer, Answers, usable_providers,
  after_parse, Answer, rejected, with_key, unless_cached, within_limit, look_up, not_ok, key_of,
  fresh_response, payload, bad_json,
}
use net_audit.Alerts.Enrichment.{
  get_enrichment_usage, UsageRow, record_enrichment_usage, is_row, get_enrichment_provider,
  get_enrichment_cache,
}
use net_audit.Common.Text.{Text, text_eq, text_eq→≡}
use net_audit.Alerts.Enrichment.Lookup.{soft_limit}
use mathlib.Core.Path.{subst}
use net_audit.Alerts.Enrichment.Keeps.{enrich-keeps, enrich_all-keeps}
use net_audit.Common.{
  leb, if◌then◌else◌, Bool-cases, All, ℕ, ◌+◌, ◌≤◌, ◌<◌, ◌≡◌, refl, ap, ◌∙◌, inl, inr, Bool, true,
  false, ◌&&◌, Option, none, some, List, [], ◌∷◌, arith,
}

-- 90% of a provider's daily limit; an unknown provider is never asked.
abbrev allowance_of : Option ℕ → ℕ
allowance_of none = 0
allowance_of (some limit) = soft_limit limit

abbrev pub allowance : Text → ℕ
allowance provider_id = allowance_of (provider_daily_limit provider_id)

abbrev is_counted : Text → Text → Lookup → Bool
is_counted provider_id day l = l.is_stored && (text_eq l.asked provider_id && text_eq l.on_day day)

-- The responses of a provider that were stored on a day.
abbrev pub stored_on : Text → Text → List Lookup → ℕ
stored_on provider_id day [] = 0
stored_on provider_id day (l ∷ ls) =
    let rest : ℕ = stored_on provider_id day ls in
    if is_counted provider_id day l then 1 + rest else rest

abbrev pub Counted : Text → Text → Tables → Type 0
Counted p d t =
    (stored_on p d t.requested ≡ get_enrichment_usage p d t.usage)
    × (get_enrichment_usage p d t.usage ≤ allowance p)

is_row-cases :
    (p d : Text) (u : UsageRow) → is_row p d u ≡ true → (u.usage_provider ≡ p) × (u.day ≡ d)
is_row-cases p d u h =
    (text_eq→≡ u.usage_provider p (ground arith), text_eq→≡ u.day d (ground arith))

get-record_usage :
    (q e p d : Text) (us : List UsageRow)
    → get_enrichment_usage p d (record_enrichment_usage q e us)
      ≡ (if text_eq q p && text_eq e d then 1 else 0) + get_enrichment_usage p d us
unfolding get_enrichment_usage record_enrichment_usage
get-record_usage q e p d [] = ground arith
get-record_usage q e p d (u ∷ us) = elim (Bool-cases (is_row q e u)) [
  | inl same ↦ let es = is_row-cases q e u same in rw (same) (rw (es.0, es.1) (ground arith))
  | inr other ↦ elim (Bool-cases (text_eq q p && text_eq e d)) [
    | inl here ↦
        let eq : q ≡ p = text_eq→≡ q p (ground arith) in
        let ee : e ≡ d = text_eq→≡ e d (ground arith) in
        let apart : is_row p d u ≡ false =
          subst (λ x. is_row x d u ≡ false) eq (subst (λ x. is_row q x u ≡ false) ee other) in
        rw (other, apart, get-record_usage q e p d us) refl
    | inr there ↦ rw (other, there, get-record_usage q e p d us) (ground arith)
  ]
]

allowance-known :
    (q : Text) (limit : ℕ) → provider_daily_limit q ≡ some limit → allowance q ≡ soft_limit limit
allowance-known q limit known = ap allowance_of known

raised_usage :
    (q today p d : Text) (n : ℕ) (us : List UsageRow)
    → n ≡ get_enrichment_usage p d us
    → get_enrichment_usage p d us ≤ allowance p
    → get_enrichment_usage q today us < allowance q
    → ((if text_eq q p && text_eq today d then 1 + n else n)
        ≡ get_enrichment_usage p d (record_enrichment_usage q today us))
      × (get_enrichment_usage p d (record_enrichment_usage q today us) ≤ allowance p)
raised_usage q today p d n us e h below = elim (Bool-cases (text_eq q p && text_eq today d)) [
  | inl here ↦
      let eq : q ≡ p = text_eq→≡ q p (ground arith) in
      let ee : today ≡ d = text_eq→≡ today d (ground arith) in
      let room : get_enrichment_usage p d us < allowance p =
        subst (λ x. get_enrichment_usage x d us < allowance x) eq
          (subst (λ x. get_enrichment_usage q x us < allowance q) ee below) in
      rw (get-record_usage q today p d us, here) (ap (λ m. 1 + m) e, omega arith)
  | inr apart ↦ rw (get-record_usage q today p d us, apart) (e ∙ omega arith, omega arith)
]

stored_response-Counted :
    (q ip key today : Text) (now limit : ℕ) (parsed : Json) (t : Tables) (p d : Text)
    → provider_daily_limit q ≡ some limit
    → leb (soft_limit limit) (get_enrichment_usage q today t.usage) ≡ false
    → Counted p d t
    → Counted p d (stored_response q ip key today now parsed t)
unfolding stored_response
stored_response-Counted q ip key today now limit parsed t p d known below h =
    raised_usage q today p d (stored_on p d t.requested) t.usage h.0 h.1
      (rw (allowance-known q limit known) (ground arith))

after_parse-Counted :
    (q ip key today : Text) (now limit : ℕ) (a : Attempt Json) (t : Tables) (p d : Text)
    → provider_daily_limit q ≡ some limit
    → leb (soft_limit limit) (get_enrichment_usage q today t.usage) ≡ false
    → Counted p d t
    → Counted p d (after_parse q ip key today now a t).1
after_parse-Counted q ip key today now limit (failed e) t p d known below h = h
after_parse-Counted q ip key today now limit (done parsed) t p d known below h =
    stored_response-Counted q ip key today now limit parsed t p d known below h

after_answer-Counted :
    (q ip key today : Text) (now limit : ℕ) (a : Answer) (t : Tables) (p d : Text)
    → provider_daily_limit q ≡ some limit
    → leb (soft_limit limit) (get_enrichment_usage q today t.usage) ≡ false
    → Counted p d t
    → Counted p d (after_answer q ip key today now a t).1
unfolding after_answer
after_answer-Counted q ip key today now limit (rejected code) t p d known below h = h
after_answer-Counted q ip key today now limit (not_ok status) t p d known below h = h
after_answer-Counted q ip key today now limit bad_json t p d known below h = h
after_answer-Counted q ip key today now limit (payload j) t p d known below h =
    after_parse-Counted q ip key today now limit (parse_provider_response q j) t p d known below h

module _ (answers : Answers) (now : ℕ) (ttl : ℤ) (today : Text) (p d : Text) where
  with_key-Counted :
      (q ip : Text) (limit : ℕ) (key : Option Text) (t : Tables)
      → provider_daily_limit q ≡ some limit
      → leb (soft_limit limit) (get_enrichment_usage q today t.usage) ≡ false
      → Counted p d t
      → Counted p d (with_key answers q ip today now key t).1
  with_key-Counted q ip limit none t known below h = h
  with_key-Counted q ip limit (some key) t known below h =
      after_answer-Counted q ip key today now limit (answers q ip key) t p d known below h

  unless_cached-Counted :
      (q ip : Text) (limit : ℕ) (response : Option Json) (t : Tables)
      → provider_daily_limit q ≡ some limit
      → leb (soft_limit limit) (get_enrichment_usage q today t.usage) ≡ false
      → Counted p d t
      → Counted p d (unless_cached answers q ip today now response t).1
  unless_cached-Counted q ip limit (some response) t known below h = h
  unless_cached-Counted q ip limit none t known below h =
      with_key-Counted q ip limit (key_of (get_enrichment_provider q t.providers)) t known below h

  within_limit-Counted :
      (ip q : Text) (limit : Option ℕ) (t : Tables)
      → provider_daily_limit q ≡ limit
      → Counted p d t
      → Counted p d (within_limit answers now ttl today ip q limit t).1
  within_limit-Counted ip q none t known h = h
  within_limit-Counted ip q (some limit) t known h =
      elim (Bool-cases (leb (soft_limit limit) (get_enrichment_usage q today t.usage))) [
        | inl spent ↦ rw spent h
        | inr left ↦ rw left (
            unless_cached-Counted q ip limit
              (fresh_response now ttl (get_enrichment_cache ip q t.cache)) t known left h)
      ]

  look_up-Counted :
      (ip q : Text) (t : Tables)
      → Counted p d t
      → Counted p d (look_up answers now ttl today ip q t).1
  unfolding look_up
  look_up-Counted ip q t h = within_limit-Counted ip q (provider_daily_limit q) t refl h

-- A run: how addresses are read, the answers, the instant and its day, the indicators and the severity.
pub record Run : Type 0 where
  pub read_address : ReadAddress
  pub answers : Answers
  pub now : ℕ
  pub today : Text
  pub indicators : List Indicator
  pub severity : Severity

abbrev pub run_all : List Run → Tables → Tables
run_all [] t = t
run_all (r ∷ rs) t =
    run_all rs (enrich r.read_address r.answers r.now r.today r.indicators r.severity t).1

enrich-Counted :
    (r : Run) (t : Tables) (p d : Text) → Counted p d t → Counted p d (run_all (r ∷ []) t)
enrich-Counted r t p d h =
    enrich-keeps (Counted p d) r.read_address r.answers r.now r.today r.indicators r.severity t h
      (λ due.
        enrich_all-keeps (λ q. Unit {0}) (λ ip. Unit {0}) (Counted p d) r.answers r.now
          t.config.cache_ttl_hours r.today
          (λ ip q u i a k.
            look_up-Counted r.answers r.now t.config.cache_ttl_hours r.today p d ip q u k)
          (usable_providers t.providers) (extract_public_ips r.read_address r.indicators) t
          (all_unit (extract_public_ips r.read_address r.indicators))
          (all_unit (usable_providers t.providers)) h)
  where
    all_unit : (ts : List Text) → All (λ x. Unit {0}) ts
    all_unit [] = tt
    all_unit (x ∷ xs) = (tt, all_unit xs)

-- Behind any number of runs, whatever was answered and whatever the instants, if the counts of a provider
-- on a day were right before: the count in the table is the number of the provider's responses that were
-- stored on that day, and it is at most nine tenths of its daily limit.
pub run_all-Counted :
    (rs : List Run) (t : Tables) (provider_id day : Text)
    → Counted provider_id day t
    → Counted provider_id day (run_all rs t)
run_all-Counted [] t p d h = h
run_all-Counted (r ∷ rs) t p d h =
    run_all-Counted rs (enrich r.read_address r.answers r.now r.today r.indicators r.severity t).1 p
      d (enrich-Counted r t p d h)
