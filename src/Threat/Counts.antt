-- ===== src/Threat/Counts.antt =====
-- threat/engine.py: what the buckets of `timeline` hold.
use net_audit.Threat.Timeline.{
  add_at, add_events, new_buckets, timeline, Bucket, count_at, share, n_buckets, count_of,
  same_severity, number_in, raise_count,
}
use net_audit.Threat.Store.{events_between}
use net_audit.Threat.{ThreatEvent}
use net_audit.Threat.{Severity}
use mathlib.Core.Path.{subst}
use native.Mathlib.Nat.{le-div_iff_mul-le, div-lt_iff_lt-mul, suc-mul}
use net_audit.Common.{
  ltb, leb, ◌==◌, if◌then◌else◌, Bool-cases, length, ℕ, zero, suc, ◌+◌, ◌-◌, ◌*◌, ◌/◌, ◌≤◌, ◌<◌,
  ◌≡◌, refl, sym, ap, ◌∙◌, ◌↔◌, inl, inr, Bool, true, false, ◌&&◌, List, [], ◌∷◌, arith,
}

count_of-raise_count :
    (s s' : Severity) (b : Bucket)
    → count_of s (raise_count s' b) ≡ (if same_severity s' s then 1 else 0) + count_of s b
count_of-raise_count s s' b = ground arith

count_at-add_at :
    (i idx : ℕ) (s s' : Severity) (bs : List Bucket)
    → i < length bs
    → count_at i s (add_at idx s' bs)
      ≡ (if idx == i && same_severity s' s then 1 else 0) + count_at i s bs
unfolding add_at
count_at-add_at i idx s s' [] h = absurd (omega arith)
count_at-add_at zero zero s s' (b ∷ bs) h = count_of-raise_count s s' b
count_at-add_at zero (suc idx) s s' (b ∷ bs) h = ground arith
count_at-add_at (suc i) zero s s' (b ∷ bs) h = ground arith
count_at-add_at (suc i) (suc idx) s s' (b ∷ bs) h =
    ground (arith, count_at-add_at i idx s s' bs (omega arith))

length-add_at : (idx : ℕ) (s : Severity) (bs : List Bucket) → length (add_at idx s bs) ≡ length bs
unfolding add_at
length-add_at idx s [] = refl
length-add_at zero s (b ∷ bs) = refl
length-add_at (suc idx) s (b ∷ bs) = ap suc (length-add_at idx s bs)

length-add_events :
    (since b : ℕ) (es : List ThreatEvent) (bs : List Bucket)
    → length (add_events since b es bs) ≡ length bs
unfolding add_events
length-add_events since b [] bs = refl
length-add_events since b (e ∷ es) bs =
    length-add_at ((e.ts - since) / b) e.event_severity (add_events since b es bs)
    ∙ length-add_events since b es bs

length-new_buckets : (begins b n : ℕ) → length (new_buckets begins b n) ≡ n
unfolding new_buckets
length-new_buckets begins b zero = refl
length-new_buckets begins b (suc n) = ap suc (length-new_buckets (begins + b) b n)

count_at-new_buckets :
    (i : ℕ) (s : Severity) (begins b n : ℕ) → count_at i s (new_buckets begins b n) ≡ 0
unfolding new_buckets
count_at-new_buckets i s begins b zero = refl
count_at-new_buckets zero s begins b (suc n) = ground arith
count_at-new_buckets (suc i) s begins b (suc n) = count_at-new_buckets i s (begins + b) b n

leb→le : {a b : ℕ} → leb a b ≡ true → a ≤ b
leb→le h = ground arith

le→leb : {a b : ℕ} → a ≤ b → leb a b ≡ true
le→leb h = ground arith

ltb-leb : (a b : ℕ) → ltb a b ≡ leb (suc a) b
ltb-leb a b = ground arith

leb_cong : {a b c d : ℕ} → ((a ≤ b) ↔ (c ≤ d)) → leb a b ≡ leb c d
leb_cong {a} {b} {c} {d} h = elim (Bool-cases (leb c d)) [
  | inl e ↦ le→leb (h.1 (leb→le e)) ∙ sym e
  | inr e ↦ elim (Bool-cases (leb a b)) [
    | inl e' ↦ e' ∙ sym (le→leb (h.0 (leb→le e')))
    | inr e' ↦ e' ∙ sym e
  ]
]

ltb_cong : {a b c d : ℕ} → ((a < b) ↔ (c < d)) → ltb a b ≡ ltb c d
ltb_cong {a} {b} {c} {d} h = ltb-leb a b ∙ leb_cong h ∙ sym (ltb-leb c d)

index-lower : (d b i : ℕ) → 0 < b → leb i (d / b) ≡ leb (i * b) d
index-lower d b i h = leb_cong (le-div_iff_mul-le h)

index-upper : (d b i : ℕ) → 0 < b → ltb (d / b) (suc i) ≡ ltb d (i * b + b)
index-upper d b i h = ltb_cong (div-lt_iff_lt-mul h) ∙ ap (ltb d) (suc-mul i b)

eq-between : (n i : ℕ) → (n == i) ≡ (leb i n && ltb n (suc i))
eq-between n i = ground arith

-- An event is in the bucket of its index.
index-leb : (d b i : ℕ) → 0 < b → ((d / b) == i) ≡ (leb (i * b) d && ltb d (i * b + b))
index-leb d b i h = rw (eq-between (d / b) i, index-lower d b i h, index-upper d b i h)

sum_cong :
    (p q : Bool) (a b : ℕ) → p ≡ q → a ≡ b → (if p then 1 else 0) + a ≡ (if q then 1 else 0) + b
sum_cong p q a b e h = cc

-- The test of a bucket's index is the test of its bounds, for an event that is not earlier than the
-- start.
index_lem :
    (since b i ts : ℕ)
    → 0 < b
    → leb since ts ≡ true
    → (((ts - since) / b) == i) ≡ (leb (since + i * b) ts && ltb ts (since + i * b + b))
index_lem since b i ts h from = index-leb (ts - since) b i h ∙ shift (i * b) (leb→le from)
  where
    shift :
        (m : ℕ)
        → since ≤ ts
        → (leb m (ts - since) && ltb (ts - since) (m + b))
          ≡ (leb (since + m) ts && ltb ts (since + m + b))
    shift m h' = ground arith

one_of :
    (p q r : Bool) (n : ℕ)
    → (if p && (q && r) then 1 else 0) + n ≡ (if (p && q) && r then 1 else 0) + n
one_of p q r n = ground arith

count_at-add_event :
    (since until b i : ℕ) (s : Severity) (e : ThreatEvent) (bs : List Bucket)
    → 0 < b
    → i < length bs
    → leb since e.ts ≡ true
    → leb e.ts until ≡ true
    → count_at i s (add_at ((e.ts - since) / b) e.event_severity bs)
      ≡ share (since + i * b) (since + i * b + b) until s e + count_at i s bs
count_at-add_event since until b i s e bs h h' from to =
    count_at-add_at i ((e.ts - since) / b) s e.event_severity bs h'
    ∙ rw (index_lem since b i e.ts h from, to)
        (sym (
          one_of (leb (since + i * b) e.ts) (ltb e.ts (since + i * b + b))
            (same_severity e.event_severity s) (count_at i s bs)))

share-early :
    (since until m b : ℕ) (s : Severity) (e : ThreatEvent)
    → leb since e.ts ≡ false
    → share (since + m) (since + m + b) until s e ≡ 0
share-early since until m b s e h = ground arith

share-late :
    (from to until : ℕ) (s : Severity) (e : ThreatEvent)
    → leb e.ts until ≡ false
    → share from to until s e ≡ 0
share-late from to until s e h = ground arith

events_between-in :
    (since until : ℕ) (e : ThreatEvent) (es : List ThreatEvent)
    → leb since e.ts ≡ true
    → leb e.ts until ≡ true
    → events_between since until (e ∷ es) ≡ e ∷ events_between since until es
unfolding events_between
events_between-in since until e es from to = rw (from, to) refl

count_at-add_events :
    (since until b i : ℕ) (s : Severity) (es : List ThreatEvent) (bs : List Bucket)
    → 0 < b
    → i < length bs
    → count_at i s (add_events since b (events_between since until es) bs)
      ≡ number_in (since + i * b) (since + i * b + b) until s es + count_at i s bs
unfolding events_between add_events
count_at-add_events since until b i s [] bs h h' = omega arith
count_at-add_events since until b i s (e ∷ es) bs h h' =
    let ih = count_at-add_events since until b i s es bs h h' in
    elim (Bool-cases (leb since e.ts)) [
      | inr from ↦ rw (from, share-early since until (i * b) b s e from) (ih ∙ omega arith)
      | inl from ↦ elim (Bool-cases (leb e.ts until)) [
        | inl to ↦
            ap (λ l. count_at i s (add_events since b l bs))
              (events_between-in since until e es from to)
            ∙ count_at-add_event since until b i s e
                (add_events since b (events_between since until es) bs) h
                (subst (λ (n : ℕ). i < n)
                  (sym (length-add_events since b (events_between since until es) bs)) h')
                from to
            ∙ ap (λ (n : ℕ). share (since + i * b) (since + i * b + b) until s e + n) ih
            ∙ omega arith
        | inr to ↦
            rw (share-late (since + i * b) (since + i * b + b) until s e to, from, to)
              (ih ∙ omega arith)
      ]
    ]

-- In every bucket and for every severity, the timeline counts the events of that severity from the
-- bucket's begin to before its end and at most until the end of the span.
pub count_at-timeline :
    (since until bucket_len i : ℕ) (severity : Severity) (es : List ThreatEvent)
    → 0 < bucket_len
    → i < n_buckets since until bucket_len
    → count_at i severity (timeline since until bucket_len es)
      ≡ number_in (since + i * bucket_len) (since + i * bucket_len + bucket_len) until severity es
unfolding timeline
count_at-timeline since until b i s es h h' =
    count_at-add_events since until b i s es (new_buckets since b (n_buckets since until b)) h
      (subst (λ (n : ℕ). i < n) (sym (length-new_buckets since b (n_buckets since until b))) h')
    ∙ rw (count_at-new_buckets i s since b (n_buckets since until b)) (omega arith)
