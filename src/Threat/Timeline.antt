-- ===== src/Threat/Timeline.antt =====
-- threat/engine.py: `timeline`, the number of events of each severity in each stretch of time.
use net_audit.Threat.Store.{events_between}
use net_audit.Threat.{ThreatEvent, critical, high, medium, low, info}
use net_audit.Threat.{Severity}
use net_audit.Common.{
  ltb, leb, if◌then◌else◌, ℕ, zero, suc, ◌+◌, ◌-◌, ◌/◌, max, Bool, true, false, ◌&&◌, List, [], ◌∷◌,
}

pub record Bucket : Type 0 where
  pub begins : ℕ
  pub critical_count : ℕ
  pub high_count : ℕ
  pub medium_count : ℕ
  pub low_count : ℕ
  pub info_count : ℕ

abbrev pub empty_bucket : ℕ → Bucket
empty_bucket begins = record {
  begins = begins;
  critical_count = 0;
  high_count = 0;
  medium_count = 0;
  low_count = 0;
  info_count = 0;
}

abbrev pub raise_count : Severity → Bucket → Bucket
raise_count critical b = record b { critical_count = b.critical_count + 1 }
raise_count high b = record b { high_count = b.high_count + 1 }
raise_count medium b = record b { medium_count = b.medium_count + 1 }
raise_count low b = record b { low_count = b.low_count + 1 }
raise_count info b = record b { info_count = b.info_count + 1 }

abbrev pub count_of : Severity → Bucket → ℕ
count_of critical b = b.critical_count
count_of high b = b.high_count
count_of medium b = b.medium_count
count_of low b = b.low_count
count_of info b = b.info_count

-- `buckets[idx][severity] += 1`, if there is such a bucket.
unfoldable pub add_at : ℕ → Severity → List Bucket → List Bucket
add_at idx severity [] = []
add_at zero severity (b ∷ bs) = raise_count severity b ∷ bs
add_at (suc idx) severity (b ∷ bs) = b ∷ add_at idx severity bs

unfoldable pub new_buckets : ℕ → ℕ → ℕ → List Bucket
new_buckets begins bucket_len zero = []
new_buckets begins bucket_len (suc n) =
    empty_bucket begins ∷ new_buckets (begins + bucket_len) bucket_len n

-- max(1, ceil(span / bucket_len))
abbrev pub n_buckets : ℕ → ℕ → ℕ → ℕ
n_buckets since until bucket_len = max 1 ((until - since + (bucket_len - 1)) / bucket_len)

unfoldable pub add_events : ℕ → ℕ → List ThreatEvent → List Bucket → List Bucket
unfolding add_at
add_events since bucket_len [] bs = bs
add_events since bucket_len (e ∷ es) bs =
    add_at ((e.ts - since) / bucket_len) e.event_severity (add_events since bucket_len es bs)

unfoldable pub timeline : ℕ → ℕ → ℕ → List ThreatEvent → List Bucket
unfolding new_buckets add_events events_between
timeline since until bucket_len es =
    add_events since bucket_len (events_between since until es)
      (new_buckets since bucket_len (n_buckets since until bucket_len))

abbrev pub same_severity : Severity → Severity → Bool
same_severity critical critical = true
same_severity high high = true
same_severity medium medium = true
same_severity low low = true
same_severity info info = true
same_severity _ _ = false

-- The count of a severity in a bucket of the timeline.
abbrev pub count_at : ℕ → Severity → List Bucket → ℕ
count_at i severity [] = 0
count_at zero severity (b ∷ bs) = count_of severity b
count_at (suc i) severity (b ∷ bs) = count_at i severity bs

-- An event counts once if it has the severity and is in the span from an instant to before another,
-- and at most at a third.
abbrev pub share : ℕ → ℕ → ℕ → Severity → ThreatEvent → ℕ
share from to until severity e =
    if leb from e.ts && (ltb e.ts to && (leb e.ts until && same_severity e.event_severity severity))
    then 1
    else 0

abbrev pub number_in : ℕ → ℕ → ℕ → Severity → List ThreatEvent → ℕ
number_in from to until severity [] = 0
number_in from to until severity (e ∷ es) =
    share from to until severity e + number_in from to until severity es
