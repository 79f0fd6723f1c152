-- ===== src/Baselines/Snapshot.antt =====
-- baselines/service.py: what a snapshot keeps of what the providers report, and the scheduled capture.
unfoldable pub use net_audit.Common.Text.{text_ltb}
use net_audit.Baselines.Store.{get_most_recent_scheduled_baseline, insert_baseline}
use net_audit.Common.Int.{pos}
use net_audit.Baselines.{Schedule, Origin, Attempt, Tables, done, failed, scheduled}
use net_audit.Baselines.{hour}
use net_audit.Baselines.{Baseline}
use net_audit.Common.Text.{text_eq, codes}
use net_audit.Baselines.{Listener}
use net_audit.Baselines.{Check}
use net_audit.Common.Int.{ℤ}
use net_audit.Common.Text.{Text}
use net_audit.Common.{
  ltb, if◌then◌else◌, ℕ, ◌+◌, ◌*◌, Bool, true, false, not, ◌&&◌, Option, none, some, List, [], ◌∷◌,
}

-- A check, a listener and the scores as the providers report them; a key may be missing.
pub record RawCheck : Type 0 where
  pub raw_id : Option Text
  pub raw_status : Option Text

pub record RawListener : Type 0 where
  pub raw_port : Option ℕ
  pub raw_process : Option Text

pub record Scores : Type 0 where
  pub posture : Option ℤ
  pub threats : Option ℤ
  pub overall : Option ℤ

pub record Observation : Type 0 where
  pub raw_checks : List RawCheck
  pub raw_peers : List Text
  pub raw_listeners : List RawListener
  pub scores : Scores

abbrev pub or_else {ℓ} : {A : Type ℓ} → Option A → A → A
or_else none a = a
or_else (some b) a = b

-- `str(c.get("status"))` is "None" for a missing status.
abbrev pub keep_check : Option Text → Option Text → List Check → List Check
keep_check none status rest = rest
keep_check (some check_id) status rest =
    record { check_id = check_id; status = or_else status (codes "None") } ∷ rest

unfoldable pub kept_checks : List RawCheck → List Check
kept_checks [] = []
kept_checks (c ∷ cs) = keep_check c.raw_id c.raw_status (kept_checks cs)

abbrev pub keep_listener : Option ℕ → Option Text → List Listener → List Listener
keep_listener none process rest = rest
keep_listener (some port) process rest = record { port = port; process = or_else process [] } ∷ rest

unfoldable pub kept_listeners : List RawListener → List Listener
kept_listeners [] = []
kept_listeners (l ∷ ls) = keep_listener l.raw_port l.raw_process (kept_listeners ls)

unfoldable pub insert_text : Text → List Text → List Text
unfolding text_eq text_ltb
insert_text s [] = s ∷ []
insert_text s (t ∷ ts) =
    let rest : List Text = insert_text s ts in
    if text_eq s t then t ∷ ts else if text_ltb s t then s ∷ t ∷ ts else t ∷ rest

-- `sorted` of a set.
unfoldable pub sorted_set : List Text → List Text
unfolding insert_text
sorted_set [] = []
sorted_set (s ∷ ts) = insert_text s (sorted_set ts)

-- The record that `capture_snapshot` inserts.
unfoldable pub snapshot : Text → Text → Origin → ℕ → Observation → Baseline
snapshot fresh_id label origin captured_at seen = record {
  id = fresh_id;
  label = label;
  captured_at = captured_at;
  checks = kept_checks seen.raw_checks;
  peers = sorted_set seen.raw_peers;
  listeners = kept_listeners seen.raw_listeners;
  posture_score = or_else seen.scores.posture (pos 0);
  threats_score = seen.scores.threats;
  overall_score = or_else seen.scores.overall (or_else seen.scores.posture (pos 0));
  origin = origin;
}

abbrev pub inserted : Baseline → Attempt Tables → Attempt (Baseline × Tables)
inserted b (done t) = done (b, t)
inserted b (failed error) = failed error

-- `fresh_id` is what `_new_id` draws, and `seen` what the providers report, or their exception.
unfoldable pub capture_snapshot :
    Text → Text → Origin → ℕ → Bool → Attempt Observation → Tables → Attempt (Baseline × Tables)
capture_snapshot fresh_id label origin captured_at mark (failed error) t = failed error
capture_snapshot fresh_id label origin captured_at mark (done seen) t =
    let b : Baseline = snapshot fresh_id label origin captured_at seen in
    inserted b (insert_baseline b mark t)

-- The time has not come while the interval since the last success runs.
abbrev pub is_waiting : Option ℕ → ℕ → ℕ → Bool
is_waiting none interval_hours current = false
is_waiting (some last) interval_hours current = ltb current (last + interval_hours * hour)

unfoldable pub is_due : Schedule → ℕ → Bool
is_due s current = s.enabled && not (is_waiting s.last_succeeded_at s.interval_hours current)

pub record ScheduledCapture : Type 0 where
  pub baseline : Baseline
  pub previous_id : Option Text

abbrev pub id_of : Option Baseline → Option Text
id_of none = none
id_of (some b) = some b.id

abbrev pub with_previous :
    Option Baseline → Attempt (Baseline × Tables) → Attempt (Option ScheduledCapture × Tables)
with_previous previous (failed error) = failed error
with_previous previous (done (b, t)) =
    done (some (record { baseline = b; previous_id = id_of previous }), t)

unfoldable pub capture_scheduled_if_due :
    Text → ℕ → Attempt Observation → Tables → Attempt (Option ScheduledCapture × Tables)
capture_scheduled_if_due fresh_id current seen t =
    if is_due t.schedule current
    then with_previous (get_most_recent_scheduled_baseline t.baselines)
        (capture_snapshot fresh_id (codes "Scheduled baseline") scheduled current true seen t)
    else done (none, t)
