-- ===== src/Baselines/Runs.antt =====
-- The monitor as a step relation: the ways in which a run goes.
use net_audit.Baselines.Diff.{diff_baselines, alert_categories}
use net_audit.Baselines.Store.{insert_baseline, id_taken, get_most_recent_scheduled_baseline}
use net_audit.Baselines.Store.{mark_schedule_success}
use net_audit.Baselines.Snapshot.{capture_scheduled_if_due, snapshot, is_due, with_previous, id_of}
use net_audit.Baselines.Snapshot.{capture_snapshot}
use net_audit.Baselines.Snapshot.{Observation}
use net_audit.Baselines.Monitor.{
  run_once, MonitorResult, Alert, is_held_back, prune, nothing_done, give_up, report_change,
  alert_of,
}
use net_audit.Baselines.Monitor.{after_capture}
use net_audit.Common.Text.{Text, codes}
use net_audit.Baselines.Monitor.{Monitor}
use net_audit.Baselines.Monitor.{Surroundings}
use net_audit.Baselines.{Baseline, Tables, Attempt, scheduled, failed, done}
use net_audit.Common.{
  Bool-cases, some-cases, ℕ, ◌≡◌, refl, ◌⊎◌, inl, inr, Bool, true, false, Option, none, some, List,
  [], ◌∷◌, ◌++◌,
}

-- The tables behind a scheduled capture.
abbrev pub with_capture : ℕ → Baseline → Tables → Tables
with_capture now b t = mark_schedule_success now (record t { baselines = t.baselines ++ (b ∷ []) })

abbrev pub scheduled_snapshot : Surroundings → Observation → Baseline
scheduled_snapshot w seen = snapshot w.fresh_id (codes "Scheduled baseline") scheduled w.now seen

abbrev pub awake : Monitor → Monitor
awake m = record m { retry_wake = false }

abbrev pub behind_capture : Surroundings → Observation → List Alert → Monitor → Monitor
behind_capture w seen alerts m = prune w.now (record (awake m) {
  tables = with_capture w.now (scheduled_snapshot w seen) m.tables;
  retry_not_before = none;
  alerts = alerts;
})

-- The ways in which a run goes: it is held back, no capture is due, the capture fails, it succeeds, or it
-- succeeds and the dispatch of its alert fails.
pub data Run (w : Surroundings) (m : Monitor) : MonitorResult × Monitor → Type 0 where
  held_back : is_held_back m w.now ≡ true → Run w m (nothing_done, m)
  not_due : is_due m.tables.schedule w.now ≡ false → Run w m (nothing_done, awake m)
  not_captured :
      (error : Text)
      → is_due m.tables.schedule w.now ≡ true
      → Run w m (give_up w.now error (awake m))
  captured_one :
      (seen : Observation) (alerted : Bool) (alerts : List Alert)
      → is_due m.tables.schedule w.now ≡ true
      → id_taken w.fresh_id m.tables.baselines ≡ false
      → Run w m (
        record { captured = true; alerted = alerted; error = none },
        behind_capture w seen alerts m,
      )
  not_dispatched :
      (seen : Observation) (error : Text)
      → is_due m.tables.schedule w.now ≡ true
      → id_taken w.fresh_id m.tables.baselines ≡ false
      → Run w m (give_up w.now error (behind_capture w seen m.alerts m))

alert-cases :
    (categories : List Text)
    → (categories ≡ []) ⊎ ((c : Text) × (cs : List Text) × (categories ≡ c ∷ cs))
alert-cases [] = inl refl
alert-cases (c ∷ cs) = inr (c, cs, refl)

-- A report ends with the alerts as they are or with one more, or with the dispatcher's exception.
report_change-Run :
    (w : Surroundings) (m : Monitor) (seen : Observation) (previous : Option Text)
    → is_due m.tables.schedule w.now ≡ true
    → id_taken w.fresh_id m.tables.baselines ≡ false
    → Run w m (
        report_change w previous (scheduled_snapshot w seen) (record (awake m) {
          tables = with_capture w.now (scheduled_snapshot w seen) m.tables;
          retry_not_before = none;
        }))
report_change-Run w m seen none due free = captured_one seen false m.alerts due free
report_change-Run w m seen (some previous_id) due free =
    let b : Baseline = scheduled_snapshot w seen in
    elim (some-cases (diff_baselines previous_id b.id (with_capture w.now b m.tables).baselines)) [
      | inl e ↦ rw e (captured_one seen false m.alerts due free)
      | inr (d, e) ↦ elim (alert-cases (alert_categories d)) [
        | inl quiet ↦ rw (e, quiet) (captured_one seen false m.alerts due free)
        | inr (c, cs, loud) ↦ elim (some-cases w.dispatch_error) [
          | inl sent ↦
              rw (e, loud, sent)
                (captured_one seen true (alert_of b.id (c ∷ cs) ∷ m.alerts) due free)
          | inr (error, unsent) ↦ rw (e, loud, unsent) (not_dispatched seen error due free)
        ]
      ]
    ]

captures-Run :
    (w : Surroundings) (m : Monitor) (seen : Attempt Observation)
    → is_due m.tables.schedule w.now ≡ true
    → Run w m (
        after_capture w
          (with_previous (get_most_recent_scheduled_baseline m.tables.baselines) (
            capture_snapshot w.fresh_id
              (codes "Scheduled baseline")
              scheduled
              w.now
              true
              seen
              m.tables))
          (awake m))
unfolding after_capture capture_snapshot insert_baseline snapshot
captures-Run w m (failed error) due = not_captured error due
captures-Run w m (done seen) due = elim (Bool-cases (id_taken w.fresh_id m.tables.baselines)) [
  | inl taken ↦ rw taken (not_captured (codes "UNIQUE constraint failed: baselines.id") due)
  | inr free ↦ rw free (
      report_change-Run w m seen (id_of (get_most_recent_scheduled_baseline m.tables.baselines)) due
        free)
]

-- Every run of `run_once` goes in one of these ways.
pub run_once-Run : (w : Surroundings) (m : Monitor) → Run w m (run_once w m)
unfolding run_once capture_scheduled_if_due after_capture
run_once-Run w m = elim (Bool-cases (is_held_back m w.now)) [
  | inl held ↦ rw held (held_back held)
  | inr free ↦ elim (Bool-cases (is_due m.tables.schedule w.now)) [
    | inl due ↦ rw (free, due) (captures-Run w m w.seen due)
    | inr early ↦ rw (free, early) (not_due early)
  ]
]
