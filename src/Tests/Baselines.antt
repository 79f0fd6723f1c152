-- ===== src/Tests/Baselines.antt =====
-- Runs of the baseline monitor, and its theorems at concrete states.
use net_audit.Baselines.Runs.{awake}
use net_audit.Baselines.Store.{insert_baseline}
use net_audit.Baselines.Quiet.{alert_categories-unchanged}
use net_audit.Baselines.Transitions.{turn_round, diff_checks-turn_round}
use net_audit.Baselines.Snapshot.{snapshot, capture_scheduled_if_due, is_due, capture_snapshot}
use net_audit.Baselines.Diff.{diff_checks, alert_categories, diff_records}
use net_audit.Baselines.Retention.{manual_rows, run_once-IsPruned, run_all-manual_rows}
use net_audit.Baselines.Consistent.{
  IsConsistent, rescheduled, run_all, ran, run_all-IsConsistent, woken,
}
use net_audit.Baselines.Consistent.{Event}
use net_audit.Baselines.Monitor.{
  is_held_back, Surroundings, after_capture, nothing_done, wake, give_up,
}
use net_audit.Baselines.Monitor.{seconds_until_next_run}
use net_audit.Baselines.Scheduling.{
  OnlyWakes, run_once-OnlyWakes, seconds_until_next_run_exact, run_once_backs_off,
  run_once_within_interval,
}
use net_audit.Common.Text.{codes}
use net_audit.Baselines.Retention.{IsPruned}
use net_audit.Baselines.Monitor.{run_once}
use net_audit.Baselines.{hour, manual, scheduled, done, failed}
use net_audit.Baselines.{Attempt}
use net_audit.Baselines.Monitor.{Monitor}
use net_audit.Baselines.{Baseline}
use net_audit.Baselines.Snapshot.{Observation}
use net_audit.Common.Int.{pos}
use net_audit.Common.{
  leb, length, all, ℕ, suc, ◌+◌, ◌-◌, ◌*◌, ◌≤◌, ◌≡◌, refl, ap, true, false, not, none, some, List,
  [], ◌∷◌, arith,
}

abbrev report : Observation
report = record {
  raw_checks =
      (record { raw_id = some (codes "firewall"); raw_status = some (codes "fail") })
      ∷ (record { raw_id = none; raw_status = some (codes "pass") })
      ∷ [];
  raw_peers = codes "10.0.0.2" ∷ codes "10.0.0.1" ∷ [];
  raw_listeners = (record { raw_port = some 22; raw_process = none }) ∷ [];
  scores = record { posture = some (pos 70); threats = none; overall = none };
}

-- A baseline that was taken by hand, and one that the scheduler took long ago.
abbrev by_hand : Baseline
by_hand = snapshot (codes "bl_1") (codes "before the update") manual 5 report

abbrev long_ago : Baseline
long_ago = snapshot (codes "bl_2") (codes "Scheduled baseline") scheduled 7 report

abbrev daily : Monitor
daily = record {
  tables = record {
    baselines = by_hand ∷ long_ago ∷ [];
    schedule = record {
      enabled = true;
      interval_hours = 24;
      last_succeeded_at = some 7;
      last_error = none;
    };
  };
  retry_not_before = none;
  retry_wake = false;
  alerts = [];
}

abbrev at_time : ℕ → Attempt Observation → Surroundings
at_time now seen = record { now = now; fresh_id = codes "bl_3"; seen = seen; dispatch_error = none }

-- A hundred days on.
abbrev much_later : ℕ
much_later = 100 * 24 * hour

daily-captured : (run_once (at_time much_later (done report)) daily).0.captured ≡ true
unfolding run_once is_held_back capture_scheduled_if_due is_due after_capture capture_snapshot
    insert_baseline snapshot net_audit.Common.Text.text_eq
    net_audit.Baselines.Store.get_most_recent_scheduled_baseline
    net_audit.Baselines.Diff.diff_baselines alert_categories diff_records diff_checks
    net_audit.Baselines.Diff.diff_ids net_audit.Baselines.Snapshot.kept_checks
    net_audit.Baselines.Diff.put_id net_audit.Baselines.Diff.status_of
    net_audit.Baselines.Diff.put_change net_audit.Baselines.Diff.listeners_beyond
    net_audit.Baselines.Snapshot.kept_listeners
daily-captured = refl

run_once_within_interval_example :
    run_once
      (at_time (much_later + 1) (done report))
      (run_once (at_time much_later (done report)) daily).1
    ≡ (nothing_done, awake (run_once (at_time much_later (done report)) daily).1)
run_once_within_interval_example =
    run_once_within_interval (at_time much_later (done report))
      (at_time (much_later + 1) (done report)) daily daily-captured (omega arith)

run_once-IsPruned_example :
    IsPruned much_later daily.tables.baselines
      (run_once (at_time much_later (done report)) daily).1.tables.baselines
run_once-IsPruned_example =
    run_once-IsPruned (at_time much_later (done report)) daily daily-captured

daily-failed :
    (run_once (at_time much_later (failed (codes "no posture"))) daily).0.error
    ≡ some (codes "no posture")
unfolding run_once is_held_back capture_scheduled_if_due is_due after_capture capture_snapshot
    give_up net_audit.Baselines.Monitor.bounded_error
daily-failed = refl

run_once_backs_off_example :
    (length (codes "no posture") ≤ 500)
    × ((run_once
          (at_time much_later (failed (codes "no posture")))
          daily).1.tables.schedule.last_error
        ≡ some (codes "no posture"))
    × (run_once
          (at_time (much_later + 1) (done report))
          (run_once (at_time much_later (failed (codes "no posture"))) daily).1
        ≡ (nothing_done, (run_once (at_time much_later (failed (codes "no posture"))) daily).1))
run_once_backs_off_example =
    run_once_backs_off (at_time much_later (failed (codes "no posture")))
      (at_time (much_later + 1) (done report)) daily (codes "no posture") daily-failed (omega arith)

abbrev switched_off : Monitor
switched_off = record daily {
  tables = record daily.tables { schedule = record daily.tables.schedule { enabled = false } };
}

run_once-OnlyWakes_example :
    OnlyWakes switched_off (run_once (at_time much_later (done report)) switched_off)
run_once-OnlyWakes_example = run_once-OnlyWakes (at_time much_later (done report)) switched_off refl

-- An overdue schedule: the wait is 0.
seconds_until_next_run_exact_example :
    (is_held_back daily (much_later + 3 * hour) ≡ false)
    × (is_due daily.tables.schedule (much_later + 3 * hour)
        ≡ leb (seconds_until_next_run much_later daily) (3 * hour))
seconds_until_next_run_exact_example =
    seconds_until_next_run_exact much_later (3 * hour) daily refl refl
      (unfold seconds_until_next_run in omega arith)

abbrev history : List Event
history =
    rescheduled true 5
    ∷ ran (at_time much_later (done report))
    ∷ woken
    ∷ ran (at_time (2 * much_later) (failed (codes "no posture")))
    ∷ []

run_all-IsConsistent_example : IsConsistent (run_all daily history).tables
unfolding snapshot net_audit.Common.Text.text_eq
run_all-IsConsistent_example = run_all-IsConsistent daily history ((refl, (refl, tt)), refl)

run_all-manual_rows_example :
    manual_rows (run_all daily history).tables.baselines ≡ manual_rows daily.tables.baselines
run_all-manual_rows_example = run_all-manual_rows daily history

diff_checks-turn_round_example :
    diff_checks long_ago.checks by_hand.checks
    ≡ turn_round (diff_checks by_hand.checks long_ago.checks)
diff_checks-turn_round_example = diff_checks-turn_round by_hand.checks long_ago.checks

alert_categories-unchanged_example : alert_categories (diff_records by_hand long_ago) ≡ []
unfolding snapshot
alert_categories-unchanged_example = alert_categories-unchanged by_hand long_ago refl refl refl
