-- ===== src/Baselines/Monitor.antt =====
-- baselines/monitor.py: one run of the scheduled capture, and the wait until the next. The asyncio task
-- that alternates them is left out; its wake-up call is a field of the state.
use net_audit.Baselines.Diff.{BaselineDiff, alert_categories, diff_baselines}
use net_audit.Baselines.Store.{save_schedule}
use net_audit.Baselines.Snapshot.{capture_scheduled_if_due, Observation, ScheduledCapture}
use net_audit.Baselines.{Attempt, Baseline, failed, done}
use net_audit.Common.Text.{join, codes}
use net_audit.Baselines.Store.{delete_scheduled_before}
use net_audit.Baselines.Store.{mark_schedule_error}
use net_audit.Baselines.{hour}
use net_audit.Baselines.{Tables}
use net_audit.Common.Text.{Text}
use net_audit.Common.{
  ltb, if◌then◌else◌, take, ℕ, ◌+◌, ◌-◌, ◌*◌, min, Bool, true, false, not, ◌&&◌, Option, none, some,
  List, [], ◌∷◌, ◌++◌,
}

pub record Alert : Type 0 where
  pub source_id : Text
  pub title : Text

-- The tables, the monitor's own fields, and the alerts that were dispatched, the latest first.
pub record Monitor : Type 0 where
  pub tables : Tables
  pub retry_not_before : Option ℕ
  pub retry_wake : Bool
  pub alerts : List Alert

pub record MonitorResult : Type 0 where
  pub captured : Bool
  pub alerted : Bool
  pub error : Option Text

-- What a run meets: the clock, the id that is drawn, the providers' report, and the exception of the
-- dispatcher, if it raises one.
pub record Surroundings : Type 0 where
  pub now : ℕ
  pub fresh_id : Text
  pub seen : Attempt Observation
  pub dispatch_error : Option Text

abbrev pub retention : ℕ
retention = 90 * 24 * hour

abbrev pub max_error_length : ℕ
max_error_length = 500

unfoldable pub bounded_error : Text → Text
bounded_error error = take max_error_length error

abbrev pub nothing_done : MonitorResult
nothing_done = record { captured = false; alerted = false; error = none }

abbrev pub before : ℕ → Option ℕ → Bool
before current none = false
before current (some instant) = ltb current instant

-- A retry is held back until its time, unless the monitor was woken.
unfoldable pub is_held_back : Monitor → ℕ → Bool
is_held_back m current = before current m.retry_not_before && not m.retry_wake

-- The handler of an exception. The tables' own calls do not fail in this model.
unfoldable pub give_up : ℕ → Text → Monitor → MonitorResult × Monitor
unfolding mark_schedule_error
give_up current error m = (
  record { captured = false; alerted = false; error = some (bounded_error error) },
  record m {
    tables = mark_schedule_error (bounded_error error) m.tables;
    retry_not_before = some (current + m.tables.schedule.interval_hours * hour);
  },
)

-- `finally`: scheduled baselines past the retention are deleted.
unfoldable pub prune : ℕ → Monitor → Monitor
unfolding delete_scheduled_before
prune current m = record m { tables = delete_scheduled_before (current - retention) m.tables }

unfoldable pub alert_of : Text → List Text → Alert
unfolding join
alert_of baseline_id categories = record {
  source_id = baseline_id;
  title = codes "Scheduled baseline: " ++ join (codes ", ") categories;
}

abbrev pub when_pruned : ℕ → Option Text → Bool → Monitor → MonitorResult × Monitor
when_pruned current none alerted m =
    (record { captured = true; alerted = alerted; error = none }, m)
when_pruned current (some error) alerted m = give_up current error m

-- The dispatch of an alert, which may raise; the tables are pruned either way.
abbrev pub dispatch : ℕ → Option Text → Alert → Monitor → MonitorResult × Monitor
dispatch current none alert m =
    when_pruned current none true (prune current (record m { alerts = alert ∷ m.alerts }))
dispatch current (some error) alert m = when_pruned current (some error) false (prune current m)

abbrev pub report_categories : Surroundings → Text → List Text → Monitor → MonitorResult × Monitor
report_categories w baseline_id [] m = when_pruned w.now none false (prune w.now m)
report_categories w baseline_id (c ∷ cs) m =
    dispatch w.now w.dispatch_error (alert_of baseline_id (c ∷ cs)) m

abbrev pub report_diff :
    Surroundings → Text → Option BaselineDiff → Monitor → MonitorResult × Monitor
report_diff w baseline_id none m = when_pruned w.now none false (prune w.now m)
report_diff w baseline_id (some d) m = report_categories w baseline_id (alert_categories d) m

abbrev pub report_change : Surroundings → Option Text → Baseline → Monitor → MonitorResult × Monitor
report_change w none b m = when_pruned w.now none false (prune w.now m)
report_change w (some previous_id) b m =
    report_diff w b.id (diff_baselines previous_id b.id m.tables.baselines) m

unfoldable pub after_capture :
    Surroundings → Attempt (Option ScheduledCapture × Tables) → Monitor → MonitorResult × Monitor
after_capture w (failed error) m = give_up w.now error m
after_capture w (done (none, t)) m = (nothing_done, record m { tables = t })
after_capture w (done (some capture, t)) m =
    report_change w capture.previous_id capture.baseline
      (record m { tables = t; retry_not_before = none })

unfoldable pub run_once : Surroundings → Monitor → MonitorResult × Monitor
run_once w m =
    if is_held_back m w.now
    then (nothing_done, m)
    else after_capture w (capture_scheduled_if_due w.fresh_id w.now w.seen m.tables)
        (record m { retry_wake = false })

unfoldable pub wake : Monitor → Monitor
wake m = record m { retry_wake = true }

-- `update_schedule` of the service: a wrong interval raises.
abbrev pub after_save : Attempt Tables → Monitor → Attempt Monitor
after_save (failed error) m = failed error
after_save (done t) m = done (record m { tables = t })

unfoldable pub update_schedule : Bool → ℕ → Monitor → Attempt Monitor
unfolding save_schedule
update_schedule enabled interval_hours m =
    after_save (save_schedule enabled interval_hours m.tables) m

-- The wait in milliseconds; subtraction stops at 0, as the source's `max(0.0, …)` does.
abbrev pub until_retry : Option ℕ → Option ℕ → ℕ → ℕ → ℕ
until_retry (some retry) last interval now = min interval (retry - now)
until_retry none none interval now = interval
until_retry none (some last) interval now = min interval (last + interval - now)

unfoldable pub seconds_until_next_run : ℕ → Monitor → ℕ
seconds_until_next_run now m =
    let interval : ℕ = m.tables.schedule.interval_hours * hour in
    if m.tables.schedule.enabled
    then until_retry m.retry_not_before m.tables.schedule.last_succeeded_at interval now
    else interval
