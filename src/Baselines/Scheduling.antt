-- ===== src/Baselines/Scheduling.antt =====
-- When the monitor captures: not while it is disabled, not before the interval is over, and not during a
-- back-off; and how long it waits.
use net_audit.Common.Text.{Text}
use net_audit.Baselines.Runs.{
  Run, held_back, not_due, not_captured, awake, captured_one, run_once-Run, not_dispatched,
  behind_capture,
}
use net_audit.Baselines.{Tables, Baseline, hour, Schedule}
use net_audit.Baselines.Snapshot.{is_due, capture_scheduled_if_due, Observation}
use net_audit.Baselines.Monitor.{
  give_up, Monitor, is_held_back, MonitorResult, bounded_error, after_capture, max_error_length,
  nothing_done, seconds_until_next_run, Alert,
}
use net_audit.Baselines.Monitor.{run_once}
use net_audit.Baselines.Monitor.{prune}
use net_audit.Baselines.Monitor.{Surroundings}
use net_audit.Baselines.Store.{mark_schedule_success, delete_scheduled_before, mark_schedule_error}
use net_audit.Common.{
  ltb, leb, some-cases, length, length-take, ℕ, ◌+◌, ◌*◌, ◌≤◌, ◌<◌, ◌≡◌, refl, inl, inr, true,
  false, none, some, List, arith,
}

-- The tables of a capture that was due are marked with its success.
marked :
    (now : ℕ) (t : Tables) (rows : List Baseline)
    → is_due t.schedule now ≡ true
    → (mark_schedule_success now (record t { baselines = rows })).schedule
      ≡ record t.schedule { last_succeeded_at = some now; last_error = none }
unfolding mark_schedule_success is_due
marked now t rows h = elim (some-cases t.schedule.last_succeeded_at) [
  | inl e ↦ rw e refl
  | inr (last, e) ↦ let passed : leb last now ≡ true = ground arith in rw (e, passed) refl
]

-- A capture records its success and ends the back-off.
abbrev RecordsSuccess : Surroundings → Monitor → MonitorResult × Monitor → Type 0
RecordsSuccess w m (result, m') =
    result.captured ≡ true
    → (m'.tables.schedule
        ≡ record m.tables.schedule { last_succeeded_at = some w.now; last_error = none })
      × (m'.retry_not_before ≡ none)

Run-RecordsSuccess :
    (w : Surroundings) (m : Monitor) (r : MonitorResult × Monitor)
    → Run w m r
    → RecordsSuccess w m r
unfolding prune delete_scheduled_before give_up
Run-RecordsSuccess w m r (held_back held) = λ c. cc
Run-RecordsSuccess w m r (not_due early) = λ c. cc
Run-RecordsSuccess w m r (not_captured error due) = λ c. cc
Run-RecordsSuccess w m r (captured_one seen alerted alerts due free) =
    λ c. (marked w.now m.tables _ due, refl)
Run-RecordsSuccess w m r (not_dispatched seen error due free) = λ c. cc

-- After a run that captured, a run at any time before the schedule's interval is over does nothing but
-- take note of a wake-up call.
pub run_once_within_interval :
    (w w' : Surroundings) (m : Monitor)
    → (run_once w m).0.captured ≡ true
    → w'.now < w.now + m.tables.schedule.interval_hours * hour
    → run_once w' (run_once w m).1 ≡ (nothing_done, awake (run_once w m).1)
unfolding run_once is_held_back capture_scheduled_if_due is_due after_capture
run_once_within_interval w w' m captured early =
    let (success, ended) = Run-RecordsSuccess w m (run_once w m) (run_once-Run w m) captured in
    let wait : ltb w'.now (w.now + m.tables.schedule.interval_hours * hour) ≡ true = ground arith in
    rw (ended, success, wait) (ground arith)

-- What a failed run leaves behind.
abbrev pub BacksOff : Surroundings → Monitor → MonitorResult × Monitor → Type 0
BacksOff w m (result, m') =
    (error : Text)
    → result.error ≡ some error
    → (length error ≤ max_error_length)
      × (m'.tables.schedule.last_error ≡ some error)
      × (m'.retry_not_before ≡ some (w.now + m.tables.schedule.interval_hours * hour))
      × (m'.retry_wake ≡ false)
      × (result.captured ≡ false)

give_up-BacksOff :
    (w : Surroundings) (m m' : Monitor) (error : Text)
    → m'.tables.schedule.interval_hours ≡ m.tables.schedule.interval_hours
    → m'.retry_wake ≡ false
    → BacksOff w m (give_up w.now error m')
unfolding give_up mark_schedule_error bounded_error
give_up-BacksOff w m m' error e asleep = λ shown h. ground (arith, length-take 500 error)

behind_capture_interval :
    (w : Surroundings) (seen : Observation) (alerts : List Alert) (m : Monitor)
    → (behind_capture w seen alerts m).tables.schedule.interval_hours
      ≡ m.tables.schedule.interval_hours
unfolding prune delete_scheduled_before mark_schedule_success
behind_capture_interval w seen alerts m = ground arith

behind_capture_asleep :
    (w : Surroundings) (seen : Observation) (alerts : List Alert) (m : Monitor)
    → (behind_capture w seen alerts m).retry_wake ≡ false
unfolding prune delete_scheduled_before
behind_capture_asleep w seen alerts m = refl

Run-BacksOff :
    (w : Surroundings) (m : Monitor) (r : MonitorResult × Monitor) → Run w m r → BacksOff w m r
Run-BacksOff w m r (held_back held) = λ error h. cc
Run-BacksOff w m r (not_due early) = λ error h. cc
Run-BacksOff w m r (not_captured error due) = give_up-BacksOff w m (awake m) error refl refl
Run-BacksOff w m r (captured_one seen alerted alerts due free) = λ error h. cc
Run-BacksOff w m r (not_dispatched seen error due free) =
    give_up-BacksOff w m (behind_capture w seen m.alerts m) error
      (behind_capture_interval w seen m.alerts m) (behind_capture_asleep w seen m.alerts m)

-- A run that fails shows an error of at most 500 characters and stores it; and then each run does
-- nothing until the schedule's interval is over, if the monitor is not woken.
pub run_once_backs_off :
    (w w' : Surroundings) (m : Monitor) (error : Text)
    → (run_once w m).0.error ≡ some error
    → w'.now < w.now + m.tables.schedule.interval_hours * hour
    → (length error ≤ 500)
      × ((run_once w m).1.tables.schedule.last_error ≡ some error)
      × (run_once w' (run_once w m).1 ≡ (nothing_done, (run_once w m).1))
run_once_backs_off w w' m error h early =
    let (short, stored, retry, asleep, _) =
      Run-BacksOff w m (run_once w m) (run_once-Run w m) error h in
    let wait : ltb w'.now (w.now + m.tables.schedule.interval_hours * hour) ≡ true = ground arith in
    (short, stored, unfold run_once is_held_back in rw (retry, wait, asleep) refl)

-- What a run may change of a disabled monitor: only its note of a wake-up call.
abbrev pub OnlyWakes : Monitor → MonitorResult × Monitor → Type 0
OnlyWakes m (result, m') =
    (result ≡ nothing_done)
    × (m'.tables ≡ m.tables)
    × (m'.alerts ≡ m.alerts)
    × (m'.retry_not_before ≡ m.retry_not_before)

disabled_not_due : (s : Schedule) (now : ℕ) → s.enabled ≡ false → is_due s now ≡ true → ⊥
unfolding is_due
disabled_not_due s now h k = ground arith

Run-OnlyWakes :
    (w : Surroundings) (m : Monitor) (r : MonitorResult × Monitor)
    → m.tables.schedule.enabled ≡ false
    → Run w m r
    → OnlyWakes m r
Run-OnlyWakes w m r off (held_back held) = (refl, refl, refl, refl)
Run-OnlyWakes w m r off (not_due early) = (refl, refl, refl, refl)
Run-OnlyWakes w m r off (not_captured error due) =
    absurd (disabled_not_due m.tables.schedule w.now off due)
Run-OnlyWakes w m r off (captured_one seen alerted alerts due free) =
    absurd (disabled_not_due m.tables.schedule w.now off due)
Run-OnlyWakes w m r off (not_dispatched seen error due free) =
    absurd (disabled_not_due m.tables.schedule w.now off due)

-- While the schedule is disabled, a run captures nothing, alerts nobody, and changes neither the tables
-- nor a back-off.
pub run_once-OnlyWakes :
    (w : Surroundings) (m : Monitor)
    → m.tables.schedule.enabled ≡ false
    → OnlyWakes m (run_once w m)
run_once-OnlyWakes w m off = Run-OnlyWakes w m (run_once w m) off (run_once-Run w m)

-- If the monitor is enabled, not backing off, and its wait is shorter than the interval, then at every
-- later time the run is not held back, and a capture is due from the end of the wait on, however late, and
-- not before.
pub seconds_until_next_run_exact :
    (now passed : ℕ) (m : Monitor)
    → m.tables.schedule.enabled ≡ true
    → m.retry_not_before ≡ none
    → seconds_until_next_run now m < m.tables.schedule.interval_hours * hour
    → (is_held_back m (now + passed) ≡ false)
      × (is_due m.tables.schedule (now + passed) ≡ leb (seconds_until_next_run now m) passed)
unfolding seconds_until_next_run is_held_back is_due
seconds_until_next_run_exact now passed m on e short =
    elim (some-cases m.tables.schedule.last_succeeded_at) [
      | inl f ↦ rw (e, f) (ground arith)
      | inr (last, f) ↦ rw (e, f) (ground arith, ground arith)
    ]
