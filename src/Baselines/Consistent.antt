-- ===== src/Baselines/Consistent.antt =====
-- The tables stay consistent: ids are unique, so that a lookup finds what was inserted, and the interval
-- is one of those allowed.
use net_audit.Baselines.Runs.{
  Run, behind_capture, held_back, run_once-Run, awake, not_due, with_capture, not_captured,
  captured_one, not_dispatched,
}
use net_audit.Baselines.Runs.{scheduled_snapshot}
use net_audit.Baselines.Store.{
  get_baseline, id_taken, is_allowed, after_last, mark_schedule_error, delete_scheduled_before,
  is_outdated, save_schedule,
}
use net_audit.Baselines.Monitor.{wake, MonitorResult, run_once, update_schedule, retention, Alert}
use net_audit.Baselines.Monitor.{Monitor}
use net_audit.Baselines.Monitor.{Surroundings}
use net_audit.Baselines.Snapshot.{snapshot, Observation}
use net_audit.Baselines.Monitor.{prune}
use net_audit.Baselines.Monitor.{give_up}
use net_audit.Baselines.Store.{mark_schedule_success}
use net_audit.Baselines.Store.{remove_outdated}
use net_audit.Common.Text.{Text, text_eq, text_eq_sym, text_eq_refl}
use net_audit.Baselines.{Tables, Attempt, done, failed}
use net_audit.Baselines.{Baseline}
use net_audit.Common.{
  Bool-cases, ℕ, ◌-◌, ◌≡◌, refl, inl, inr, Bool, true, false, none, some, List, [], ◌∷◌, ◌++◌,
  arith,
}

abbrev pub DistinctIds : List Baseline → Type 0
DistinctIds [] = Unit
DistinctIds (b ∷ rows) = (id_taken b.id rows ≡ false) × DistinctIds rows

abbrev pub IsConsistent : Tables → Type 0
IsConsistent t = DistinctIds t.baselines × (is_allowed t.schedule.interval_hours ≡ true)

id_taken-append :
    (x : Text) (rows : List Baseline) (b : Baseline)
    → id_taken x rows ≡ false
    → text_eq b.id x ≡ false
    → id_taken x (rows ++ (b ∷ [])) ≡ false
id_taken-append x [] b h k = ground arith
id_taken-append x (r ∷ rows) b h k = ground (arith, id_taken-append x rows b)

DistinctIds-append :
    (rows : List Baseline) (b : Baseline)
    → DistinctIds rows
    → id_taken b.id rows ≡ false
    → DistinctIds (rows ++ (b ∷ []))
DistinctIds-append [] b h free = (refl, tt)
DistinctIds-append (r ∷ rows) b h free = (
  id_taken-append r.id rows b h.0 (ground (arith, text_eq_sym r.id b.id)),
  DistinctIds-append rows b h.1 (ground arith),
)

id_taken-remove_outdated :
    (x : Text) (cutoff : ℕ) (rows : List Baseline)
    → id_taken x rows ≡ false
    → id_taken x (remove_outdated cutoff rows) ≡ false
unfolding remove_outdated
id_taken-remove_outdated x cutoff [] h = refl
id_taken-remove_outdated x cutoff (r ∷ rows) h =
    ground (arith, id_taken-remove_outdated x cutoff rows)

DistinctIds-remove_outdated :
    (cutoff : ℕ) (rows : List Baseline)
    → DistinctIds rows
    → DistinctIds (remove_outdated cutoff rows)
unfolding remove_outdated
DistinctIds-remove_outdated cutoff [] h = tt
DistinctIds-remove_outdated cutoff (r ∷ rows) h =
    let rest : DistinctIds (remove_outdated cutoff rows) =
      DistinctIds-remove_outdated cutoff rows h.1 in
    let free : id_taken r.id (remove_outdated cutoff rows) ≡ false =
      id_taken-remove_outdated r.id cutoff rows h.0 in
    elim (Bool-cases (is_outdated cutoff r)) [
      | inl old ↦ rw old rest
      | inr recent ↦ rw recent (free, rest)
    ]

mark-IsConsistent :
    (now : ℕ) (t : Tables) → IsConsistent t → IsConsistent (mark_schedule_success now t)
unfolding mark_schedule_success
mark-IsConsistent now t h = elim (Bool-cases (after_last t.schedule.last_succeeded_at now)) [
  | inl later ↦ rw later h
  | inr earlier ↦ rw earlier h
]

give_up-IsConsistent :
    (now : ℕ) (error : Text) (m : Monitor)
    → IsConsistent m.tables
    → IsConsistent (give_up now error m).1.tables
unfolding give_up mark_schedule_error
give_up-IsConsistent now error m h = h

prune-IsConsistent :
    (now : ℕ) (m : Monitor) → IsConsistent m.tables → IsConsistent (prune now m).tables
unfolding prune delete_scheduled_before
prune-IsConsistent now m h =
    (DistinctIds-remove_outdated (now - retention) m.tables.baselines h.0, h.1)

snapshot_id : (w : Surroundings) (seen : Observation) → (scheduled_snapshot w seen).id ≡ w.fresh_id
unfolding snapshot
snapshot_id w seen = refl

behind_capture-IsConsistent :
    (w : Surroundings) (seen : Observation) (alerts : List Alert) (m : Monitor)
    → id_taken w.fresh_id m.tables.baselines ≡ false
    → IsConsistent m.tables
    → IsConsistent (behind_capture w seen alerts m).tables
behind_capture-IsConsistent w seen alerts m free h =
    let b : Baseline = scheduled_snapshot w seen in
    let new : id_taken b.id m.tables.baselines ≡ false = rw (snapshot_id w seen) free in
    prune-IsConsistent w.now
      (record (awake m) {
        tables = with_capture w.now b m.tables;
        retry_not_before = none;
        alerts = alerts;
      })
      (mark-IsConsistent w.now (record m.tables { baselines = m.tables.baselines ++ (b ∷ []) })
        (DistinctIds-append m.tables.baselines b h.0 new, h.1))

Run-IsConsistent :
    (w : Surroundings) (m : Monitor) (r : MonitorResult × Monitor)
    → IsConsistent m.tables
    → Run w m r
    → IsConsistent r.1.tables
Run-IsConsistent w m r h (held_back held) = h
Run-IsConsistent w m r h (not_due early) = h
Run-IsConsistent w m r h (not_captured error due) = give_up-IsConsistent w.now error (awake m) h
Run-IsConsistent w m r h (captured_one seen alerted alerts due free) =
    behind_capture-IsConsistent w seen alerts m free h
Run-IsConsistent w m r h (not_dispatched seen error due free) =
    give_up-IsConsistent w.now error (behind_capture w seen m.alerts m)
      (behind_capture-IsConsistent w seen m.alerts m free h)

-- A history of the monitor: runs in any surroundings, wake-up calls, and changes of the schedule, those
-- with a wrong interval included, which change nothing.
pub data Event : Type 0 where
  ran : Surroundings → Event
  woken : Event
  rescheduled : Bool → ℕ → Event

abbrev pub or_same : Monitor → Attempt Monitor → Monitor
or_same m (done m') = m'
or_same m (failed error) = m

abbrev pub step : Monitor → Event → Monitor
step m (ran w) = (run_once w m).1
step m woken = wake m
step m (rescheduled enabled interval_hours) = or_same m (update_schedule enabled interval_hours m)

abbrev pub run_all : Monitor → List Event → Monitor
run_all m [] = m
run_all m (e ∷ es) = run_all (step m e) es

step-IsConsistent :
    (m : Monitor) (e : Event) → IsConsistent m.tables → IsConsistent (step m e).tables
unfolding wake update_schedule save_schedule
step-IsConsistent m (ran w) h = Run-IsConsistent w m (run_once w m) h (run_once-Run w m)
step-IsConsistent m woken h = h
step-IsConsistent m (rescheduled enabled interval_hours) h =
    elim (Bool-cases (is_allowed interval_hours)) [
      | inl allowed ↦ rw allowed (h.0, allowed)
      | inr refused ↦ rw refused h
    ]

-- From consistent tables, with distinct ids and an allowed interval, every sequence of runs, wake-up
-- calls and changes of the schedule leads to consistent tables, whatever ids are drawn.
pub run_all-IsConsistent :
    (m : Monitor) (es : List Event) → IsConsistent m.tables → IsConsistent (run_all m es).tables
run_all-IsConsistent m [] h = h
run_all-IsConsistent m (e ∷ es) h = run_all-IsConsistent (step m e) es (step-IsConsistent m e h)

get_baseline-append :
    (rows : List Baseline) (b : Baseline)
    → id_taken b.id rows ≡ false
    → get_baseline b.id (rows ++ (b ∷ [])) ≡ some b
unfolding get_baseline
get_baseline-append [] b free = ground (arith, text_eq_refl b.id)
get_baseline-append (r ∷ rows) b free = ground (arith, get_baseline-append rows b)
